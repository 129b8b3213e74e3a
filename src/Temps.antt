-- ===== src/Temps.antt =====
-- What cmd_dump_roots of lib/PublicInbox/xh_cidx.h takes and gives back: the file with the root ids
-- and its mapping, the array and the table of its entries, the buffer of the lines, and req->lenv; with
-- dump_roots_ensure, and fbuf_init, fbuf_ensure, xcalloc, off2size and req_cleanup of
-- lib/PublicInbox/xap_helper.h. DumpRoots has what the command writes.
pub mod Ensure
pub mod Roots
pub mod Balance
pub mod Whole
pub mod GivesBack
pub mod Tests
use public_inbox.Heap.{
  Ptr, Live, lookup, remove, done, exited, Cmd, pure, ◌>>=◌, ◌>>◌, lift, or_invalid, abort, fault,
}
use public_inbox.RootIds.{Table}
use public_inbox.Locks.{close}
use public_inbox.Args.{Bytes}
use public_inbox.Base.{
  ltb, ◌==◌, if◌then◌else◌, ℤ, Run, aborts, ok, stop, pos, negsuc, ℕ, ◌+◌, ◌-◌, ◌*◌, ◌^◌, Bool,
  false, ◌&&◌, Option, none, some, List, [], ◌∷◌,
}

-- The open descriptors and the live objects: mappings and arrays with their sizes, tables, streams of
-- open_memstream with the addresses of their buffers, and these.
pub record Store : Type 0 where
  pub next : ℕ
  pub fds : List ℕ
  pub maps : Live ℕ
  pub arrays : Live ℕ
  pub lenvs : Live ℕ
  pub tables : Live Table
  pub streams : Live ℕ
  pub buffers : Live Bytes
  pub cur_req : Bool

-- struct fbuf, without the length.
pub record Fbuf : Type 0 where
  pub fp : Ptr
  pub ptr : Ptr

-- struct dump_roots_tmp, with the size of `sb`.
pub record Tmp : Type 0 where
  pub st_size : ℤ
  pub mm_ptr : Ptr
  pub entries : Ptr
  pub wbuf : Fbuf
  pub root2id : Ptr
  pub root2off_fd : Option ℕ

-- The descriptor that open gives, whether calloc has the memory, and whether fclose works.
pub record System : Type 0 where
  pub fd : ℕ
  pub calloc_works : ℕ → ℕ → Bool
  pub fclose_works : Bool

-- An off_t as a size_t.
unfoldable pub off2size : ℤ → Run ℕ
off2size (negsuc n) = stop aborts
off2size (pos n) = if ltb (2 ^ 64 - 1) n then stop aborts else ok n

-- calloc has no memory for a number of bytes that is no size_t.
unfoldable pub calloc : System → ℕ → ℕ → Bool
calloc y nmemb size = ltb (nmemb * size) (2 ^ 64) && y.calloc_works nmemb size

-- xcalloc, for the array of entries and for req->lenv.
unfoldable pub xcalloc_entries : System → ℕ → Cmd Store ℕ
unfolding calloc
xcalloc_entries y n s =
    if calloc y n 8
    then done s.next (record s { next = s.next + 1; arrays = (s.next, n) ∷ s.arrays })
    else abort s

unfoldable pub xcalloc_lenv : System → ℕ → Cmd Store ℕ
unfolding calloc
xcalloc_lenv y n s =
    if calloc y n 8
    then done s.next (record s { next = s.next + 1; lenvs = (s.next, n) ∷ s.lenvs })
    else abort s

abbrev pub no_fbuf : Fbuf
no_fbuf = record { fp = none; ptr = none }

unfoldable pub fbuf_init : Fbuf → Cmd Store Fbuf
fbuf_init f s = elim f.ptr [
  | some p ↦ abort s
  | none ↦
      done (record f { fp = some s.next })
        (record s {
          next = s.next + 2;
          streams = (s.next, s.next + 1) ∷ s.streams;
          buffers = (s.next + 1, []) ∷ s.buffers;
        })
]

-- free(3) does nothing to NULL.
unfoldable pub free_buffer : Ptr → Cmd Store (Unit {0})
free_buffer none = pure tt
free_buffer (some p) = do
  l ← λ s. or_invalid (remove p s.buffers) s
  λ s. done tt (record s { buffers = l })

-- fclose ends the stream and leaves its buffer to its user.
unfoldable pub fclose : System → ℕ → Cmd Store ℕ
fclose y p = do
  b ← λ s. or_invalid (lookup p s.streams) s
  l ← λ s. or_invalid (remove p s.streams) s
  λ s. if y.fclose_works then done b (record s { streams = l }) else exited 1 s

unfoldable pub fbuf_ensure : System → Fbuf → Cmd Store (Unit {0})
unfolding free_buffer fclose
fbuf_ensure y f = elim f.fp [
  | none ↦ free_buffer f.ptr
  | some p ↦ do b ← fclose y p; free_buffer (some b)
]

unfoldable pub close_fd : Option ℕ → Cmd Store (Unit {0})
close_fd none = pure tt
close_fd (some fd) = λ s. done tt (record s { fds = close fd s.fds })

unfoldable pub destroy_table : Ptr → Cmd Store (Unit {0})
destroy_table none = pure tt
destroy_table (some p) = do
  l ← λ s. or_invalid (remove p s.tables) s
  λ s. done tt (record s { tables = l })

-- To unmap another size than was mapped is taken for a fault.
unfoldable pub unmap : Ptr → ℕ → Cmd Store (Unit {0})
unmap none size = pure tt
unmap (some p) size = do
  n ← λ s. or_invalid (lookup p s.maps) s
  l ← λ s. or_invalid (remove p s.maps) s
  if n == size then (λ s. done tt (record s { maps = l })) else fault

unfoldable pub free_entries : Ptr → Cmd Store (Unit {0})
free_entries none = pure tt
free_entries (some p) = do
  l ← λ s. or_invalid (remove p s.arrays) s
  λ s. done tt (record s { arrays = l })

unfoldable pub dump_roots_ensure : System → Tmp → Cmd Store (Unit {0})
unfolding close_fd destroy_table off2size unmap free_entries fbuf_ensure
dump_roots_ensure y t = do
  close_fd t.root2off_fd
  destroy_table t.root2id
  size ← lift (off2size t.st_size)
  unmap t.mm_ptr size
  free_entries t.entries
  fbuf_ensure y t.wbuf

unfoldable pub free_lenv : Ptr → Cmd Store (Unit {0})
free_lenv none = pure tt
free_lenv (some p) = do
  l ← λ s. or_invalid (remove p s.lenvs) s
  λ s. done tt (record s { lenvs = l })

-- req_cleanup, for req->lenv.
unfoldable pub req_cleanup : Ptr → Cmd Store (Unit {0})
unfolding free_lenv
req_cleanup lenv = do free_lenv lenv; λ s. done tt (record s { cur_req = false })
