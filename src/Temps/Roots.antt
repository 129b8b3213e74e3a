-- ===== src/Temps/Roots.antt =====
-- cmd_dump_roots of lib/PublicInbox/xh_cidx.h with what it takes and gives back, and the req_cleanup of
-- recv_once behind it.
use public_inbox.Temps.{
  System, Store, Tmp, xcalloc_entries, req_cleanup, dump_roots_ensure, xcalloc_lenv, off2size,
  fbuf_init, no_fbuf,
}
use public_inbox.Query.{got, modified, thrown, commit_mset}
use public_inbox.DumpRoots.{goes_on, returns_false, raises, waits, RootsEnv, Flow, finish_roots}
use public_inbox.Heap.{◌>>=◌, ◌>>◌, done, exited, Cmd, pure, abort, ◌>>◌, lift}
use public_inbox.RootIds.{Table, put_entries}
use public_inbox.DumpIbx.{Reply, by_docid}
use public_inbox.Options.{Req}
use public_inbox.Args.{Bytes, split2argv, cstr}
use public_inbox.Prefix.{term_length_extract}
use public_inbox.Base.{
  ltb, ◌==◌, if◌then◌else◌, length, Run, aborts, ok, stop, pos, ℕ, ◌+◌, ◌*◌, ◌/◌, ◌%◌, ◌^◌, none,
  some, List, [], ◌∷◌, map,
}

unfoldable pub open_file : System → Cmd Store (Unit {0})
open_file y s = done tt (record s { fds = y.fd ∷ s.fds })

-- mmap, which refuses an empty file.
unfoldable pub map_file : ℕ → Cmd Store ℕ
map_file size s =
    if size == 0
    then exited 1 s
    else done s.next (record s { next = s.next + 1; maps = (s.next, size) ∷ s.maps })

-- root2id_init
unfoldable pub new_table : Table → Cmd Store ℕ
new_table t s = done s.next (record s { next = s.next + 1; tables = (s.next, t) ∷ s.tables })

-- `asize < est`, where a size_t wraps around.
unfoldable pub entries_size : ℕ → Run ℕ
entries_size est = let asize = est * 2 % 2 ^ 64 in if ltb asize est then stop aborts else ok asize

-- A call that has not returned is the end of what happens; otherwise the clean-up follows.
abbrev pub unless_waiting : Flow × Reply → Cmd Store (Unit {0}) → Cmd Store (Flow × Reply)
unless_waiting (waits, r) clean = pure (waits, r)
unless_waiting (goes_on, r) clean = clean >> pure (goes_on, r)
unless_waiting (returns_false, r) clean = clean >> pure (returns_false, r)
unless_waiting (raises, r) clean = clean >> pure (raises, r)

-- From commit_mset on, whose exceptions leave the function before the buffer is there.
unfoldable pub roots_query :
    System → RootsEnv → Req → Bytes → List Bytes → Table → Tmp → Cmd Store (Flow × Reply)
unfolding req_cleanup
roots_query y v req qry pfxv table t =
    elim (commit_mset v.env.answers v.postings (by_docid req) v.env.qp_flags qry 0) [
      | modified ↦
          dump_roots_ensure y t
          >> (req_cleanup none >> pure (raises, record { out = []; err = []; returned = none }))
      | thrown ↦
          dump_roots_ensure y t
          >> (req_cleanup none >> pure (raises, record { out = []; err = []; returned = none }))
      | got docs ↦ do
        lenv ← xcalloc_lenv y (length pfxv)
        wbuf ← fbuf_init t.wbuf
        r ← lift (
            finish_roots v
              (record {
                skip_to = v.env.skip_to;
                reopens = v.env.reopens;
                table = table;
                prefixes = term_length_extract v.env.strtoull pfxv;
                locks = v.locks;
                unlocks = v.unlocks;
                calls = v.calls;
              })
              docs)
        unless_waiting r (dump_roots_ensure y (record t { wbuf = wbuf }) >> req_cleanup (some lenv))
    ]

-- From the opened file on.
unfoldable pub roots_file :
    System → RootsEnv → Req → Bytes → List Bytes → Bytes → Cmd Store (Flow × Reply)
unfolding open_file map_file new_table entries_size roots_query
roots_file y v req qry pfxv contents = do
  open_file y
  size ← lift (off2size (pos (length contents)))
  mm ← map_file size
  asize ← lift (entries_size (size / 32 + 1))
  entries ← xcalloc_entries y asize
  r ← lift (split2argv contents asize)
  table ← lift (put_entries (map cstr r.1) [])
  root2id ← new_table table
  roots_query y v req qry pfxv table (record {
    st_size = pos (length contents);
    mm_ptr = some mm;
    entries = some entries;
    wbuf = no_fbuf;
    root2id = some root2id;
    root2off_fd = some y.fd;
  })

unfoldable pub serve_roots : System → RootsEnv → Req → List Bytes → Cmd Store (Flow × Reply)
unfolding roots_file
serve_roots y v req [] = abort
serve_roots y v req (root2off_file ∷ []) = abort
serve_roots y v req (root2off_file ∷ qry ∷ args) = elim req.pfxv [
  | [] ↦ abort
  | pfx ∷ pfxs ↦ elim (v.file root2off_file) [
    | none ↦ abort
    | some contents ↦ roots_file y v req qry (pfx ∷ pfxs) contents
  ]
]
