-- ===== src/Memory.antt =====
-- The memory of the search handles of lib/PublicInbox/xap_helper.h, and the open.lock files that are
-- held meanwhile: srch_free, srch_cache_renew, srch_init, the part of dispatch that finds a handle,
-- cleanup_pids and cleanup_all, with every new, delete and free. Cache has what the handles mean. The
-- set of khashl.h is the list of its pointers, newest first. Memory does not run out.
pub mod Opens
pub mod Serves
pub mod Layout
pub mod Frees
pub mod Heads
pub mod Tries
pub mod Locked
pub mod Both
pub mod Parts
pub mod Inits
pub mod Finds
pub mod Gets
pub mod Refine
pub mod Answers
pub mod Lifetime
pub mod Tests
use public_inbox.Heap.{
  Ptr, Live, lookup, remove, put, done, Cmd, pure, ◌>>=◌, ◌>>◌, or_invalid, invalid,
}
use public_inbox.Cache.{Parser, UserPrefix}
use public_inbox.Locks.{Fds}
use public_inbox.Base.{◌==◌, if◌then◌else◌, ℕ, ◌+◌, Bool, false, Option, none, some, List, [], ◌∷◌}
use public_inbox.Args.{Bytes}

-- struct srch.
pub record Srch : Type 0 where
  pub ckey : Bytes
  pub phrase : Bool
  pub db : Ptr
  pub qp : Ptr

-- A Xapian::QueryParser.
pub record QueryParser : Type 0 where
  pub parser : Parser
  pub prefixes : List UserPrefix

-- The process: its live objects, the static variables srch_cache (the set), worker_pids and
-- shard_nfd, and its descriptors. A Xapian::Database is the directories that it consists of.
pub record Proc : Type 0 where
  pub next : ℕ
  pub srchs : Live Srch
  pub dbs : Live (List Bytes)
  pub qps : Live QueryParser
  pub pid_arrays : Live (List ℕ)
  pub srch_cache : Option (List ℕ)
  pub worker_pids : Ptr
  pub shard_nfd : ℕ
  pub fds : Fds

unfoldable pub read_srch : ℕ → Cmd Proc Srch
read_srch p s = or_invalid (lookup p s.srchs) s

unfoldable pub write_srch : ℕ → Srch → Cmd Proc (Unit {0})
write_srch p a s = done tt (record s { srchs = put p a s.srchs })

-- `*srch->db`, which is NULL before srch_init.
unfoldable pub read_db : Ptr → Cmd Proc (List Bytes)
read_db none s = invalid
read_db (some d) s = or_invalid (lookup d s.dbs) s

unfoldable pub read_qp : Ptr → Cmd Proc QueryParser
read_qp none s = invalid
read_qp (some q) s = or_invalid (lookup q s.qps) s

unfoldable pub read_set : Cmd Proc (List ℕ)
read_set s = or_invalid s.srch_cache s

unfoldable pub write_set : List ℕ → Cmd Proc (Unit {0})
write_set ptrs s = done tt (record s { srch_cache = some ptrs })

unfoldable pub new_srch : Bytes → Cmd Proc ℕ
new_srch ckey s =
    let a : Srch = record { ckey = ckey; phrase = false; db = none; qp = none } in
    done s.next (record s { next = s.next + 1; srchs = (s.next, a) ∷ s.srchs })

-- `new Xapian::Database(dir)`, of one directory.
unfoldable pub new_db : Bytes → Cmd Proc ℕ
new_db dir s = done s.next (record s { next = s.next + 1; dbs = (s.next, dir ∷ []) ∷ s.dbs })

unfoldable pub new_qp : QueryParser → Cmd Proc ℕ
new_qp a s = done s.next (record s { next = s.next + 1; qps = (s.next, a) ∷ s.qps })

-- delete does nothing to NULL.
unfoldable pub delete_db : Ptr → Cmd Proc (Unit {0})
delete_db none s = done tt s
delete_db (some d) s = elim (remove d s.dbs) [
  | none ↦ invalid
  | some dbs ↦ done tt (record s { dbs = dbs })
]

unfoldable pub delete_qp : Ptr → Cmd Proc (Unit {0})
delete_qp none s = done tt s
delete_qp (some q) s = elim (remove q s.qps) [
  | none ↦ invalid
  | some qps ↦ done tt (record s { qps = qps })
]

unfoldable pub free_srch : ℕ → Cmd Proc (Unit {0})
free_srch p s = elim (remove p s.srchs) [
  | none ↦ invalid
  | some srchs ↦ done tt (record s { srchs = srchs })
]

unfoldable pub srch_free : ℕ → Cmd Proc (Unit {0})
unfolding read_srch delete_qp delete_db free_srch
srch_free p = do a ← read_srch p; delete_qp a.qp; delete_db a.db; free_srch p

abbrev pub is_ptr : Ptr → ℕ → Bool
is_ptr none p = false
is_ptr (some q) p = q == p

-- The loop of srch_cache_renew.
unfoldable pub renew_loop : Ptr → List ℕ → Cmd Proc (Unit {0})
unfolding srch_free
renew_loop keep [] = pure tt
renew_loop keep (cur ∷ ptrs) =
    (if is_ptr keep cur then pure tt else srch_free cur) >> renew_loop keep ptrs

abbrev pub kept : Ptr → List ℕ
kept none = []
kept (some p) = p ∷ []

unfoldable pub renew : Ptr → Cmd Proc (Unit {0})
unfolding renew_loop read_set write_set
renew keep = do ptrs ← read_set; renew_loop keep ptrs; write_set (kept keep)

-- `free(worker_pids)`, which does nothing to NULL.
unfoldable pub cleanup_pids : Cmd Proc (Unit {0})
cleanup_pids s = elim s.worker_pids [
  | none ↦ done tt s
  | some p ↦ elim (remove p s.pid_arrays) [
    | none ↦ invalid
    | some arrays ↦ done tt (record s { pid_arrays = arrays; worker_pids = none })
  ]
]

-- The handler that main gives to atexit.
unfoldable pub cleanup_all : Cmd Proc (Unit {0})
unfolding cleanup_pids renew
cleanup_all = cleanup_pids >> λ s. elim s.srch_cache [
  | none ↦ done tt s
  | some ptrs ↦ (renew none >> λ t. done tt (record t { srch_cache = none })) s
]
