-- ===== src/Memory/Opens.antt =====
-- srch_init of lib/PublicInbox/xap_helper.h, with the memory and the locks that it takes.
use public_inbox.Heap.{fault, done, exited, Cmd, pure, ◌>>=◌, ◌>>◌, lift, put, invalid, blocked}
use public_inbox.Locks.{lock_shared_maybe, unlock_ensure, LockFile}
use public_inbox.Cache.{World, shard_cost, Opening, unset_phrase, parser_of, srch_init_extra}
use public_inbox.Memory.{Proc, read_srch, new_qp, renew, write_srch, read_db, delete_db, new_db}
use public_inbox.Options.{Req}
use public_inbox.Dispatch.{Outside}
use public_inbox.Args.{Bytes}
use public_inbox.Base.{
  ltb, if◌then◌else◌, length, ok, stop, ℕ, ◌+◌, ◌*◌, Bool, true, false, Option, none, some, List,
  [], ◌∷◌, ◌++◌, map,
}

-- What is outside at a request: that of Dispatch, and what open(2) and flock(2) return for each lock
-- file at a try.
pub record Around : Type 0 where
  pub outside : Outside
  pub lock_file : ℕ → Bytes → LockFile

-- `shard_nfd += nfd`, and the renewal if that is too much.
unfoldable pub charge : World → ℕ → ℕ → Cmd Proc (Unit {0})
unfolding renew
charge w nfd p s =
    if ltb w.my_fd_max (s.shard_nfd + nfd)
    then (renew (some p) >> λ t. done tt (record t { shard_nfd = nfd })) s
    else done tt (record s { shard_nfd = s.shard_nfd + nfd })

-- FLAG_PHRASE, written back.
unfoldable pub flag_phrase : World → Bytes → ℕ → Cmd Proc (Unit {0})
unfolding read_srch write_srch
flag_phrase w dir p = do
  a ← read_srch p
  phrase ← lift (unset_phrase w dir a.phrase)
  write_srch p (record a { phrase = phrase })

-- `srch->db->add_database(...)`
unfoldable pub add_database : ℕ → Bytes → Cmd Proc (Unit {0})
unfolding read_srch read_db
add_database p dir = do
  a ← read_srch p
  dirs ← read_db a.db
  λ s. elim a.db [
    | none ↦ invalid
    | some d ↦ done tt (record s { dbs = put d (dirs ++ (dir ∷ [])) s.dbs })
  ]

-- The loop over the directories behind the first; `false` is an exception.
unfoldable pub add_databases : World → Opening → ℕ → ℕ → List Bytes → Cmd Proc Bool
unfolding flag_phrase add_database
add_databases w opens try p [] = pure true
add_databases w opens try p (dir ∷ dirs) = do
  flag_phrase w dir p
  if opens try dir then (add_database p dir >> add_databases w opens try p dirs) else pure false

unfoldable pub open_database : World → Opening → ℕ → ℕ → List Bytes → Cmd Proc Bool
unfolding add_databases
open_database w opens try p [] = fault
open_database w opens try p (dir ∷ dirs) =
    if opens try dir
    then (do
      d ← new_db dir
      a ← read_srch p
      write_srch p (record a { db = some d })
      flag_phrase w dir p
      add_databases w opens try p dirs)
    else pure false

-- AUTO_UNLOCK with lock_shared_maybe, and what runs at the end of its block.
abbrev pub OpenLocks : Type 0
OpenLocks = Option (List (Option ℕ))

unfoldable pub lock : Around → ℕ → Req → Cmd Proc OpenLocks
lock a try req s = elim (lock_shared_maybe req.dirv (map (a.lock_file try) req.lockv) s.fds) [
  | stop why ↦ lift (stop why) s
  | ok none ↦ blocked
  | ok (some (lk, fds)) ↦ done lk (record s { fds = fds })
]

unfoldable pub unlock : OpenLocks → Cmd Proc (Unit {0})
unlock lk s = done tt (record s { fds = unlock_ensure lk s.fds })

-- One try, which sets FLAG_PHRASE first.
unfoldable pub try_open : Around → Req → ℕ → ℕ → Cmd Proc Bool
unfolding read_srch write_srch lock open_database unlock
try_open o req p try = do
  a ← read_srch p
  write_srch p (record a { phrase = true })
  lk ← lock o try req
  works ← open_database o.outside.world o.outside.opens try p req.dirv
  unlock lk
  pure works

-- After the first try: the database is deleted and forgotten, and the other handles are freed.
unfoldable pub give_up : ℕ → Cmd Proc (Unit {0})
unfolding read_srch write_srch delete_db renew
give_up p = do
  a ← read_srch p
  delete_db a.db
  write_srch p (record a { db = none })
  renew (some p)

-- The `for` loop of two tries.
unfoldable pub open_both : Around → Req → ℕ → Cmd Proc (Unit {0})
unfolding try_open give_up
open_both o req p = do
  first ← try_open o req p 0
  if first
      then pure tt
      else do give_up p; second ← try_open o req p 1; if second then pure tt else exited 1

-- The part of srch_init that sets up the query parser, for which the database must be there.
unfoldable pub init_parser : World → Req → ℕ → Cmd Proc (Unit {0})
unfolding new_qp read_srch write_srch read_db
init_parser w req p = do
  q ← new_qp (record { parser = parser_of w req.code_search; prefixes = [] })
  a ← read_srch p
  write_srch p (record a { qp = some q })
  read_db a.db
  ps ← lift (srch_init_extra req.qpfxv)
  λ s. done tt (record s {
    qps = put q (record { parser = parser_of w req.code_search; prefixes = ps }) s.qps;
  })

unfoldable pub init_srch : Around → Req → ℕ → Cmd Proc (Unit {0})
unfolding charge open_both init_parser
init_srch o req p = do
  charge o.outside.world (length req.dirv * shard_cost) p
  open_both o req p
  init_parser o.outside.world req p
