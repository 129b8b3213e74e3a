-- ===== src/Memory/Serves.antt =====
-- dispatch of lib/PublicInbox/xap_helper.h, with the memory of its handles.
use public_inbox.Heap.{abort, fault, Cmd, pure, ◌>>=◌, ◌>>◌, lift, Ptr}
use public_inbox.Memory.Opens.{Around, lock, unlock, init_srch}
use public_inbox.Memory.{
  read_srch, new_srch, read_db, read_set, read_qp, Proc, write_set, srch_free,
}
use public_inbox.Args.{Bytes}
use public_inbox.Options.{Req, find_command, same_bytes, Parsed, parse_request}
use public_inbox.Cache.{Handle}
use public_inbox.Dispatch.{current, Answer, cmds, run_timed}
use public_inbox.Base.{◌==◌, if◌then◌else◌, ℕ, Bool, none, some, List, [], ◌∷◌}

-- The pointer in the set whose handle has the key, by srch_eq.
unfoldable pub find_ptr : Bytes → List ℕ → Cmd Proc Ptr
unfolding read_srch
find_ptr ckey [] = pure none
find_ptr ckey (p ∷ ptrs) = do
  a ← read_srch p
  if same_bytes a.ckey ckey then pure (some p) else find_ptr ckey ptrs

-- A handle that is in the set is reopened under the locks.
unfoldable pub reopen : Around → Req → ℕ → Cmd Proc (Unit {0})
unfolding lock unlock read_srch read_db
reopen o req q = do
  lk ← lock o 0 req
  a ← read_srch q
  read_db a.db
  if o.outside.reopen_works then pure tt else abort
  unlock lk

-- dispatch, from the end of its switches to the command. Either way the databases have been opened or
-- reopened for this request, and the command sees them as they are now.
unfoldable pub get_srch : Around → Parsed → Cmd Proc ℕ
unfolding new_srch read_set write_set find_ptr init_srch srch_free reopen
get_srch o (req, ckey) = do
  p ← new_srch ckey
  ptrs ← read_set
  there ← find_ptr ckey ptrs
  elim there [
    | none ↦ do write_set (p ∷ ptrs); init_srch o req p; pure p
    | some q ↦ if q == p then abort else do srch_free p; reopen o req q; pure q
  ]

-- The handle that a command uses, through its pointers.
unfoldable pub handle_at : ℕ → Cmd Proc Handle
unfolding read_srch read_db read_qp
handle_at p = do
  a ← read_srch p
  shards ← read_db a.db
  b ← read_qp a.qp
  pure (record {
    ckey = a.ckey;
    shards = shards;
    phrase = a.phrase;
    parser = b.parser;
    prefixes = b.prefixes;
  })

unfoldable pub dispatch_live : Around → List Bytes → Bool → Cmd Proc Answer
unfolding get_srch handle_at
dispatch_live o [] has_err = fault
dispatch_live o (name ∷ args) has_err = elim (find_command cmds name) [
  | none ↦ abort
  | some cmd ↦
      let (switches, rest) = o.outside.getopt (name ∷ args) in
      do
        p ← lift (parse_request o.outside.libc switches)
        ptr ← get_srch o p
        h ← handle_at ptr
        lift (run_timed o.outside current cmd h p.0 rest has_err)
]
