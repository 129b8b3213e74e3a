-- ===== src/Memory/Locked.antt =====
-- srch_init and dispatch of lib/PublicInbox/xap_helper.h hold the locks only while they open or reopen
-- a database.
use public_inbox.Memory.Tries.{is_some, opening, OpeningWays, opening_leaves, open_database-opening}
use public_inbox.Memory.Layout.{Block, srch_cells, db_cells, qp_cells, addresses, placed}
use public_inbox.Heap.{done, ◌>>◌, pure, and_then-done, Cmd, ◌>>=◌}
use public_inbox.Memory.Opens.{Around, try_open, unlock, lock, OpenLocks, open_database}
use public_inbox.Options.{Req}
use public_inbox.Locks.{Fds, lock_shared_maybe}
use public_inbox.Memory.{Proc, write_srch}
use public_inbox.Locks.Balance.{OpensFresh, unlock_ensure-lock_shared_maybe}
use public_inbox.Args.{Bytes}
use public_inbox.Memory.Heads.{opened_as, read_srch-head, write_srch-head}
use public_inbox.Memory.Frees.{PidsLive, Held}
use public_inbox.Heap.Follows.{Follows, run_first, Follows-map}
use public_inbox.Cache.{open_shards}
use public_inbox.Base.{ok, ℕ, ◌+◌, ◌≡◌, ap, Bool, true, false, Option, none, some, List, ◌∷◌, map}

-- What lock_shared_maybe gets for a request comes back, and flock returns.
pub record Lockable (a : Around) (req : Req) (fds : Fds) (try : ℕ) : Type 0 where
  pub fresh_fds : OpensFresh (map (a.lock_file try) req.lockv) fds
  pub taken : OpenLocks
  pub within : Fds
  pub locks :
      lock_shared_maybe req.dirv (map (a.lock_file try) req.lockv) fds ≡ ok (some (taken, within))

module _ (o : Around) (req : Req) (try : ℕ) (fds : Fds) (l : Lockable o req fds try) where
  pub lock-Lockable :
      (s : Proc)
      → lock o try req (record s { fds = fds }) ≡ done l.taken (record s { fds = l.within })
  unfolding lock
  lock-Lockable s = rw (lock, l.locks)

  pub unlock-Lockable :
      (s : Proc) → unlock l.taken (record s { fds = l.within }) ≡ done tt (record s { fds = fds })
  unfolding unlock
  unlock-Lockable s =
      ap (λ x. done tt (record s { fds = x }))
        (unlock_ensure-lock_shared_maybe req.dirv (map (o.lock_file try) req.lockv) fds l.within
          l.taken l.fresh_fds l.locks)

  unlock-opening :
      (x : Block) (xs : List Block) (s : Proc) (r : Option Bool)
      (v : OpeningWays x xs (record s { fds = l.within }) req.dirv r)
      → (u : OpeningWays x xs (record s { fds = fds }) req.dirv r) × ((unlock l.taken
              >> pure (is_some r))
            (opening_leaves x xs (record s { fds = l.within }) req.dirv r v)
          ≡ done (is_some r) (opening_leaves x xs (record s { fds = fds }) req.dirv r u))
  unlock-opening x xs s none (phrase, db, shards, (n, le)) = (
    (phrase, db, shards, (n, le)),
    and_then-done (λ t. pure false)
        (unlock-Lockable (placed (opened_as x phrase db shards ∷ xs) (record s { next = n }))),
  )
  unlock-opening x xs s (some phrase) v = (
    tt,
    and_then-done (λ t. pure true)
        (unlock-Lockable (
          placed (opened_as x phrase (some s.next) req.dirv ∷ xs)
            (record s { next = s.next + 1 }))),
  )

  pub try_open-opening :
      (x : Block) (xs : List Block) (s : Proc) (shards : List Bytes) (phrase : Bool)
      → PidsLive s
      → Follows Held
          (opening x xs (record s { fds = fds }) req.dirv)
          (open_shards o.outside.world o.outside.opens try req.dirv)
          (try_open o req x.at try
            (placed (opened_as x phrase none shards ∷ xs) (record s { fds = fds })))
  unfolding try_open srch_cells db_cells qp_cells addresses
  try_open-opening x xs s shards phrase h =
      let w = o.outside.world in
      let m = open_shards w o.outside.opens try req.dirv in
      let y = opened_as x phrase none shards in
      let z = opened_as x true none shards in
      let t : Proc = record s { fds = fds } in
      let u : Proc = record s { fds = l.within } in
      let g = opening x xs t req.dirv in
      let opens = open_database w o.outside.opens try x.at req.dirv in
      let close : OpenLocks → Cmd Proc Bool = λ lk. opens >>= λ works. unlock lk >> pure works in
      run_first Held g m
        (λ a. write_srch x.at (record a { phrase = true }) >> (lock o try req >>= close))
        (read_srch-head x.at y.srch (srch_cells xs) (placed (y ∷ xs) t))
        (run_first Held g m (λ v. lock o try req >>= close)
          (write_srch-head x.at y.srch (srch_cells xs) (placed (y ∷ xs) t) z.srch)
          (run_first Held g m close (lock-Lockable (placed (z ∷ xs) t)) (
            Follows-map Held (opening x xs u req.dirv) g m (opens (placed (z ∷ xs) u))
              (λ works. unlock l.taken >> pure works)
              (open_database-opening w o.outside.opens try x xs u req.dirv shards h)
              (unlock-opening x xs s))))
