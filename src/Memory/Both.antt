-- ===== src/Memory/Both.antt =====
-- The two tries of srch_init in lib/PublicInbox/xap_helper.h do with memory what open_tries of Cache does
-- without.
use public_inbox.Memory.Tries.{is_some, opening, OpeningWays, opening_leaves}
use public_inbox.Memory.Layout.{
  Block, srch_cells, db_cells, qp_cells, Place, handles_of, addresses, placed, Ordered, blank,
  blocks, Ordered-below,
}
use public_inbox.Heap.{done, exited, Ptr, and_then-done, ◌>>=◌, ◌>>◌, pure, Cmd}
use public_inbox.Memory.{Proc, delete_db, write_srch, renew}
use public_inbox.Memory.Opens.{give_up, Around, try_open, open_both}
use public_inbox.Options.{Req}
use public_inbox.Args.{Bytes}
use public_inbox.Cache.{Handle, open_shards, srch_cache_renew, open_tries}
use public_inbox.Locks.{Fds}
use public_inbox.Memory.Locked.{Lockable, try_open-opening}
use public_inbox.Heap.Follows.{Shape, Follows, and_run, run_first, bind}
use public_inbox.Memory.Frees.{PidsLive, Held, delete_db-object, renew-blank}
use public_inbox.Memory.Heads.{opened_as, read_srch-head, write_srch-head}
use public_inbox.Base.{
  if◌then◌else◌, All, Run, exits, ok, stop, ℕ, ◌+◌, ◌≤◌, ◌<◌, ◌≡◌, refl, ◌∙◌, Bool, Option, none,
  some, List, [], ◌∷◌, arith,
}

give_up-blank :
    (x : Block) (xs : List Block) (s : Proc) (phrase : Bool) (db : Ptr) (shards : List Bytes)
    → All (λ y. y.at < x.at) xs
    → give_up x.at (placed (opened_as (blank x) phrase db shards ∷ xs) s)
      ≡ done tt (placed (opened_as (blank x) phrase none shards ∷ []) s)
unfolding give_up srch_cells db_cells qp_cells addresses
give_up-blank x xs s phrase db shards h =
    let y = opened_as (blank x) phrase db shards in
    let z = opened_as (blank x) phrase none shards in
    let t = placed (y ∷ xs) s in
    and_then-done
      (λ a. delete_db a.db >> (write_srch x.at (record a { db = none }) >> renew (some x.at)))
      (read_srch-head x.at y.srch (srch_cells xs) t)
    ∙ and_then-done (λ u. write_srch x.at z.srch >> renew (some x.at))
        (delete_db-object db shards (db_cells xs) t)
    ∙ and_then-done (λ u. renew (some x.at))
        (write_srch-head x.at y.srch (srch_cells xs) (record t { dbs = db_cells xs }) z.srch)
    ∙ renew-blank z xs s h

-- What the tries leave for a new handle and those behind it: its database, and handles behind it.
module _ (x : Block) (s : Proc) (dirs : List Bytes) (srch : Handle) where
  pub record Tried (r : Bool × List Handle) : Type 0 where
    pub db : ℕ
    pub later : ℕ
    pub behind : List Place
    pub left : r.1 ≡ srch ∷ handles_of behind
    pub db_ge : s.next ≤ db
    pub db_lt : db < later
    pub ordered : Ordered x.at behind

  abbrev pub tried : Shape Proc (Bool × List Handle) (Unit {0})
  tried = record {
    Ways = Tried;
    gives = λ r w. tt;
    leaves = λ r w.
        placed (opened_as (blank x) r.0 (some w.db) dirs ∷ blocks w.behind)
          (record s { next = w.later });
  }

module _ (o : Around) (req : Req) (fds : Fds) (l : (try : ℕ) → Lockable o req fds try) (x : Block)
    (srch : Handle) where
  second : Option Bool → Run (Bool × List Handle)
  second none = stop (exits 1)
  second (some p) = ok (p, srch_cache_renew (some srch))

  first : List Handle → Option Bool → Run (Bool × List Handle)
  unfolding second
  first hs none = and_run (open_shards o.outside.world o.outside.opens 1 req.dirv) second
  first hs (some p) = ok (p, hs)

  abbrev after_second : Bool → Cmd Proc (Unit {0})
  after_second works = if works then pure tt else exited 1

  abbrev after_first : Bool → Cmd Proc (Unit {0})
  after_first works =
      if works then pure tt else give_up x.at >> (try_open o req x.at 1 >>= after_second)

  second-tried :
      (s : Proc) (n : ℕ) (r : Option Bool)
      (v : OpeningWays (blank x) [] (record s { next = n; fds = fds }) req.dirv r)
      → PidsLive s
      → s.next ≤ n
      → Follows Held (tried x (record s { fds = fds }) req.dirv srch) (second r) (
          after_second
            (is_some r)
            (opening_leaves (blank x) [] (record s { next = n; fds = fds }) req.dirv r v))
  unfolding second srch_cache_renew handles_of blocks Ordered
  second-tried s n none (phrase, db, shards, (k, le)) h l' = (
    placed (opened_as (blank x) phrase db shards ∷ []) (record s { next = k; fds = fds }),
    refl,
    (opened_as (blank x) phrase db shards ∷ [], record s { next = k; fds = fds }, refl, h),
  )
  second-tried s n (some phrase) v h l' = (
    record {
      db = n;
      later = n + 1;
      behind = [];
      left = refl;
      db_ge = l';
      db_lt = omega arith;
      ordered = tt;
    },
    refl,
  )

  first-tried :
      (ps : List Place) (s : Proc) (r : Option Bool)
      (v : OpeningWays (blank x) (blocks ps) (record s { fds = fds }) req.dirv r)
      → PidsLive s
      → Ordered x.at ps
      → Follows Held
          (tried x (record s { fds = fds }) req.dirv srch)
          (first (srch ∷ handles_of ps) r)
          (after_first
            (is_some r)
            (opening_leaves (blank x) (blocks ps) (record s { fds = fds }) req.dirv r v))
  unfolding first
  first-tried ps s none (phrase, db, shards, (n, le)) h p =
      let t : Proc = record s { next = n; fds = fds } in
      let g = tried x (record s { fds = fds }) req.dirv srch in
      let m = open_shards o.outside.world o.outside.opens 1 req.dirv in
      run_first Held g (and_run m second) (λ u. try_open o req x.at 1 >>= after_second)
        (give_up-blank x (blocks ps) t phrase db shards
          (Ordered-below x.at x.at ps p (omega arith)))
        (bind Held (opening (blank x) [] t req.dirv) g m
          (try_open o req x.at 1 (placed (opened_as (blank x) phrase none shards ∷ []) t)) second
          after_second
          (try_open-opening o req 1 fds (l 1) (blank x) [] (record s { next = n }) shards phrase h)
          λ r v. second-tried s n r v h le)
  first-tried ps s (some phrase) v h p = (
    record {
      db = s.next;
      later = s.next + 1;
      behind = ps;
      left = refl;
      db_ge = omega arith;
      db_lt = omega arith;
      ordered = p;
    },
    refl,
  )

  pub open_both-tried :
      (ps : List Place) (s : Proc) (shards : List Bytes) (phrase : Bool)
      → PidsLive s
      → Ordered x.at ps
      → Follows Held
          (tried x (record s { fds = fds }) req.dirv srch)
          (open_tries o.outside.world o.outside.opens req.dirv srch (srch ∷ handles_of ps))
          (open_both o req x.at
            (placed (opened_as (blank x) phrase none shards ∷ blocks ps) (record s { fds = fds })))
  unfolding open_both open_tries first second
  open_both-tried ps s shards phrase h p =
      let t : Proc = record s { fds = fds } in
      let g = tried x t req.dirv srch in
      let m = open_shards o.outside.world o.outside.opens 0 req.dirv in
      let y = opened_as (blank x) phrase none shards in
      bind Held (opening (blank x) (blocks ps) t req.dirv) g m
        (try_open o req x.at 0 (placed (y ∷ blocks ps) t)) (first (srch ∷ handles_of ps))
        after_first (try_open-opening o req 0 fds (l 0) (blank x) (blocks ps) s shards phrase h)
        λ r v. first-tried ps s r v h p
