-- ===== src/Memory/Gets.antt =====
-- dispatch of lib/PublicInbox/xap_helper.h gets with memory the handle that it gets in Cache without.
use public_inbox.Memory.Inits.{Filled, filled, init_srch-filled}
use public_inbox.Memory.Layout.{
  Place, Seen, handles_of, srch_cells, placed, Ordered, blocks, db_cells, Ordered-Seen, Block,
  qp_cells, addresses, Ordered-grow,
}
use public_inbox.Cache.{mail_parser, Handle, Cache, srch_init, new_handle}
use public_inbox.Heap.{done, Ptr, Cmd, ◌>>◌, pure, abort, ◌>>=◌, or_invalid}
use public_inbox.Locks.{Fds}
use public_inbox.Memory.{Proc, write_set, srch_free, read_srch, read_db}
use public_inbox.Memory.Opens.{Around, init_srch, OpenLocks, unlock}
use public_inbox.Options.{Req}
use public_inbox.Heap.Follows.{Shape, Follows, and_run, in_state, Follows-map, run_first, bind}
use public_inbox.Args.{Bytes}
use public_inbox.Memory.Locked.{Lockable, lock-Lockable, unlock-Lockable}
use public_inbox.Memory.Serves.{reopen}
use public_inbox.Memory.Frees.{PidsLive, Held, srch_free-block}
use public_inbox.Base.{
  ◌==◌, if◌then◌else◌, Bool-cases, Run, aborts, ok, stop, ℕ, ◌+◌, ◌<◌, ◌≡◌, refl, sym, ap, inl, inr,
  false, Option, none, some, List, [], ◌∷◌, arith,
}

-- The handles of the set are these places, and the state is otherwise this one.
pub record Remembers (fds : Fds) (c : Cache) (ps : List Place) (s : Proc) : Type 0 where
  pub handles : c.handles ≡ handles_of ps
  pub counted : c.shard_nfd ≡ s.shard_nfd
  pub ordered : Ordered s.next ps
  pub pids : PidsLive s
  pub same_fds : s.fds ≡ fds

abbrev pub SeenIn : List Place → Proc → Place → Type 0
SeenIn ps s = Seen s.next (srch_cells (blocks ps)) (db_cells (blocks ps)) (qp_cells (blocks ps))

-- The pointer leads to the handle.
pub record Gotten (fds : Fds) (r : Handle × Cache) : Type 0 where
  pub place : Place
  pub places : List Place
  pub rest : Proc
  pub means : place.handle ≡ r.0
  pub seen : SeenIn places rest place
  pub remembers : Remembers fds r.1 places rest

abbrev pub gotten : Fds → Shape Proc (Handle × Cache) ℕ
gotten fds = record {
  Ways = Gotten fds;
  gives = λ r w. w.place.at;
  leaves = λ r w. placed (blocks w.places) w.rest;
}

Filled-Gotten :
    (at : ℕ) (fds : Fds) (r : Handle × Cache) (w : Filled at fds r)
    → (v : Gotten fds r) × (done at (placed (blocks (w.place ∷ w.behind)) w.rest)
        ≡ done v.place.at (placed (blocks v.places) v.rest))
Filled-Gotten at fds r w =
    let all = w.place ∷ w.behind in
    (
      record {
        place = w.place;
        places = all;
        rest = w.rest;
        means = w.means;
        seen = (Ordered-Seen w.rest.next all w.ordered).0;
        remembers = record {
          handles = w.handles;
          counted = w.counted;
          ordered = w.ordered;
          pids = w.pids;
          same_fds = w.same_fds;
        };
      },
      ap (λ p. done p (placed (blocks all) w.rest)) (sym w.there),
    )

seen_later : (a n : ℕ) → a < n → a < n + 1
seen_later a n h = omega arith

module _ (o : Around) (req : Req) (ckey : Bytes) (fds : Fds)
    (l : (try : ℕ) → Lockable o req fds try) where
  unfoldable pub new_block : ℕ → Block
  new_block n = record {
    at = n;
    srch = record { ckey = ckey; phrase = false; db = none; qp = none };
    shards = [];
    parsing = record { parser = mail_parser; prefixes = [] };
  }

  -- Before it is in the set.
  abbrev pub placed_new : List Place → Proc → Proc
  placed_new ps s = record (placed (blocks ps) (record s { next = s.next + 1; fds = fds })) {
    srchs = srch_cells (new_block s.next ∷ blocks ps);
  }

  reopen-Seen :
      (p : Place) (ps : List Place) (s : Proc)
      → SeenIn ps s p
      → Follows Held
          (in_state (placed (blocks ps) (record s { fds = fds })))
          (if o.outside.reopen_works then ok tt else stop aborts)
          (reopen o req p.at (placed (blocks ps) (record s { fds = fds })))
  unfolding reopen read_srch read_db
  reopen-Seen p ps s h =
      let t = placed (blocks ps) (record s { fds = fds }) in
      let u = placed (blocks ps) (record s { fds = (l 0).within }) in
      let g : Shape Proc (Unit {0}) (Unit {0}) = in_state t in
      let m : Run (Unit {0}) = if o.outside.reopen_works then ok tt else stop aborts in
      let works : Cmd Proc (Unit {0}) = if o.outside.reopen_works then pure tt else abort in
      let end : OpenLocks → Cmd Proc (Unit {0}) = λ lk. works >> unlock lk in
      run_first Held g m (λ lk. read_srch p.at >>= λ a. read_db a.db >> end lk)
        (lock-Lockable o req 0 fds (l 0) t)
        (run_first Held g m (λ a. read_db a.db >> end (l 0).taken)
          (ap (λ x. or_invalid x u) h.sees_srch)
          (run_first Held g m (λ a. end (l 0).taken) (ap (λ x. or_invalid x u) h.sees_db)
            (elim (Bool-cases o.outside.reopen_works) [
              | inl y ↦ rw y (tt, unlock-Lockable o req 0 fds (l 0) t)
              | inr n ↦ rw n refl
            ])))

  -- What is done with what is found.
  abbrev pub on_found : ℕ → List ℕ → Ptr → Cmd Proc ℕ
  on_found p ptrs there = elim there [
    | none ↦ write_set (p ∷ ptrs) >> (init_srch o req p >> pure p)
    | some q ↦ if q == p then abort else srch_free p >> (reopen o req q >> pure q)
  ]

  unfoldable pub spec_found : List Place → ℕ → Option Handle → Run (Handle × Cache)
  spec_found ps n none =
      srch_init o.outside.world o.outside.opens req (new_handle ckey)
        (record { handles = new_handle ckey ∷ handles_of ps; shard_nfd = n })
  spec_found ps n (some h) =
      and_run (if o.outside.reopen_works then ok tt else stop aborts)
        (λ u. ok (h, record { handles = handles_of ps; shard_nfd = n }))

  -- A new handle is opened.
  pub absent-gotten :
      (ps : List Place) (s : Proc)
      → PidsLive s
      → Ordered s.next ps
      → Follows Held
          (gotten fds)
          (spec_found ps s.shard_nfd none)
          (on_found s.next (addresses (blocks ps)) none (placed_new ps s))
  unfolding spec_found new_block write_set srch_cells db_cells qp_cells addresses
  absent-gotten ps s h p =
      let x = new_block s.next in
      let t : Proc = record s { next = s.next + 1; fds = fds } in
      let c : Cache = record {
        handles = new_handle ckey ∷ handles_of ps;
        shard_nfd = s.shard_nfd;
      } in
      let m = srch_init o.outside.world o.outside.opens req (new_handle ckey) c in
      Follows-map Held (filled s.next fds) (gotten fds) m
        (init_srch o req s.next (placed (x ∷ blocks ps) t)) (λ u. pure s.next)
        (init_srch-filled o req fds l x (new_handle ckey) ps t h refl refl (omega arith) p)
        (Filled-Gotten s.next fds)

  -- The handle of the set is reopened, and the new one freed.
  pub present-gotten :
      (ps : List Place) (s : Proc) (p : Place)
      → PidsLive s
      → Ordered s.next ps
      → SeenIn ps s p
      → Follows Held
          (gotten fds)
          (spec_found ps s.shard_nfd (some p.handle))
          (on_found s.next (addresses (blocks ps)) (some p.at) (placed_new ps s))
  unfolding spec_found new_block srch_cells db_cells qp_cells
  present-gotten ps s p h q e =
      let t : Proc = record s { next = s.next + 1; fds = fds } in
      let c : Cache = record { handles = handles_of ps; shard_nfd = s.shard_nfd } in
      let lt : p.at < s.next = e.at_lt in
      let ne : (p.at == s.next) ≡ false = ground arith in
      let e' : SeenIn ps t p = record {
        at_lt = omega arith;
        db_lt = seen_later p.db s.next e.db_lt;
        qp_lt = seen_later p.qp s.next e.qp_lt;
        sees_srch = e.sees_srch;
        sees_db = e.sees_db;
        sees_qp = e.sees_qp;
      } in
      let m = spec_found ps s.shard_nfd (some p.handle) in
      let works : Run (Unit {0}) = if o.outside.reopen_works then ok tt else stop aborts in
      let got : Gotten fds (p.handle, c) = record {
        place = p;
        places = ps;
        rest = t;
        means = refl;
        seen = e';
        remembers = record {
          handles = refl;
          counted = refl;
          ordered = Ordered-grow s.next (s.next + 1) ps q (omega arith);
          pids = h;
          same_fds = refl;
        };
      } in
      rw ne (
        run_first Held (gotten fds) m (λ u. reopen o req p.at >> pure p.at)
          (srch_free-block (new_block s.next) [] (blocks ps)
            (record t { srch_cache = some (addresses (blocks ps)) }) tt)
          (bind Held (in_state (placed (blocks ps) t)) (gotten fds) works
            (reopen o req p.at (placed (blocks ps) t)) (λ u. ok (p.handle, c)) (λ u. pure p.at)
            (reopen-Seen p ps (record s { next = s.next + 1 }) e') λ r w. (got, refl)))
