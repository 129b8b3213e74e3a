-- ===== src/Memory/Inits.antt =====
-- srch_init of lib/PublicInbox/xap_helper.h does with memory what srch_init of Cache does without.
use public_inbox.Memory.Layout.{Block, Place, Ordered, handles_of, blocks, placed, block_of, blank}
use public_inbox.Heap.{done, ◌>>◌}
use public_inbox.Memory.Opens.{init_parser, Around, init_srch, open_both}
use public_inbox.Cache.{
  Handle, UserPrefix, parser_of, srch_init_extra, Cache, srch_init, shard_cost, open_tries,
}
use public_inbox.Options.{Req}
use public_inbox.Memory.{Proc}
use public_inbox.Heap.Follows.{Shape, Follows, run_first, and_run, bind, Follows-and_run}
use public_inbox.Memory.Frees.{PidsLive, Held}
use public_inbox.Locks.{Fds}
use public_inbox.Memory.Locked.{Lockable}
use public_inbox.Memory.Both.{Tried, tried, open_both-tried}
use public_inbox.Args.{Bytes}
use public_inbox.Memory.Parts.{charge-Charged, parsing_shape, filled_place, init_parser-filled}
use public_inbox.Base.{
  length, drop, Run, ok, ℕ, ◌+◌, ◌*◌, ◌≤◌, ◌<◌, ◌≡◌, refl, sym, ap, ap₂, subst, Bool, List, ◌∷◌,
  arith,
}

-- What srch_init leaves: the new handle in front, which means what the function without memory gives.
pub record Filled (at : ℕ) (fds : Fds) (r : Handle × Cache) : Type 0 where
  pub place : Place
  pub behind : List Place
  pub rest : Proc
  pub there : place.at ≡ at
  pub means : place.handle ≡ r.0
  pub handles : r.1.handles ≡ handles_of (place ∷ behind)
  pub counted : r.1.shard_nfd ≡ rest.shard_nfd
  pub ordered : Ordered rest.next (place ∷ behind)
  pub pids : PidsLive rest
  pub same_fds : rest.fds ≡ fds

abbrev pub filled : ℕ → Fds → Shape Proc (Handle × Cache) (Unit {0})
filled at fds = record {
  Ways = Filled at fds;
  gives = λ r w. tt;
  leaves = λ r w. placed (blocks (w.place ∷ w.behind)) w.rest;
}

module _ (o : Around) (req : Req) (fds : Fds) (l : (try : ℕ) → Lockable o req fds try) (x : Block)
    (srch : Handle) where
  prefixed : ℕ → Bool × List Handle → List UserPrefix → Run (Handle × Cache)
  prefixed n both ps =
      let srch' : Handle = record srch {
        shards = req.dirv;
        phrase = both.0;
        parser = parser_of o.outside.world req.code_search;
        prefixes = ps;
      } in
      ok (srch', record { handles = srch' ∷ drop 1 both.1; shard_nfd = n })

  module _ (s : Proc) (h : PidsLive s) (k : srch.ckey ≡ x.srch.ckey) (lt : x.at < s.next) where
    prefixed-filled :
        (r : Bool × List Handle) (v : Tried x (record s { fds = fds }) req.dirv srch r)
        (ps : List UserPrefix)
        → Follows Held (filled x.at fds) (prefixed s.shard_nfd r ps) (
            done tt (
              placed
                (block_of (filled_place x o.outside.world req r.0 v.db v.later ps)
                  ∷ blocks v.behind)
                (record s { next = v.later + 1; fds = fds })))
    unfolding prefixed blocks handles_of Ordered
    prefixed-filled r v ps =
        let a : s.next ≤ v.db = v.db_ge in
        let b : v.db < v.later = v.db_lt in
        let p = filled_place x o.outside.world req r.0 v.db v.later ps in
        let named : Handle → Bytes → Handle = λ g key. record g { ckey = key } in
        (
          record {
            place = p;
            behind = v.behind;
            rest = record s { next = v.later + 1; fds = fds };
            there = refl;
            means = ap (named p.handle) (sym k);
            handles = ap₂ (λ key t. named p.handle key ∷ drop 1 t) k v.left;
            counted = refl;
            ordered = (omega arith, omega arith, omega arith, omega arith, v.ordered);
            pids = h;
            same_fds = refl;
          },
          refl,
        )

    opened-filled :
        (ps : List Place)
        → Ordered x.at ps
        → Follows Held
            (filled x.at fds)
            (and_run
              (open_tries o.outside.world o.outside.opens req.dirv srch (srch ∷ handles_of ps))
              (λ both. and_run (srch_init_extra req.qpfxv) (prefixed s.shard_nfd both)))
            ((open_both o req x.at >> init_parser o.outside.world req x.at)
              (placed (blank x ∷ blocks ps) (record s { fds = fds })))
    opened-filled ps p =
        let w = o.outside.world in
        let t : Proc = record s { fds = fds } in
        bind Held (tried x t req.dirv srch) (filled x.at fds)
          (open_tries w o.outside.opens req.dirv srch (srch ∷ handles_of ps))
          (open_both o req x.at (placed (blank x ∷ blocks ps) t))
          (λ both. and_run (srch_init_extra req.qpfxv) (prefixed s.shard_nfd both))
          (λ u. init_parser w req x.at)
          (open_both-tried o req fds l x srch ps s x.shards x.srch.phrase h p)
          λ r v.
            Follows-and_run Held
              (parsing_shape x w req r.0 v.db (blocks v.behind) (record t { next = v.later }))
              (filled x.at fds) (srch_init_extra req.qpfxv) _ (prefixed s.shard_nfd r)
              (init_parser-filled x w req r.0 v.db (blocks v.behind) (record t { next = v.later })
                h)
              λ ps u. prefixed-filled r v ps

  pub init_srch-filled :
      (ps : List Place) (s : Proc)
      → PidsLive s
      → s.fds ≡ fds
      → srch.ckey ≡ x.srch.ckey
      → x.at < s.next
      → Ordered x.at ps
      → Follows Held
          (filled x.at fds)
          (srch_init o.outside.world o.outside.opens req srch
            (record { handles = srch ∷ handles_of ps; shard_nfd = s.shard_nfd }))
          (init_srch o req x.at (placed (blank x ∷ blocks ps) s))
  unfolding init_srch srch_init prefixed
  init_srch-filled ps s h f k lt p =
      let w = o.outside.world in
      let nfd = length req.dirv * shard_cost in
      let c = charge-Charged w nfd srch x ps s p in
      let t : Proc = record s { shard_nfd = c.total; fds = fds } in
      let spec : Cache → Run (Handle × Cache) = λ b.
        and_run (open_tries w o.outside.opens req.dirv srch b.handles)
          (λ both. and_run (srch_init_extra req.qpfxv) (prefixed b.shard_nfd both)) in
      let m = spec (record { handles = srch ∷ handles_of c.behind; shard_nfd = c.total }) in
      subst
        (λ b.
          Follows Held (filled x.at fds) (spec b)
            (init_srch o req x.at (placed (blank x ∷ blocks ps) s)))
        (sym c.takes)
        (run_first Held (filled x.at fds) m (λ u. open_both o req x.at >> init_parser w req x.at)
          c.charges
          (subst
            (λ g. Follows Held (filled x.at fds) m (
              (open_both o req x.at >> init_parser w req x.at)
                (placed (blank x ∷ blocks c.behind) (record s { shard_nfd = c.total; fds = g }))))
            (sym f) (opened-filled t h k lt c.behind c.ordered)))
