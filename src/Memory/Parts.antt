-- ===== src/Memory/Parts.antt =====
-- The budget and the query parser of srch_init in lib/PublicInbox/xap_helper.h.
use public_inbox.Memory.Layout.{
  Block, Place, Ordered, handles_of, placed, blocks, block_of, blank, srch_cells, db_cells,
  Ordered-below, qp_cells, addresses,
}
use public_inbox.Heap.{done, and_then-done, Cmd, put, ◌>>◌, lift, ◌>>=◌, or_invalid}
use public_inbox.Memory.Opens.{charge, init_parser}
use public_inbox.Cache.{
  World, Handle, take_budget, srch_cache_renew, UserPrefix, parser_of, srch_init_extra,
}
use public_inbox.Options.{Req}
use public_inbox.Memory.{Proc, new_qp, read_db, QueryParser, write_srch}
use public_inbox.Heap.Follows.{Shape, Follows, run_first, Follows-map, in_state, Follows-lift}
use public_inbox.Memory.Frees.{renew-blank, PidsLive, Held}
use public_inbox.Memory.Heads.{opened_as, read_srch-head, write_srch-head}
use public_inbox.Heap.Objects.{lookup-head, put-head}
use public_inbox.Base.{
  ltb, Bool-cases, ℕ, ◌+◌, ◌≡◌, refl, ap, inl, inr, Bool, some, List, [], ◌∷◌, arith,
}

-- The budget, and what it leaves behind the new handle.
pub record Charged (w : World) (nfd : ℕ) (srch : Handle) (x : Block) (ps : List Place) (s : Proc)
    : Type 0 where
  pub behind : List Place
  pub total : ℕ
  pub ordered : Ordered x.at behind
  pub charges :
      charge w nfd x.at (placed (blank x ∷ blocks ps) s)
      ≡ done tt (placed (blank x ∷ blocks behind) (record s { shard_nfd = total }))
  pub takes :
      take_budget w nfd srch (record { handles = srch ∷ handles_of ps; shard_nfd = s.shard_nfd })
      ≡ record { handles = srch ∷ handles_of behind; shard_nfd = total }

pub charge-Charged :
    (w : World) (nfd : ℕ) (srch : Handle) (x : Block) (ps : List Place) (s : Proc)
    → Ordered x.at ps
    → Charged w nfd srch x ps s
unfolding charge take_budget srch_cache_renew handles_of blocks Ordered
charge-Charged w nfd srch x ps s h = elim (Bool-cases (ltb w.my_fd_max (s.shard_nfd + nfd))) [
  | inr f ↦ record {
    behind = ps;
    total = s.shard_nfd + nfd;
    ordered = h;
    charges = rw f refl;
    takes = rw f refl;
  }
  | inl t ↦ record {
    behind = [];
    total = nfd;
    ordered = tt;
    charges = rw t (
        and_then-done (λ u v. done tt (record v { shard_nfd = nfd }))
          (renew-blank x (blocks ps) s (Ordered-below x.at x.at ps h (omega arith))));
    takes = rw t refl;
  }
]

-- The handle that srch_init fills in, at its place.
abbrev pub filled_place : Block → World → Req → Bool → ℕ → ℕ → List UserPrefix → Place
filled_place x w req phrase d q ps = record {
  at = x.at;
  db = d;
  qp = q;
  handle = record {
    ckey = x.srch.ckey;
    shards = req.dirv;
    phrase = phrase;
    parser = parser_of w req.code_search;
    prefixes = ps;
  };
}

module _ (x : Block) (w : World) (req : Req) (phrase : Bool) (d : ℕ) (xs : List Block)
    (s : Proc) where
  abbrev pub parsing_shape : Shape Proc (List UserPrefix) (Unit {0})
  parsing_shape = record {
    Ways = λ ps. Unit {0};
    gives = λ ps v. tt;
    leaves = λ ps v.
        placed (block_of (filled_place x w req phrase d s.next ps) ∷ xs)
          (record s { next = s.next + 1 });
  }

  pub init_parser-filled :
      PidsLive s
      → Follows Held parsing_shape
          (srch_init_extra req.qpfxv)
          (init_parser w req x.at (placed (opened_as (blank x) phrase (some d) req.dirv ∷ xs) s))
  unfolding init_parser new_qp read_db srch_cells db_cells qp_cells addresses
  init_parser-filled h =
      let m = srch_init_extra req.qpfxv in
      let y = opened_as (blank x) phrase (some d) req.dirv in
      let none_yet : QueryParser = record { parser = parser_of w req.code_search; prefixes = [] } in
      let b = record y.srch { qp = some s.next } in
      let z : Block = record y { srch = b; parsing = none_yet } in
      let t : Proc = record s { next = s.next + 1 } in
      let u = record (placed (y ∷ xs) t) { qps = (s.next, none_yet) ∷ qp_cells xs } in
      let set_prefixes : List UserPrefix → Cmd Proc (Unit {0}) = λ ps v. done tt (record v {
        qps = put s.next (record { parser = parser_of w req.code_search; prefixes = ps }) v.qps;
      }) in
      run_first Held parsing_shape m
        (λ a.
          write_srch x.at (record a { qp = some s.next })
          >> (read_db a.db >> (lift m >>= set_prefixes)))
        (read_srch-head x.at y.srch (srch_cells xs) u)
        (run_first Held parsing_shape m (λ v. read_db (some d) >> (lift m >>= set_prefixes))
          (write_srch-head x.at y.srch (srch_cells xs) u b)
          (run_first Held parsing_shape m (λ v. lift m >>= set_prefixes)
            (ap (λ o. or_invalid o (placed (z ∷ xs) t)) (lookup-head d req.dirv (db_cells xs)))
            (Follows-map Held (in_state (placed (z ∷ xs) t)) parsing_shape m
              (lift m (placed (z ∷ xs) t)) set_prefixes
              (Follows-lift Held m (placed (z ∷ xs) t) (z ∷ xs, t, refl, h))
              λ ps v. (
                tt,
                ap (λ l. done tt (record (placed (z ∷ xs) t) { qps = l }))
                    (put-head s.next none_yet (record none_yet { prefixes = ps }) (qp_cells xs)),
              ))))
