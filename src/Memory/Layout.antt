-- ===== src/Memory/Layout.antt =====
-- The handles of lib/PublicInbox/xap_helper.h in memory: the set and the live objects are those of a
-- list of blocks, and nothing else is live.
use public_inbox.Heap.{Ptr, Live, lookup}
use public_inbox.Memory.{Srch, QueryParser, Proc}
use public_inbox.Args.{Bytes}
use public_inbox.Cache.{Handle}
use public_inbox.Base.{==_refl, All, ℕ, ◌≤◌, ◌<◌, ◌≡◌, none, some, List, [], ◌∷◌, arith}

-- A struct srch at its address with the objects that it points to, which count only where it does.
pub record Block : Type 0 where
  pub at : ℕ
  pub srch : Srch
  pub shards : List Bytes
  pub parsing : QueryParser

-- A handle before srch_init opens anything.
abbrev pub blank : Block → Block
blank x = record x { srch = record x.srch { db = none; qp = none } }

abbrev pub with_object : {A : Type 0} → Ptr → A → Live A → Live A
with_object none a live = live
with_object (some p) a live = (p, a) ∷ live

unfoldable pub addresses : List Block → List ℕ
addresses [] = []
addresses (x ∷ xs) = x.at ∷ addresses xs

unfoldable pub srch_cells : List Block → Live Srch
srch_cells [] = []
srch_cells (x ∷ xs) = (x.at, x.srch) ∷ srch_cells xs

unfoldable pub db_cells : List Block → Live (List Bytes)
db_cells [] = []
db_cells (x ∷ xs) = with_object x.srch.db x.shards (db_cells xs)

unfoldable pub qp_cells : List Block → Live QueryParser
qp_cells [] = []
qp_cells (x ∷ xs) = with_object x.srch.qp x.parsing (qp_cells xs)

-- The process whose set and live handles are these blocks.
abbrev pub placed : List Block → Proc → Proc
placed xs s = record s {
  srchs = srch_cells xs;
  dbs = db_cells xs;
  qps = qp_cells xs;
  srch_cache = some (addresses xs);
}

-- A handle that is open: its address, those of its objects, and what it means.
pub record Place : Type 0 where
  pub at : ℕ
  pub db : ℕ
  pub qp : ℕ
  pub handle : Handle

abbrev pub block_of : Place → Block
block_of p = record {
  at = p.at;
  srch = record { ckey = p.handle.ckey; phrase = p.handle.phrase; db = some p.db; qp = some p.qp };
  shards = p.handle.shards;
  parsing = record { parser = p.handle.parser; prefixes = p.handle.prefixes };
}

unfoldable pub blocks : List Place → List Block
blocks [] = []
blocks (p ∷ ps) = block_of p ∷ blocks ps

unfoldable pub handles_of : List Place → List Handle
handles_of [] = []
handles_of (p ∷ ps) = p.handle ∷ handles_of ps

-- Each handle and its objects are newer than those behind it, and older than the next address.
unfoldable pub Ordered : ℕ → List Place → Type 0
Ordered next [] = Unit
Ordered next (p ∷ ps) =
    (p.at < p.db) × (p.db < next) × (p.at < p.qp) × (p.qp < next) × Ordered p.at ps

pub Ordered-below :
    (n m : ℕ) (ps : List Place) → Ordered n ps → n ≤ m → All (λ x. x.at < m) (blocks ps)
unfolding Ordered blocks
Ordered-below n m [] h l = tt
Ordered-below n m (p ∷ ps) h l =
    let a : p.at < p.db = h.0 in
    let b : p.db < n = h.1 in (omega arith, Ordered-below p.at m ps h.4 (omega arith))

pub Ordered-grow : (n m : ℕ) (ps : List Place) → Ordered n ps → n ≤ m → Ordered m ps
unfolding Ordered
Ordered-grow n m [] h l = tt
Ordered-grow n m (p ∷ ps) h l =
    let b : p.db < n = h.1 in let d : p.qp < n = h.3 in (h.0, omega arith, h.2, omega arith, h.4)

-- Each pointer of a handle leads to what it means.
pub record Seen (n : ℕ) (srchs : Live Srch) (dbs : Live (List Bytes)) (qps : Live QueryParser)
    (p : Place) : Type 0 where
  pub at_lt : p.at < n
  pub db_lt : p.db < n
  pub qp_lt : p.qp < n
  pub sees_srch : lookup p.at srchs ≡ some (block_of p).srch
  pub sees_db : lookup p.db dbs ≡ some p.handle.shards
  pub sees_qp : lookup p.qp qps ≡ some (block_of p).parsing

module _ (n : ℕ) (x : Place) (lo : x.at < x.db) (db : x.db < n) (lo' : x.at < x.qp) (qp : x.qp < n)
    (srchs : Live Srch) (dbs : Live (List Bytes)) (qps : Live QueryParser) where
  Seen-behind :
      (ps : List Place)
      → All (Seen x.at srchs dbs qps) ps
      → All
          (Seen n
            ((x.at, (block_of x).srch) ∷ srchs)
            ((x.db, x.handle.shards) ∷ dbs)
            ((x.qp, (block_of x).parsing) ∷ qps))
          ps
  unfolding lookup
  Seen-behind [] h = tt
  Seen-behind (p ∷ ps) h =
      let s = h.0 in
      let a : p.at < x.at = s.at_lt in
      let b : p.db < x.at = s.db_lt in
      let c : p.qp < x.at = s.qp_lt in
      (
        record {
          at_lt = omega arith;
          db_lt = omega arith;
          qp_lt = omega arith;
          sees_srch = ground (arith, s.sees_srch);
          sees_db = ground (arith, s.sees_db);
          sees_qp = ground (arith, s.sees_qp);
        },
        Seen-behind ps h.1,
      )

pub Ordered-Seen :
    (n : ℕ) (ps : List Place)
    → Ordered n ps
    → All (Seen n (srch_cells (blocks ps)) (db_cells (blocks ps)) (qp_cells (blocks ps))) ps
unfolding Ordered blocks srch_cells db_cells qp_cells lookup
Ordered-Seen n [] h = tt
Ordered-Seen n (p ∷ ps) h =
    let a : p.at < p.db = h.0 in
    let b : p.db < n = h.1 in
    (
      record {
        at_lt = omega arith;
        db_lt = b;
        qp_lt = h.3;
        sees_srch = rw (lookup, ==_refl p.at);
        sees_db = rw (lookup, ==_refl p.db);
        sees_qp = rw (lookup, ==_refl p.qp);
      },
      Seen-behind n p h.0 h.1 h.2 h.3 (srch_cells (blocks ps)) (db_cells (blocks ps))
          (qp_cells (blocks ps)) ps (Ordered-Seen p.at ps h.4),
    )
