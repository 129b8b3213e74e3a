-- ===== src/RootIds/Offsets.antt =====
-- The line of root numbers that ends every line of dump_roots.
use public_inbox.RootIds.{root2offs_str, Table, offs_loop, root2id_get}
use public_inbox.Terms.Scan.{matching, All-map, IsSorted-drop, matching-skip, matching-none}
use public_inbox.Terms.{starts_with, Skip}
use public_inbox.Terms.Order.{IsSorted, SkipsTo, before, starts_with-after}
use public_inbox.Base.{
  Bool-cases, drop, All, ok, ◌≡◌, refl, sym, subst, inl, inr, true, false, some, List, [], ◌∷◌,
  ◌++◌, map, append_assoc, arith,
}
use public_inbox.Args.{Bytes, cstr}

-- The table has these numbers for these commit ids.
abbrev pub Finds : Table → List Bytes → List Bytes → Type 0
Finds t ids vs = map (root2id_get t) ids ≡ map (λ v. some (some v)) vs

unfoldable pub spaced : List Bytes → Bytes
spaced [] = 10 ∷ []
spaced (v ∷ vs) = (b' ' ∷ v) ++ spaced vs

matching_cons :
    (t : Bytes) (ts : List Bytes)
    → starts_with t (b'G' ∷ []) ≡ true
    → matching (b'G' ∷ []) 0 (t ∷ ts) ≡ cstr (drop 1 t) ∷ matching (b'G' ∷ []) 0 ts
unfolding matching
matching_cons t ts y = ground (arith, y)

no_roots_left :
    (t : Bytes) (ts : List Bytes)
    → IsSorted (t ∷ ts)
    → before t (b'G' ∷ []) ≡ false
    → starts_with t (b'G' ∷ []) ≡ false
    → matching (b'G' ∷ []) 0 (t ∷ ts) ≡ []
unfolding matching
no_roots_left t ts s h m =
    let later : All (λ u. starts_with u (b'G' ∷ []) ≡ false) ts =
      All-map ts (λ u o. starts_with-after (b'G' ∷ []) t u h m o) s.0 in
    ground (arith, m, matching-none (b'G' ∷ []) 0 ts later)

offs_loop-spaced :
    (tbl : Table) (ts vs : List Bytes) (out : Bytes)
    → IsSorted ts
    → All (λ u. before u (b'G' ∷ []) ≡ false) ts
    → Finds tbl (matching (b'G' ∷ []) 0 ts) vs
    → offs_loop tbl ts out ≡ ok (out ++ spaced vs)
unfolding offs_loop spaced matching
offs_loop-spaced tbl [] [] out s h f = refl
offs_loop-spaced tbl [] (v ∷ vs) out s h f = absurd cc
offs_loop-spaced tbl (t ∷ ts) [] out s h f = elim (Bool-cases (starts_with t (b'G' ∷ []))) [
  | inl y ↦ let g = subst (λ l. Finds tbl l []) (matching_cons t ts y) f in absurd cc
  | inr m ↦ ground (arith, m)
]
offs_loop-spaced tbl (t ∷ ts) (v ∷ vs) out s h f = elim (Bool-cases (starts_with t (b'G' ∷ []))) [
  | inl y ↦
      let g = subst (λ l. Finds tbl l (v ∷ vs)) (matching_cons t ts y) f in
      let found : root2id_get tbl (cstr (drop 1 t)) ≡ some (some v) = cc in
      let rest : Finds tbl (matching (b'G' ∷ []) 0 ts) vs = cc in
      ground (
        arith,
        y,
        found,
        offs_loop-spaced tbl ts vs (out ++ (b' ' ∷ v)) s.1 h.1 rest,
        append_assoc out (b' ' ∷ v) (spaced vs),
      )
  | inr m ↦ let g = subst (λ l. Finds tbl l (v ∷ vs)) (no_roots_left t ts s h.0 m) f in absurd cc
]

-- On a sorted term list of which the table has every commit id behind a "G": root2offs_str writes
-- the numbers of these ids, in order, each after a space, and a newline.
pub root2offs_str-spaced :
    (skip_to : Skip) (tbl : Table) (ts vs : List Bytes)
    → SkipsTo skip_to
    → IsSorted ts
    → Finds tbl (matching (b'G' ∷ []) 0 ts) vs
    → root2offs_str skip_to tbl ts ≡ ok (spaced vs)
unfolding root2offs_str
root2offs_str-spaced skip_to tbl ts vs k s f =
    let (skipped, e, less, more) = k (b'G' ∷ []) ts s in
    offs_loop-spaced tbl (skip_to (b'G' ∷ []) ts) vs []
      (IsSorted-drop skipped (skip_to (b'G' ∷ []) ts) (subst IsSorted e s)) more
      (subst (λ l. Finds tbl l vs) (sym (matching-skip skip_to (b'G' ∷ []) 0 ts k s)) f)
