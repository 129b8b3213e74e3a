-- ===== src/Terms/Tests.antt =====
-- Scans of a concrete term list, with a skip_to that leaves out terms one by one.
use public_inbox.Terms.Order.{SkipsTo, before, IsSorted}
use public_inbox.Terms.{Skip}
use public_inbox.Base.{
  if◌then◌else◌, Bool-cases, All, ◌≡◌, refl, ap, inl, inr, false, List, [], ◌∷◌, arith,
}
use public_inbox.Args.{Bytes}

pub skip_terms : Skip
skip_terms t [] = []
skip_terms t (u ∷ ts) = if before u t then skip_terms t ts else u ∷ ts

before_trans : (t u w : Bytes) → before u t ≡ false → before w u ≡ false → before w t ≡ false
unfolding before
before_trans [] u [] h k = refl
before_trans [] [] (c ∷ w) h k = refl
before_trans [] (b ∷ u) (c ∷ w) h k = refl
before_trans (a ∷ t) [] w h k = cc
before_trans (a ∷ t) (b ∷ u) [] h k = cc
before_trans (a ∷ t) (b ∷ u) (c ∷ w) h k = ground (arith, before_trans t u w)

later_terms :
    (t u : Bytes) (ts : List Bytes)
    → before u t ≡ false
    → All (λ w. before w u ≡ false) ts
    → All (λ w. before w t ≡ false) ts
later_terms t u [] h a = tt
later_terms t u (w ∷ ts) h a = (before_trans t u w h a.0, later_terms t u ts h a.1)

pub skip_terms-SkipsTo : SkipsTo skip_terms
unfolding skip_terms
skip_terms-SkipsTo t [] s = ([], refl, tt, tt)
skip_terms-SkipsTo t (u ∷ ts) s =
    let (skipped, e, less, more) = skip_terms-SkipsTo t ts s.1 in
    elim (Bool-cases (before u t)) [
      | inl b ↦ rw b (u ∷ skipped, ap (◌∷◌ u) e, (b, less), more)
      | inr b ↦ rw b ([], refl, tt, (b, later_terms t u ts b s.0))
    ]

-- "Ga", "Qb", "Qcd", "T"
abbrev pub some_terms : List Bytes
some_terms = (71 ∷ 97 ∷ []) ∷ (81 ∷ 98 ∷ []) ∷ (81 ∷ 99 ∷ 100 ∷ []) ∷ (84 ∷ []) ∷ []

pub some_terms-IsSorted : IsSorted some_terms
unfolding before
some_terms-IsSorted = ((refl, (refl, (refl, tt))), ((refl, (refl, tt)), ((refl, tt), (tt, tt))))
