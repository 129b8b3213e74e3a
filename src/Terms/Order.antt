-- ===== src/Terms/Order.antt =====
-- The order of terms, what skip_to promises of it, and where the terms with a prefix stand.
use public_inbox.Terms.{Skip, starts_with}
use public_inbox.Base.{
  ltb, ◌==◌, All, ◌≡◌, refl, Bool, true, false, ◌&&◌, ◌||◌, List, [], ◌∷◌, ◌++◌, arith,
}
use public_inbox.Args.{Bytes}

-- The order of std::string: byte by byte, a proper prefix first.
unfoldable pub before : Bytes → Bytes → Bool
before [] [] = false
before [] (b ∷ t) = true
before (a ∷ s) [] = false
before (a ∷ s) (b ∷ t) = ltb a b || ((a == b) && before s t)

-- A term list is sorted.
abbrev pub IsSorted : List Bytes → Type 0
IsSorted [] = Unit {0}
IsSorted (t ∷ ts) = All (λ u. before u t ≡ false) ts × IsSorted ts

-- What Xapian documents of skip_to on a sorted list: it leaves out the terms before the given one.
abbrev pub SkipsTo : Skip → Type 0
SkipsTo skip_to =
    (t : Bytes) (ts : List Bytes)
    → IsSorted ts
    → (skipped : List Bytes) × (ts ≡ skipped ++ skip_to t ts)
      × All (λ u. before u t ≡ true) skipped
      × All (λ u. before u t ≡ false) (skip_to t ts)

-- A term before a prefix does not start with it.
pub starts_with-before : (t p : Bytes) → before t p ≡ true → starts_with t p ≡ false
unfolding before starts_with
starts_with-before [] [] h = cc
starts_with-before [] (b ∷ p) h = refl
starts_with-before (a ∷ t) [] h = cc
starts_with-before (a ∷ t) (b ∷ p) h = ground (arith, starts_with-before t p)

-- After a term that is not before a prefix and does not start with it, no term starts with it.
pub starts_with-after :
    (p t u : Bytes)
    → before t p ≡ false
    → starts_with t p ≡ false
    → before u t ≡ false
    → starts_with u p ≡ false
unfolding before starts_with
starts_with-after [] t u h m o = cc
starts_with-after (b ∷ p) [] u h m o = cc
starts_with-after (b ∷ p) (a ∷ t) [] h m o = refl
starts_with-after (b ∷ p) (a ∷ t) (c ∷ u) h m o = ground (arith, starts_with-after p t u)
