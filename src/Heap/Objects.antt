-- ===== src/Heap/Objects.antt =====
-- The newest object, and an object behind others.
use public_inbox.Heap.{Live, lookup, put, remove}
use public_inbox.Base.{==_refl, All, ℕ, ◌≡◌, ◌≢◌, some, [], ◌∷◌, ◌++◌, arith}

module _ {A : Type 0} (p : ℕ) where
  pub lookup-head : (a : A) (live : Live A) → lookup p ((p, a) ∷ live) ≡ some a
  unfolding lookup
  lookup-head a live = ground (arith, ==_refl p)

  pub put-head : (a b : A) (live : Live A) → put p b ((p, a) ∷ live) ≡ (p, b) ∷ live
  unfolding put
  put-head a b live = ground (arith, ==_refl p)

  pub remove-head : (a : A) (live : Live A) → remove p ((p, a) ∷ live) ≡ some live
  unfolding remove
  remove-head a live = ground (arith, ==_refl p)

module _ {A : Type 0} (p : ℕ) (a : A) where
  pub lookup-append :
      (front live : Live A)
      → All (λ c. c.0 ≢ p) front
      → lookup p (front ++ ((p, a) ∷ live)) ≡ some a
  unfolding lookup
  lookup-append [] live h = ground arith
  lookup-append (c ∷ front) live h = ground (arith, lookup-append front live h.1)

  pub remove-append :
      (front live : Live A)
      → All (λ c. c.0 ≢ p) front
      → remove p (front ++ ((p, a) ∷ live)) ≡ some (front ++ live)
  unfolding remove
  remove-append [] live h = ground arith
  remove-append (c ∷ front) live h = ground (arith, remove-append front live h.1)
