-- ===== src/Heap/Follows.antt =====
-- A command that does with memory what a function without it does: it ends the same way, and where
-- it gives a value, the value and the state are among those that a shape has for the function's.
use public_inbox.Heap.{Outcome, Cmd, done, exited, killed, invalid, and_then, lift}
use public_inbox.Base.{
  Run, ◌>>=◌, ◌>>◌, aborts, exits, faults, ok, stop, ◌≡◌, refl, sym, ap, subst, ◌∙◌,
}

pub record Shape (S R A : Type 0) : Type 1 where
  pub Ways : R → Type 0
  pub gives : (r : R) → Ways r → A
  pub leaves : (r : R) → Ways r → S

-- The chain of functions without memory, beside that of commands.
abbrev pub and_run : {R R' : Type 0} → Run R → (R → Run R') → Run R'
and_run m next = m >>= next

abbrev pub then_run : {R R' : Type 0} → Run R → Run R' → Run R'
then_run m next = m >> next

-- `Q` holds of the state that exit's handlers find.
abbrev pub Follows : {S R A : Type 0} → (S → Type 0) → Shape S R A → Run R → Outcome S A → Type 0
Follows Q f (ok r) o = (w : f.Ways r) × (o ≡ done (f.gives r w) (f.leaves r w))
Follows {S} Q f (stop (exits code)) o = (s : S) × (o ≡ exited code s) × Q s
Follows Q f (stop aborts) o = o ≡ killed
Follows Q f (stop faults) o = o ≡ invalid

-- The value itself, and one state.
abbrev pub in_state : {S A : Type 0} → S → Shape S A A
in_state s = record { Ways = λ a. Unit {0}; gives = λ a w. a; leaves = λ a w. s }

module _ {S : Type 0} (Q : S → Type 0) where
  pub bind :
      {R A R' B : Type 0} (f : Shape S R A) (g : Shape S R' B) (m : Run R) (o : Outcome S A)
      (next : R → Run R') (k : A → Cmd S B)
      → Follows Q f m o
      → ((r : R) (w : f.Ways r) → Follows Q g (next r) (k (f.gives r w) (f.leaves r w)))
      → Follows Q g (m >>= next) (and_then o k)
  bind f g (ok r) o next k (w, e) h =
      subst (Follows Q g (next r)) (sym (ap (λ x. and_then x k) e)) (h r w)
  bind f g (stop (exits code)) o next k (s, e, q) h = (s, ap (λ x. and_then x k) e, q)
  bind f g (stop aborts) o next k e h = ap (λ x. and_then x k) e
  bind f g (stop faults) o next k e h = ap (λ x. and_then x k) e

  -- What does not use the state.
  pub Follows-lift : {A : Type 0} (m : Run A) (s : S) → Q s → Follows Q (in_state s) m (lift m s)
  unfolding lift
  Follows-lift (ok a) s q = (tt, refl)
  Follows-lift (stop (exits code)) s q = (s, refl, q)
  Follows-lift (stop aborts) s q = refl
  Follows-lift (stop faults) s q = refl

  pub bind-lift :
      {R R' B : Type 0} (g : Shape S R' B) (m : Run R) (s : S) (next : R → Run R') (k : R → Cmd S B)
      → Q s
      → ((r : R) → m ≡ ok r → Follows Q g (next r) (k r s))
      → Follows Q g (and_run m next) (and_then (lift m s) k)
  unfolding lift
  bind-lift g (ok r) s next k q h = h r refl
  bind-lift g (stop (exits code)) s next k q h = (s, refl, q)
  bind-lift g (stop aborts) s next k q h = refl
  bind-lift g (stop faults) s next k q h = refl

  -- Commands behind it that always work.
  pub Follows-map :
      {R A B : Type 0} (f : Shape S R A) (g : Shape S R B) (m : Run R) (o : Outcome S A)
      (k : A → Cmd S B)
      → Follows Q f m o
      → ((r : R) (w : f.Ways r)
          → (v : g.Ways r) × (k (f.gives r w) (f.leaves r w) ≡ done (g.gives r v) (g.leaves r v)))
      → Follows Q g m (and_then o k)
  Follows-map f g (ok r) o k (w, e) h = let (v, d) = h r w in (v, ap (λ x. and_then x k) e ∙ d)
  Follows-map f g (stop (exits code)) o k (s, e, q) h = (s, ap (λ x. and_then x k) e, q)
  Follows-map f g (stop aborts) o k e h = ap (λ x. and_then x k) e
  Follows-map f g (stop faults) o k e h = ap (λ x. and_then x k) e

  pub Follows-reshape :
      {R A : Type 0} (f g : Shape S R A) (m : Run R) (o : Outcome S A)
      → Follows Q f m o
      → ((r : R) (w : f.Ways r)
          → (v : g.Ways r) × (done (f.gives r w) (f.leaves r w)
              ≡ done (g.gives r v) (g.leaves r v)))
      → Follows Q g m o
  Follows-reshape f g (ok r) o (w, e) h = let (v, d) = h r w in (v, e ∙ d)
  Follows-reshape f g (stop (exits code)) o q h = q
  Follows-reshape f g (stop aborts) o e h = e
  Follows-reshape f g (stop faults) o e h = e

  -- What only the function goes on with.
  pub Follows-and_run :
      {R R' A : Type 0} (f : Shape S R A) (g : Shape S R' A) (m : Run R) (o : Outcome S A)
      (next : R → Run R')
      → Follows Q f m o
      → ((r : R) (w : f.Ways r) → Follows Q g (next r) (done (f.gives r w) (f.leaves r w)))
      → Follows Q g (and_run m next) o
  Follows-and_run f g (ok r) o next (w, e) h = subst (Follows Q g (next r)) (sym e) (h r w)
  Follows-and_run f g (stop (exits code)) o next q h = q
  Follows-and_run f g (stop aborts) o next e h = e
  Follows-and_run f g (stop faults) o next e h = e

  -- Commands before it that always work.
  pub run_first :
      {R A B : Type 0} (f : Shape S R B) (m : Run R) {o : Outcome S A} {a : A} {s : S}
      (k : A → Cmd S B)
      → o ≡ done a s
      → Follows Q f m (k a s)
      → Follows Q f m (and_then o k)
  run_first f m k e h = subst (Follows Q f m) (sym (ap (λ x. and_then x k) e)) h
