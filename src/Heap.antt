-- ===== src/Heap.antt =====
-- What malloc, calloc, realloc and new have given and free and delete have not taken back, and
-- commands that use it: for the memory of lib/PublicInbox/xap_helper.h and lg2.h. The live objects
-- of a type are an association list from addresses, newest first. An address is not given twice, so
-- a use of an object after its end always shows.

pub mod Follows
pub mod Objects
use public_inbox.Base.{
  ◌==◌, if◌then◌else◌, Run, aborts, exits, faults, ok, stop, ℕ, ◌≡◌, ap, Option, none, some, List,
  [], ◌∷◌,
}

-- NULL is `none`.
abbrev pub Ptr : Type 0
Ptr = Option ℕ

abbrev pub Live : Type 0 → Type 0
Live A = List (ℕ × A)

module _ {A : Type 0} where
  unfoldable pub lookup : ℕ → Live A → Option A
  lookup p [] = none
  lookup p ((q, a) ∷ live) = if q == p then some a else lookup p live

  -- The objects without one, if it is there.
  unfoldable pub remove : ℕ → Live A → Option (Live A)
  remove p [] = none
  remove p ((q, a) ∷ live) =
      let rest = remove p live in
      if q == p then some live else elim rest [ none ↦ none | some left ↦ some ((q, a) ∷ left) ]

  unfoldable pub put : ℕ → A → Live A → Live A
  put p a [] = []
  put p a ((q, b) ∷ live) = if q == p then (q, a) ∷ live else (q, b) ∷ put p a live

-- A command in a state gives a value and a state; or calls exit, whose handlers then find the state;
-- or ends the process at once (abort, a failed assert or an uncaught exception); or uses what is not
-- live; or waits for a system call that does not return.
pub data Outcome (S A : Type 0) : Type 0 where
  done : A → S → Outcome S A
  exited : ℕ → S → Outcome S A
  killed invalid blocked : Outcome S A

abbrev pub Cmd : Type 0 → Type 0 → Type 0
Cmd S A = S → Outcome S A

abbrev pub pure : {S A : Type 0} → A → Cmd S A
pure = done

module _ {S A B : Type 0} where
  abbrev pub and_then : Outcome S A → (A → Cmd S B) → Outcome S B
  and_then (done a s) k = k a s
  and_then (exited code s) k = exited code s
  and_then killed k = killed
  and_then invalid k = invalid
  and_then blocked k = blocked

  infixl 5 ◌>>=◌ ◌>>◌
  abbrev pub ◌>>=◌ : Cmd S A → (A → Cmd S B) → Cmd S B
  m >>= k = λ s. and_then (m s) k

  abbrev pub ◌>>◌ : Cmd S A → Cmd S B → Cmd S B
  m >> n = m >>= λ _. n

  -- The rest of a command, once its first part is done.
  pub and_then-done :
      {o : Outcome S A} {a : A} {s : S} (k : A → Cmd S B) → o ≡ done a s → and_then o k ≡ k a s
  and_then-done k e = ap (λ x. and_then x k) e

module _ {S A : Type 0} where
  abbrev pub abort : Cmd S A
  abort s = killed

  abbrev pub fault : Cmd S A
  fault s = invalid

  -- What does not change the state.
  unfoldable pub lift : Run A → Cmd S A
  lift (ok a) s = done a s
  lift (stop (exits code)) s = exited code s
  lift (stop aborts) s = killed
  lift (stop faults) s = invalid

  -- A read of what is live.
  abbrev pub or_invalid : Option A → Cmd S A
  or_invalid none s = invalid
  or_invalid (some a) s = done a s
