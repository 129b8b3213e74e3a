-- ===== src/Stderr/Restoring.antt =====
-- Warnings go to the request's stream, and afterwards to where they went before.
use public_inbox.Stderr.{
  Std, Dup2, dup_eintr, dup_done, dup2_loop, stderr_set, stderr_restore, stderr_fileno,
}
use public_inbox.Base.{
  ◌==◌, if◌then◌else◌, Bool-cases, replicate, ok, ℕ, zero, suc, ◌≡◌, refl, sym, ◌≢◌, inl, inr, true,
  some, List, [], ◌∷◌, ◌++◌, arith,
}

-- Between requests: stderr is as it was at first, and orig_err_fd, which is not 2, is a copy of it.
pub record IsHome (s : Std) : Type 0 where
  pub variable : s.stderr ≡ s.orig_err
  pub other : s.orig_err_fd ≢ stderr_fileno
  pub copy : s.files s.orig_err_fd ≡ s.files stderr_fileno

-- Where warnings go: to a stream, or to the file of descriptor 2.
abbrev pub warns_to : Std → ℕ
warns_to s = if s.assignable then s.stderr else s.files stderr_fileno

-- dup2 is interrupted n times and then works.
abbrev pub interrupts : ℕ → List Dup2
interrupts n = replicate n dup_eintr ++ (dup_done ∷ [])

abbrev redirected : ℕ → Std → Std
redirected fd s = record s { files = λ k. if k == stderr_fileno then s.files fd else s.files k }

dup2_loop-interrupts :
    (n fd : ℕ) (s : Std) → dup2_loop (interrupts n) fd s ≡ ok (some (redirected fd s))
unfolding dup2_loop
dup2_loop-interrupts zero fd s = refl
dup2_loop-interrupts (suc n) fd s = dup2_loop-interrupts n fd s

-- The same to whatever is written: the variable and every descriptor.
pub record Same (s t : Std) : Type 0 where
  pub stderr : t.stderr ≡ s.stderr
  pub files : (k : ℕ) → t.files k ≡ s.files k

restored :
    (fd : ℕ) (s : Std) (h : IsHome s) (k : ℕ)
    → (redirected s.orig_err_fd (redirected fd s)).files k ≡ s.files k
restored fd s h k = elim (Bool-cases (k == stderr_fileno)) [
  | inl y ↦ ground (arith, h.other, h.copy)
  | inr n ↦ ground arith
]

-- However often dup2 is interrupted: from a state between requests stderr_set makes warnings go to
-- the request's stream, and stderr_restore then makes the variable and every descriptor what they
-- were before.
pub stderr_restore-stderr_set :
    (tmp_err fd n m : ℕ) (s : Std)
    → IsHome s
    → (r t : Std) × (stderr_set tmp_err (some fd) (interrupts n) s ≡ ok (some r))
      × (warns_to r ≡ (if s.assignable then tmp_err else s.files fd))
      × (stderr_restore true (interrupts m) r ≡ ok (some t))
      × Same s t
unfolding stderr_set stderr_restore
stderr_restore-stderr_set tmp_err fd n m s h = elim (Bool-cases s.assignable) [
  | inl y ↦ (
    record s { stderr = tmp_err },
    record s { stderr = s.orig_err },
    ground (arith, y),
    ground (arith, y),
    ground (arith, y),
    record { stderr = sym h.variable; files = λ k. refl },
  )
  | inr f ↦ (
    redirected fd s,
    redirected s.orig_err_fd (redirected fd s),
    ground (arith, f, dup2_loop-interrupts n fd s),
    ground (arith, f),
    ground (arith, f, dup2_loop-interrupts m s.orig_err_fd (redirected fd s)),
    record { stderr = refl; files = λ k. restored fd s h k },
  )
]
