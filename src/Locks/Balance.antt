-- ===== src/Locks/Balance.antt =====
-- Every descriptor that lock_shared_maybe opens is closed by unlock_ensure.
use public_inbox.Locks.{
  opened, enoent, open_error, LockFile, lock_loop, Fds, xclose, unlock_loop, close, with_lock,
  flock_loop, lock_shared_maybe, lock_one, Open, unlock_ensure, Flock,
}
use public_inbox.Args.{Bytes}
use public_inbox.Base.{
  Option-cases, All, ok, ℕ, ◌≡◌, refl, sym, ap, subst, ◌∙◌, ◌≢◌, inl, inr, Bool, Option, none, some,
  List, [], ◌∷◌, arith,
}

abbrev pub Fresh : ℕ → List ℕ → Type 0
Fresh fd = All (λ x. x ≢ fd)

-- open(2) gives a descriptor that is not open, so no lock is held on it.
abbrev pub OpensFresh : List LockFile → Fds → Type 0
OpensFresh [] s = Unit {0}
OpensFresh (f ∷ fs) s = elim f.open_result [
  | opened fd ↦
      Fresh fd s.fds × Fresh fd s.held × OpensFresh fs (with_lock (flock_loop f.flocks) fd s)
  | enoent ↦ OpensFresh fs s
  | open_error ↦ OpensFresh fs s
]

close_comm : (a b : ℕ) (xs : List ℕ) → close a (close b xs) ≡ close b (close a xs)
close_comm a b [] = refl
close_comm a b (x ∷ xs) = ground (arith, close_comm a b xs)

close-Fresh : (fd : ℕ) (xs : List ℕ) → Fresh fd xs → close fd xs ≡ xs
close-Fresh fd [] h = refl
close-Fresh fd (x ∷ xs) h = ground (arith, close-Fresh fd xs h.1)

xclose_comm : (a b : ℕ) (s : Fds) → xclose a (xclose b s) ≡ xclose b (xclose a s)
unfolding xclose
xclose_comm a b s = ground (arith, close_comm a b s.fds, close_comm a b s.held)

unlock_loop-xclose :
    (lk : List (Option ℕ)) (fd : ℕ) (s : Fds)
    → unlock_loop lk (xclose fd s) ≡ xclose fd (unlock_loop lk s)
unfolding unlock_loop
unlock_loop-xclose [] fd s = refl
unlock_loop-xclose (none ∷ lk) fd s = unlock_loop-xclose lk fd s
unlock_loop-xclose (some x ∷ lk) fd s =
    ap (unlock_loop lk) (xclose_comm x fd s) ∙ unlock_loop-xclose lk fd (xclose x s)

xclose-with_lock :
    (o : Option Bool) (fd : ℕ) (s : Fds)
    → Fresh fd s.fds
    → Fresh fd s.held
    → xclose fd (with_lock o fd s) ≡ s
unfolding xclose
xclose-with_lock o fd s h k = ground (arith, close-Fresh fd s.held k)

lock_loop-nil :
    (s t : Fds) (lk : List (Option ℕ)) → lock_loop [] s ≡ some (lk, t) → unlock_loop lk t ≡ s
unfolding lock_loop unlock_loop
lock_loop-nil s t [] e = ground arith
lock_loop-nil s t (x ∷ lk) e = absurd (ground arith)

lock_loop-eq-some :
    (f : LockFile) (fs : List LockFile) (s t : Fds) (lk : List (Option ℕ))
    → lock_loop (f ∷ fs) s ≡ some (lk, t)
    → (fd : Option ℕ) × (s' : Fds) × (rest : List (Option ℕ)) × (lock_one f s ≡ some (fd, s'))
      × (lock_loop fs s' ≡ some (rest, t))
      × (lk ≡ fd ∷ rest)
unfolding lock_loop
lock_loop-eq-some f fs s t lk e = elim (Option-cases (lock_one f s)) [
  | inl n ↦ cc (n, e)
  | inr ((fd, s'), a) ↦ elim (Option-cases (lock_loop fs s')) [
    | inl n ↦ absurd (ground arith)
    | inr ((rest, u), b) ↦ (fd, s', rest, a, ground arith, ground arith)
  ]
]

-- Closing one file's descriptor undoes what was done for it.
lock_one-undo :
    (o : Open) (fl : List Flock) (fs : List LockFile) (s s' : Fds) (fd : Option ℕ)
    → OpensFresh (record { open_result = o; flocks = fl } ∷ fs) s
    → lock_one (record { open_result = o; flocks = fl }) s ≡ some (fd, s')
    → OpensFresh fs s' × (unlock_loop (fd ∷ []) s' ≡ s)
unfolding lock_one unlock_loop
lock_one-undo enoent fl fs s s' fd h e =
    let a : s ≡ s' = ground arith in
    let b : none ≡ fd = ground arith in (subst (OpensFresh fs) a h, rw (← b) (sym a))
lock_one-undo open_error fl fs s s' fd h e =
    let a : s ≡ s' = ground arith in
    let b : none ≡ fd = ground arith in (subst (OpensFresh fs) a h, rw (← b) (sym a))
lock_one-undo (opened n) fl fs s s' fd h e = elim (Option-cases (flock_loop fl)) [
  | inl w ↦ absurd (ground arith)
  | inr (b, w) ↦
      let a : with_lock (flock_loop fl) n s ≡ s' = ground arith in
      let c : some n ≡ fd = ground arith in
      (
        subst (OpensFresh fs) a h.2,
        rw (← c) (ap (xclose n) (sym a) ∙ xclose-with_lock (flock_loop fl) n s h.0 h.1),
      )
]

unlock_loop-cons :
    (fd : Option ℕ) (lk : List (Option ℕ)) (s : Fds)
    → unlock_loop (fd ∷ lk) s ≡ unlock_loop (fd ∷ []) (unlock_loop lk s)
unfolding unlock_loop
unlock_loop-cons none lk s = refl
unlock_loop-cons (some n) lk s = unlock_loop-xclose lk n s

unlock_loop-lock_loop :
    (fs : List LockFile) (s t : Fds) (lk : List (Option ℕ))
    → OpensFresh fs s
    → lock_loop fs s ≡ some (lk, t)
    → unlock_loop lk t ≡ s
unlock_loop-lock_loop [] s t lk h e = lock_loop-nil s t lk e
unlock_loop-lock_loop (f ∷ fs) s t lk h e =
    let (fd, s', rest, a, b, c) = lock_loop-eq-some f fs s t lk e in
    let (k, undo) = lock_one-undo f.open_result f.flocks fs s s' fd h a in
    rw c (
      unlock_loop-cons fd rest t
      ∙ ap (unlock_loop (fd ∷ [])) (unlock_loop-lock_loop fs s' t rest k b)
      ∙ undo)

-- Whatever open and flock do with each lock file, if open gives descriptors that are not in use
-- then unlock_ensure brings back exactly the descriptors and the locks from before
-- lock_shared_maybe: nothing leaks and nothing else is closed.
pub unlock_ensure-lock_shared_maybe :
    (dirs : List Bytes) (files : List LockFile) (s t : Fds) (lk : Option (List (Option ℕ)))
    → OpensFresh files s
    → lock_shared_maybe dirs files s ≡ ok (some (lk, t))
    → unlock_ensure lk t ≡ s
unfolding lock_shared_maybe unlock_ensure
unlock_ensure-lock_shared_maybe [] files s t lk h e = cc
unlock_ensure-lock_shared_maybe (d ∷ dirs) [] s t none h e = ground arith
unlock_ensure-lock_shared_maybe (d ∷ dirs) [] s t (some l) h e = absurd (ground arith)
unlock_ensure-lock_shared_maybe (d ∷ dirs) (f ∷ fs) s t none h e = absurd (ground arith)
unlock_ensure-lock_shared_maybe (d ∷ dirs) (f ∷ fs) s t (some l) h e =
    unlock_loop-lock_loop (f ∷ fs) s t l h (ground arith)
