-- ===== src/Config/Commit.antt =====
-- What is in the file when cfgwr_commit ends.
use public_inbox.Config.{
  committed, bug, GitConfig, cfgwr_commit, git_ok, Todo, cfgwr_loop, CommitResult, run_todo,
  refused,
}
use public_inbox.Options.{eq_ℤ}
use public_inbox.Config.Entries.{run_todo-Malformed, Asks, eq_ℤ_lem, Malformed, run_todo-Asks}
use public_inbox.Base.{
  Bool-cases, Option-cases, ℤ, ◌≡◌, refl, sym, ap, subst, ◌∙◌, ◌≢◌, inl, inr, false, false≢true,
  none, some, List, [], ◌∷◌, ◌++◌, arith,
}

module _ {C : Type 0} (lib : GitConfig C) where
  -- Each change works and takes the file to the next state.
  abbrev pub Applies : List Todo → C → C → Type 0
  Applies [] c d = c ≡ d
  Applies (t ∷ ts) c d = (m : C) × Asks lib t c (git_ok, m) × Applies ts m d

  -- What the end means, for the changes still to be made in the state c.
  abbrev pub Means : List Todo → C → CommitResult C → Type 0
  Means todo c (committed d) = Applies todo c d
  Means todo c (refused rc d) =
      (done rest : List Todo) × (t : Todo) × (m : C) × (todo ≡ done ++ (t ∷ rest))
      × Applies done c m
      × Asks lib t m (rc, d)
      × (rc ≢ git_ok)
  Means todo c (bug d) =
      (done rest : List Todo) × (t : Todo) × (todo ≡ done ++ (t ∷ rest))
      × Applies done c d
      × Malformed t

  Means-cons :
      (t : Todo) (ts : List Todo) (c m : C) (r : CommitResult C)
      → Asks lib t c (git_ok, m)
      → Means ts m r
      → Means (t ∷ ts) c r
  Means-cons t ts c m (committed d) e h = (m, e, h)
  Means-cons t ts c m (refused rc d) e (done, rest, u, n, p, a, q, z) =
      (t ∷ done, rest, u, n, ap (◌∷◌ t) p, (m, e, a), q, z)
  Means-cons t ts c m (bug d) e (done, rest, u, p, a, q) =
      (t ∷ done, rest, u, ap (◌∷◌ t) p, (m, e, a), q)

  loop_failed :
      (rc : ℤ) (ts : List Todo) (c : C)
      → eq_ℤ rc git_ok ≡ false
      → cfgwr_loop lib rc ts c ≡ refused rc c
  unfolding cfgwr_loop
  loop_failed rc [] c e = ground arith
  loop_failed rc (t ∷ ts) c e = ground arith

  not_ok : (rc : ℤ) → eq_ℤ rc git_ok ≡ false → rc ≢ git_ok
  not_ok rc e p = false≢true (sym e ∙ ap (λ x. eq_ℤ x git_ok) p)

  cfgwr_loop-Means : (todo : List Todo) (c : C) → Means todo c (cfgwr_loop lib git_ok todo c)
  unfolding cfgwr_loop
  cfgwr_loop-Means [] c = refl
  cfgwr_loop-Means (t ∷ ts) c = elim (Option-cases (run_todo lib t c)) [
    | inl n ↦
        subst (Means (t ∷ ts) c)
          (sym (ap (λ o. elim o [ none ↦ bug c | some (rc', c') ↦ cfgwr_loop lib rc' ts c' ]) n))
          ([], ts, t, refl, refl, run_todo-Malformed lib t c n)
    | inr ((rc, m), s) ↦
        subst (Means (t ∷ ts) c)
          (sym (ap (λ o. elim o [ none ↦ bug c | some (rc', c') ↦ cfgwr_loop lib rc' ts c' ]) s))
          (elim (Bool-cases (eq_ℤ rc git_ok)) [
            | inl y ↦
                let z = eq_ℤ_lem rc git_ok y in
                let e = run_todo-Asks lib t c (git_ok, m) (s ∙ ap (λ r. some (r, m)) z) in
                subst (λ r. Means (t ∷ ts) c (cfgwr_loop lib r ts m)) (sym z)
                  (Means-cons t ts c m (cfgwr_loop lib git_ok ts m) e (cfgwr_loop-Means ts m))
            | inr x ↦
                subst (Means (t ∷ ts) c) (sym (loop_failed rc ts m x))
                  ([], ts, t, c, refl, refl, run_todo-Asks lib t c (rc, m) s, not_ok rc x)
          ])
  ]

-- If the file can be opened: when cfgwr_commit returns, for each entry in order libgit2 was asked for
-- what its first string says, on its other strings, and gave GIT_OK, where an --unset-all that finds
-- nothing counts as that; when it fails with a code, so it was for the entries before some entry,
-- that entry gave the code, which is not GIT_OK, and none after it was tried; and "BUG" means the
-- same of an entry that is malformed.
pub cfgwr_commit_lem :
    {C : Type 0} (lib : GitConfig C) (todo : List Todo) (c : C)
    → Means lib todo c (cfgwr_commit lib git_ok todo c)
unfolding cfgwr_commit
cfgwr_commit_lem lib todo c = cfgwr_loop-Means lib todo c

-- A file that cannot be opened is not changed.
cfgwr_commit-unopened :
    {C : Type 0} (lib : GitConfig C) (rc : ℤ) (todo : List Todo) (c : C)
    → eq_ℤ rc git_ok ≡ false
    → cfgwr_commit lib rc todo c ≡ refused rc c
unfolding cfgwr_commit
cfgwr_commit-unopened lib rc todo c e = loop_failed lib rc todo c e
