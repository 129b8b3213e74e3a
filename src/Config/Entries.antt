-- ===== src/Config/Entries.antt =====
-- What an entry of `todo` asks of libgit2.
use public_inbox.Config.{
  GitConfig, Todo, CfgOp, not_a_ref, op_add, op_unset_all, op_replace_all, op_set, command, op_of,
  run_op, add_name, run_todo, git_enotfound, forgive, unset_all_name, replace_all_name, git_ok,
}
use public_inbox.Options.{same_bytes, eq_ℤ}
use public_inbox.Cache.Budget.{same_bytes_lem}
use public_inbox.Base.{
  ==_iff, Bool-cases, length, ℤ, pos, negsuc, ◌<◌, ◌≡◌, refl, sym, ap, subst, ◌∙◌, ◌≢◌, ◌⊎◌, inl,
  inr, true, false, false≢true, none, some, List, [], ◌∷◌, arith,
}
use public_inbox.Args.{Bytes, cstr}

pub eq_ℤ_lem : (a b : ℤ) → eq_ℤ a b ≡ true → a ≡ b
eq_ℤ_lem (pos a) (pos b) e = ap pos ((==_iff a b).0 e)
eq_ℤ_lem (negsuc a) (negsuc b) e = ap negsuc ((==_iff a b).0 e)
eq_ℤ_lem (pos a) (negsuc b) e = absurd (false≢true e)
eq_ℤ_lem (negsuc a) (pos b) e = absurd (false≢true e)

-- What an entry of `todo` asks of libgit2 in the state c, with the code and the state r that come of
-- it: by the command of its first string, on its strings up to their first NUL.
pub data Asks {C : Type 0} (lib : GitConfig C) (t : Todo) (c : C) (r : ℤ × C) : Type 0 where
  asks_add :
      (name val : Bytes) (more : List Bytes)
      → t ≡ command (add_name ∷ name ∷ val ∷ more)
      → r ≡ lib.set_multivar c (cstr name) (b'$' ∷ b'^' ∷ []) (cstr val)
      → Asks lib t c r
  asks_unset_all :
      (name : Bytes) (more : List Bytes) (d : ℤ × C)
      → t ≡ command (unset_all_name ∷ name ∷ more)
      → d ≡ lib.delete_multivar c (cstr name) (b'.' ∷ b'*' ∷ [])
      → ((d.0 ≢ git_enotfound) × (r ≡ d)) ⊎ ((d.0 ≡ git_enotfound) × (r ≡ (git_ok, d.1)))
      → Asks lib t c r
  asks_replace_all :
      (name val re : Bytes) (more : List Bytes)
      → t ≡ command (replace_all_name ∷ name ∷ val ∷ re ∷ more)
      → r ≡ lib.set_multivar c (cstr name) (cstr re) (cstr val)
      → Asks lib t c r
  asks_set :
      (name val : Bytes) (more : List Bytes)
      → t ≡ command (name ∷ val ∷ more)
      → (name ≢ add_name) × (name ≢ unset_all_name) × (name ≢ replace_all_name)
      → r ≡ lib.set_string c (cstr name) (cstr val)
      → Asks lib t c r

-- An entry that is no reference, or has too few strings for its command.
pub data Malformed (t : Todo) : Type 0 where
  no_ref : t ≡ not_a_ref → Malformed t
  no_strings : t ≡ command [] → Malformed t
  few_for_add : (args : List Bytes) → t ≡ command (add_name ∷ args) → length args < 2 → Malformed t
  few_for_unset_all : t ≡ command (unset_all_name ∷ []) → Malformed t
  few_for_replace_all :
      (args : List Bytes) → t ≡ command (replace_all_name ∷ args) → length args < 3 → Malformed t
  few_for_set :
      (name : Bytes)
      → t ≡ command (name ∷ [])
      → (name ≢ add_name) × (name ≢ unset_all_name) × (name ≢ replace_all_name)
      → Malformed t

-- The first string of an entry for an operation.
abbrev OpName : CfgOp → Bytes → Type 0
OpName op_add cmd0 = cmd0 ≡ add_name
OpName op_unset_all cmd0 = cmd0 ≡ unset_all_name
OpName op_replace_all cmd0 = cmd0 ≡ replace_all_name
OpName op_set cmd0 = (cmd0 ≢ add_name) × (cmd0 ≢ unset_all_name) × (cmd0 ≢ replace_all_name)

some-injective : {A : Type 0} {a b : A} → some a ≡ some b → a ≡ b
some-injective e = cc

same_bytes_self : (a : Bytes) → same_bytes a a ≡ true
unfolding same_bytes
same_bytes_self [] = refl
same_bytes_self (x ∷ a) = ground (arith, same_bytes_self a)

other_bytes : (a b : Bytes) → same_bytes a b ≡ false → a ≢ b
other_bytes a b n e = false≢true (sym n ∙ ap (λ x. same_bytes a x) (sym e) ∙ same_bytes_self a)

op_of-OpName : (cmd0 : Bytes) → OpName (op_of cmd0) cmd0
unfolding op_of
op_of-OpName cmd0 = elim (Bool-cases (same_bytes cmd0 add_name)) [
  | inl y ↦ rw y (same_bytes_lem cmd0 add_name y)
  | inr n ↦ elim (Bool-cases (same_bytes cmd0 unset_all_name)) [
    | inl y ↦ rw (n, y) (same_bytes_lem cmd0 unset_all_name y)
    | inr m ↦ elim (Bool-cases (same_bytes cmd0 replace_all_name)) [
      | inl y ↦ rw (n, m, y) (same_bytes_lem cmd0 replace_all_name y)
      | inr k ↦
          rw (n, m, k)
            (
              other_bytes cmd0 add_name n,
              other_bytes cmd0 unset_all_name m,
              other_bytes cmd0 replace_all_name k,
            )
    ]
  ]
]

module _ {C : Type 0} (lib : GitConfig C) (cmd0 : Bytes) (c : C) where
  forgive-cases :
      (d : ℤ × C)
      → ((d.0 ≢ git_enotfound) × (forgive d ≡ d))
        ⊎ ((d.0 ≡ git_enotfound) × (forgive d ≡ (git_ok, d.1)))
  forgive-cases (rc, m) = elim (Bool-cases (eq_ℤ rc git_enotfound)) [
    | inl y ↦ inr (eq_ℤ_lem rc git_enotfound y, rw y refl)
    | inr n ↦ inl (λ e. false≢true (sym n ∙ ap (λ x. eq_ℤ x git_enotfound) e), rw n refl)
  ]

  run_op-Asks :
      (op : CfgOp) (args : List Bytes) (r : ℤ × C)
      → OpName op cmd0
      → run_op lib op (cmd0 ∷ args) c ≡ some r
      → Asks lib (command (cmd0 ∷ args)) c r
  unfolding run_op
  run_op-Asks op_add [] r o e = absurd (ground arith)
  run_op-Asks op_add (name ∷ []) r o e = absurd (ground arith)
  run_op-Asks op_add (name ∷ val ∷ more) r o e =
      asks_add name val more (ap (λ x. command (x ∷ name ∷ val ∷ more)) o) (sym (some-injective e))
  run_op-Asks op_unset_all [] r o e = absurd (ground arith)
  run_op-Asks op_unset_all (name ∷ more) r o e =
      let d = lib.delete_multivar c (cstr name) (b'.' ∷ b'*' ∷ []) in
      asks_unset_all name more d (ap (λ x. command (x ∷ name ∷ more)) o) refl (
        subst
          (λ x. ((d.0 ≢ git_enotfound) × (x ≡ d)) ⊎ ((d.0 ≡ git_enotfound) × (x ≡ (git_ok, d.1))))
          (some-injective e) (forgive-cases d))
  run_op-Asks op_replace_all [] r o e = absurd (ground arith)
  run_op-Asks op_replace_all (name ∷ []) r o e = absurd (ground arith)
  run_op-Asks op_replace_all (name ∷ val ∷ []) r o e = absurd (ground arith)
  run_op-Asks op_replace_all (name ∷ val ∷ re ∷ more) r o e =
      asks_replace_all name val re more (ap (λ x. command (x ∷ name ∷ val ∷ re ∷ more)) o)
        (sym (some-injective e))
  run_op-Asks op_set [] r o e = absurd (ground arith)
  run_op-Asks op_set (val ∷ more) r o e = asks_set cmd0 val more refl o (sym (some-injective e))

  run_op-Malformed :
      (op : CfgOp) (args : List Bytes)
      → OpName op cmd0
      → run_op lib op (cmd0 ∷ args) c ≡ none
      → Malformed (command (cmd0 ∷ args))
  unfolding run_op
  run_op-Malformed op_add [] o e = few_for_add [] (ap (λ x. command (x ∷ [])) o) (omega arith)
  run_op-Malformed op_add (name ∷ []) o e =
      few_for_add (name ∷ []) (ap (λ x. command (x ∷ name ∷ [])) o) (omega arith)
  run_op-Malformed op_add (name ∷ val ∷ more) o e = absurd (ground arith)
  run_op-Malformed op_unset_all [] o e = few_for_unset_all (ap (λ x. command (x ∷ [])) o)
  run_op-Malformed op_unset_all (name ∷ more) o e = absurd (ground arith)
  run_op-Malformed op_replace_all [] o e =
      few_for_replace_all [] (ap (λ x. command (x ∷ [])) o) (omega arith)
  run_op-Malformed op_replace_all (name ∷ []) o e =
      few_for_replace_all (name ∷ []) (ap (λ x. command (x ∷ name ∷ [])) o) (omega arith)
  run_op-Malformed op_replace_all (name ∷ val ∷ []) o e =
      few_for_replace_all (name ∷ val ∷ []) (ap (λ x. command (x ∷ name ∷ val ∷ [])) o)
        (omega arith)
  run_op-Malformed op_replace_all (name ∷ val ∷ re ∷ more) o e = absurd (ground arith)
  run_op-Malformed op_set [] o e = few_for_set cmd0 refl o
  run_op-Malformed op_set (val ∷ more) o e = absurd (ground arith)

module _ {C : Type 0} (lib : GitConfig C) where
  pub run_todo-Asks : (t : Todo) (c : C) (r : ℤ × C) → run_todo lib t c ≡ some r → Asks lib t c r
  unfolding run_todo
  run_todo-Asks not_a_ref c r e = absurd (ground arith)
  run_todo-Asks (command []) c r e = absurd (ground arith)
  run_todo-Asks (command (cmd0 ∷ args)) c r e =
      run_op-Asks lib cmd0 c (op_of cmd0) args r (op_of-OpName cmd0) e

  pub run_todo-Malformed : (t : Todo) (c : C) → run_todo lib t c ≡ none → Malformed t
  unfolding run_todo
  run_todo-Malformed not_a_ref c e = no_ref refl
  run_todo-Malformed (command []) c e = no_strings refl
  run_todo-Malformed (command (cmd0 ∷ args)) c e =
      run_op-Malformed lib cmd0 c (op_of cmd0) args (op_of-OpName cmd0) e
