-- ===== src/Config.antt =====
-- cfgwr_commit of lib/PublicInbox/lg2_cfg.h: a list of changes goes to a git configuration file.
-- libgit2's calls are parameters that map a state of the file to a return code and a new state.
pub mod Entries
pub mod Commit
mod Tests
use public_inbox.Options.{same_bytes, eq_ℤ}
use public_inbox.Base.{
  if◌then◌else◌, get_elem?, ℤ, pos, negsuc, ℕ, true, false, Option, none, some, List, [], ◌∷◌,
}
use public_inbox.Args.{Bytes, cstr}

pub record GitConfig (C : Type 0) : Type 0 where
  -- The name, the regular expression and the value.
  pub set_multivar : C → Bytes → Bytes → Bytes → ℤ × C
  pub delete_multivar : C → Bytes → Bytes → ℤ × C
  pub set_string : C → Bytes → Bytes → ℤ × C

-- An entry of the Perl array `todo`.
pub data Todo : Type 0 where
  not_a_ref : Todo
  command : List Bytes → Todo

-- How the routine ends: it returns, it croaks with the return code, or it croaks with "BUG".
pub data CommitResult (C : Type 0) : Type 0 where
  committed : C → CommitResult C
  refused : ℤ → C → CommitResult C
  bug : C → CommitResult C

abbrev pub git_ok : ℤ
git_ok = pos 0

-- -3
abbrev pub git_enotfound : ℤ
git_enotfound = negsuc 2

pub data CfgOp : Type 0 where
  op_add op_unset_all op_replace_all op_set : CfgOp

-- "--add"
abbrev pub add_name : Bytes
add_name = 45 ∷ 45 ∷ 97 ∷ 100 ∷ 100 ∷ []

-- "--unset-all"
abbrev pub unset_all_name : Bytes
unset_all_name = 45 ∷ 45 ∷ 117 ∷ 110 ∷ 115 ∷ 101 ∷ 116 ∷ 45 ∷ 97 ∷ 108 ∷ 108 ∷ []

-- "--replace-all"
abbrev pub replace_all_name : Bytes
replace_all_name = 45 ∷ 45 ∷ 114 ∷ 101 ∷ 112 ∷ 108 ∷ 97 ∷ 99 ∷ 101 ∷ 45 ∷ 97 ∷ 108 ∷ 108 ∷ []

-- CFG_OP_EQ, which compares the lengths and the bytes.
unfoldable pub op_of : Bytes → CfgOp
unfolding same_bytes
op_of cmd0 =
    if same_bytes cmd0 add_name
    then op_add
    else if same_bytes cmd0 unset_all_name
    then op_unset_all
    else if same_bytes cmd0 replace_all_name
    then op_replace_all
    else op_set

-- FETCH_CSTR, and what is done with the string; `none` croaks.
abbrev pub fetch : {R : Type 0} → List Bytes → ℕ → (Bytes → Option R) → Option R
fetch av i next = elim (get_elem? av i) [ none ↦ none | some s ↦ next (cstr s) ]

-- `if (rc == GIT_ENOTFOUND) rc = GIT_OK;`
abbrev pub forgive : {C : Type 0} → ℤ × C → ℤ × C
forgive (rc, c) = (if eq_ℤ rc git_enotfound then git_ok else rc, c)

unfoldable pub run_op : {C : Type 0} → GitConfig C → CfgOp → List Bytes → C → Option (ℤ × C)
run_op lib op_add av c =
    fetch av 1 (λ name. fetch av 2 (λ val. some (lib.set_multivar c name (b'$' ∷ b'^' ∷ []) val)))
run_op lib op_unset_all av c =
    fetch av 1 (λ name. some (forgive (lib.delete_multivar c name (b'.' ∷ b'*' ∷ []))))
run_op lib op_replace_all av c =
    fetch av 1
      (λ name. fetch av 2 (λ val. fetch av 3 (λ re. some (lib.set_multivar c name re val))))
run_op lib op_set av c = fetch av 0 (λ name. fetch av 1 (λ val. some (lib.set_string c name val)))

-- One round of the loop; `none` croaks.
unfoldable pub run_todo : {C : Type 0} → GitConfig C → Todo → C → Option (ℤ × C)
unfolding run_op op_of
run_todo lib not_a_ref c = none
run_todo lib (command []) c = none
run_todo lib (command (cmd0 ∷ args)) c = run_op lib (op_of cmd0) (cmd0 ∷ args) c

-- The loop and what follows it, with the last return code.
unfoldable pub cfgwr_loop : {C : Type 0} → GitConfig C → ℤ → List Todo → C → CommitResult C
unfolding run_todo
cfgwr_loop lib rc [] c = if eq_ℤ rc git_ok then committed c else refused rc c
cfgwr_loop lib rc (t ∷ ts) c = elim (eq_ℤ rc git_ok) [
  | false ↦ refused rc c
  | true ↦ elim (run_todo lib t c) [ none ↦ bug c | some (rc', c') ↦ cfgwr_loop lib rc' ts c' ]
]

-- `rc` is what git_config_open_ondisk returns, and c the file.
unfoldable pub cfgwr_commit : {C : Type 0} → GitConfig C → ℤ → List Todo → C → CommitResult C
unfolding cfgwr_loop
cfgwr_commit lib rc todo c = cfgwr_loop lib rc todo c
