-- ===== src/Config/Tests.antt =====
-- A file that is a list of names, and a change that finds no name.
use public_inbox.Config.{
  command, Todo, GitConfig, cfgwr_commit, git_ok, op_of, unset_all_name, git_enotfound, run_op,
  run_todo, cfgwr_loop,
}
use public_inbox.Options.{same_bytes}
use public_inbox.Config.Commit.{Applies, cfgwr_commit_lem}
use public_inbox.Base.{List, [], ◌∷◌}
use public_inbox.Args.{Bytes, cstr}

abbrev names : GitConfig (List Bytes)
names = record {
  set_multivar = λ c name re val. (git_ok, name ∷ c);
  delete_multivar = λ c name re. (git_enotfound, c);
  set_string = λ c name val. (git_ok, name ∷ c);
}

abbrev changes : List Todo
changes =
    command (unset_all_name ∷ (b'a' ∷ []) ∷ []) ∷ command ((b'b' ∷ []) ∷ (b'1' ∷ []) ∷ []) ∷ []

cfgwr_commit_lem_example : Applies names changes [] ((b'b' ∷ []) ∷ [])
unfolding cfgwr_commit op_of same_bytes run_op run_todo cfgwr_loop cstr
cfgwr_commit_lem_example = cfgwr_commit_lem names changes []
