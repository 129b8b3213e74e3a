-- ===== src/Temps/GivesBack.antt =====
-- cmd_dump_roots of lib/PublicInbox/xh_cidx.h with its arguments, and what it gives back.
use public_inbox.Temps.{System, Store}
use public_inbox.Temps.Whole.{file_run, file-given_back}
use public_inbox.DumpRoots.{RootsEnv, cmd_dump_roots, Flow}
use public_inbox.Options.{Req, my_arg_max}
use public_inbox.Args.{Bytes}
use public_inbox.Heap.Follows.{Follows}
use public_inbox.Heap.{Cmd, abort}
use public_inbox.DumpIbx.{Reply}
use public_inbox.Temps.Balance.{AnyStore, given_back}
use public_inbox.Temps.Roots.{serve_roots, roots_file}
use public_inbox.Base.{
  length, Run, aborts, stop, ℕ, ◌^◌, ◌<◌, ◌≡◌, refl, true, Option, none, some, List, [], ◌∷◌, arith,
}

module _ (y : System) (v : RootsEnv) (req : Req) (works : y.fclose_works ≡ true)
    (memory : (n size : ℕ) → y.calloc_works n size ≡ true) (few : length req.pfxv < my_arg_max)
    (sizes : (name contents : Bytes) → v.file name ≡ some contents → length contents < 2 ^ 63) where
  -- With the file or none.
  module _ (qry : Bytes) (pfxv : List Bytes) where
    abbrev found_run : Option Bytes → Run (Flow × Reply)
    found_run none = stop aborts
    found_run (some contents) = file_run y v req qry pfxv contents

    abbrev found_live : Option Bytes → Cmd Store (Flow × Reply)
    found_live none = abort
    found_live (some contents) = roots_file y v req qry pfxv contents

    found-given_back :
        (file : Bytes) (there : Option Bytes) (s : Store)
        → v.file file ≡ there
        → length pfxv < my_arg_max
        → Follows AnyStore (given_back s) (found_run there) (found_live there s)
    found-given_back file none s e h = refl
    found-given_back file (some contents) s e h =
        file-given_back y v req qry pfxv works memory (omega arith) contents s
          (sizes file contents e)

  -- With a prefix or none.
  module _ (file qry : Bytes) where
    abbrev prefixed_run : List Bytes → Run (Flow × Reply)
    prefixed_run [] = stop aborts
    prefixed_run (pfx ∷ pfxs) = found_run qry (pfx ∷ pfxs) (v.file file)

    abbrev prefixed_live : List Bytes → Cmd Store (Flow × Reply)
    prefixed_live [] = abort
    prefixed_live (pfx ∷ pfxs) = found_live qry (pfx ∷ pfxs) (v.file file)

    prefixed-given_back :
        (pfxv : List Bytes) (s : Store)
        → length pfxv < my_arg_max
        → Follows AnyStore (given_back s) (prefixed_run pfxv) (prefixed_live pfxv s)
    prefixed-given_back [] s h = refl
    prefixed-given_back (pfx ∷ pfxs) s h =
        found-given_back qry (pfx ∷ pfxs) file (v.file file) s refl h

  -- Where calloc has memory, fclose works and there are fewer than MY_ARG_MAX prefixes: cmd_dump_roots
  -- with what it takes ends as cmd_dump_roots without. When it returns, or an exception leaves it,
  -- the descriptor of the file, its mapping, the entries and their table, the buffer of the lines and
  -- req->lenv have all been given back, each once, and nothing else has.
  pub serve_roots-given_back :
      (args : List Bytes) (s : Store)
      → Follows AnyStore (given_back s) (cmd_dump_roots v req args) (serve_roots y v req args s)
  unfolding cmd_dump_roots serve_roots
  serve_roots-given_back [] s = refl
  serve_roots-given_back (file ∷ []) s = refl
  serve_roots-given_back (file ∷ qry ∷ args) s = prefixed-given_back file qry req.pfxv s few
