-- ===== src/DumpRoots/Tests.antt =====
-- A root file with one commit id, and a commit with that root.
use public_inbox.Query.{got, commit_mset, Postings}
use public_inbox.DumpRoots.{goes_on, RootsEnv, read_table, cmd_dump_roots}
use public_inbox.Locks.{locked, flock_eintr, flock_loop}
use public_inbox.DumpIbx.{DocRef, stats_size, stats_nr_out}
use public_inbox.Args.RoundTrip.{join}
use public_inbox.Terms.Order.{before}
use public_inbox.DumpRoots.Entries.{number_of, IsRootFile, entries, read_table-number_of}
use public_inbox.Terms.Scan.{matching, lines}
use public_inbox.RootIds.{Table, root2id_get, put_entries}
use public_inbox.DumpIbx.Lines.{ReadsInOrder, all_matching}
use public_inbox.Terms.Tests.{skip_terms, skip_terms-SkipsTo}
use public_inbox.Terms.{starts_with}
use public_inbox.DumpRoots.Flushes.{commits_text, count_lines, AllNumbered}
use public_inbox.Mset.Tests.{bytewise, bytewise-Writes}
use public_inbox.Options.{same_bytes}
use public_inbox.RootIds.Offsets.{spaced}
use public_inbox.Prefix.{term_length_extract, extract_loop}
use public_inbox.DumpIbx.Tests.{by_q, ibx_env}
use public_inbox.DumpRoots.Command.{cmd_dump_roots-commits_text}
use public_inbox.Base.{replicate, ok, ◌≡◌, refl, true, none, some, List, [], ◌∷◌, ◌++◌, arith}
use public_inbox.Args.{Bytes, split2argv, cstr}

abbrev id_tail : Bytes
id_tail = replicate 39 b'a'

abbrev root_id : Bytes
root_id = b'a' ∷ id_tail

abbrev one_entry : List (Bytes × Bytes)
one_entry = (root_id, b'7' ∷ []) ∷ []

one_entry-IsRootFile : IsRootFile one_entry
unfolding number_of
one_entry-IsRootFile = (refl, omega arith, omega arith, omega arith, omega arith, tt)

read_table-number_of_example :
    (t : Table) × (read_table (join (entries one_entry)) ≡ ok t)
    × ((key : Bytes)
        → root2id_get t key
          ≡ (elim (number_of one_entry key) [ some m ↦ some (some m) | none ↦ none ]))
unfolding join entries
read_table-number_of_example =
    read_table-number_of b'a' id_tail (b'7' ∷ []) [] one_entry-IsRootFile (omega arith)

-- The file's bytes.
abbrev contents : Bytes
contents = root_id ++ (0 ∷ b'7' ∷ 0 ∷ [])

abbrev table : Table
table = (root_id, some (b'7' ∷ [])) ∷ []

contents-table : read_table contents ≡ ok table
unfolding read_table split2argv put_entries cstr
contents-table = refl

abbrev commit : DocRef
commit rev = record { terms = (b'G' ∷ root_id) ∷ (b'Q' ∷ b'x' ∷ []) ∷ []; trouble = none }

commit-ReadsInOrder : ReadsInOrder commit
unfolding before
commit-ReadsInOrder rev = ((refl, tt), (tt, tt))

abbrev nothing_found : Postings
nothing_found = record {
  terms_of = λ rev key. got none;
  skip_to = skip_terms;
  reopens = λ rev. true;
}

abbrev pub roots_env : RootsEnv
roots_env = record {
  env = record ibx_env {
    answers = λ e. record { get_mset = λ rev off max. got (commit ∷ []); reopens = λ rev. true };
  };
  file = λ name. some contents;
  postings = nothing_found;
  locks = λ i. flock_eintr ∷ locked ∷ [];
  unlocks = λ i. locked ∷ [];
  calls = bytewise;
}

commits-AllNumbered : AllNumbered table ((commit, (b'7' ∷ []) ∷ []) ∷ [])
unfolding matching starts_with cstr root2id_get same_bytes
commits-AllNumbered = ((commit-ReadsInOrder, refl, refl), tt)

-- "x 7\n"
cmd_dump_roots-commits_text_example :
    cmd_dump_roots roots_env by_q ((b'f' ∷ []) ∷ (b'q' ∷ []) ∷ [])
    ≡ ok (
      goes_on,
      record {
        out = b'x' ∷ b' ' ∷ b'7' ∷ 10 ∷ [];
        err = stats_size ++ (b'1' ∷ (stats_nr_out ++ (b'1' ∷ 10 ∷ [])));
        returned = some true;
      },
    )
unfolding commit_mset flock_loop commits_text count_lines all_matching matching lines spaced
    starts_with cstr term_length_extract extract_loop
cmd_dump_roots-commits_text_example =
    cmd_dump_roots-commits_text roots_env by_q (b'f' ∷ []) (b'q' ∷ []) (b'Q' ∷ []) contents [] []
      table ((commit, (b'7' ∷ []) ∷ []) ∷ []) skip_terms-SkipsTo (λ i. refl) (λ i. refl)
      bytewise-Writes refl refl refl contents-table refl commits-AllNumbered (omega arith)
