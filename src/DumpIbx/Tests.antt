-- ===== src/DumpIbx/Tests.antt =====
-- Two documents with the same terms, and one that changes once, at its second prefix.
use public_inbox.Query.{got, Enquiry, mail_mset, Database}
use public_inbox.DumpIbx.{
  db_changed, Dump, DumpEnv, DocRef, Dumped, cmd_dump_ibx, dump_tries, stats_size, stats_nr_out,
}
use public_inbox.Options.{Req, fresh}
use public_inbox.DumpIbx.Lines.{
  all_matching, docs_lines, partials, dump_tries-partials, cmd_dump_ibx-docs_lines,
}
use public_inbox.Terms.Tests.{some_terms, skip_terms, skip_terms-SkipsTo, some_terms-IsSorted}
use public_inbox.Prefix.Tests.{c_strtoull}
use public_inbox.Terms.Scan.{matching, lines}
use public_inbox.Terms.{starts_with, ibx_line}
use public_inbox.Prefix.{term_length_extract}
use public_inbox.Base.{
  ◌==◌, if◌then◌else◌, length, ok, ◌+◌, ◌≡◌, refl, ap, true, false, none, some, List, [], ◌∷◌, ◌++◌,
  arith,
}
use public_inbox.Args.{Bytes}

abbrev pub steady : DocRef
steady rev = record { terms = some_terms; trouble = none }

abbrev wavering : DocRef
wavering rev = record {
  terms = some_terms;
  trouble = if rev == 0 then some (1, db_changed) else none;
}

-- -A Q1 -A Q
abbrev dump : Dump
dump = record {
  skip_to = skip_terms;
  reopens = λ rev. true;
  ibx_id = b'x' ∷ [];
  prefixes = (b'Q' ∷ [], 1) ∷ (b'Q' ∷ [], 0) ∷ [];
}

abbrev nothing_yet : Dumped
nothing_yet = record { out = []; nr_out = 0; rev = 0 }

dump_tries-partials_example : (dump_tries dump wavering 10 nothing_yet).0.nr_out ≡ 4
unfolding all_matching matching starts_with partials
dump_tries-partials_example =
    ap (λ x. x.0.nr_out)
      (dump_tries-partials dump wavering (λ rev. 1) 1 10 1 nothing_yet skip_terms-SkipsTo
        (λ rev. some_terms-IsSorted) (omega arith) (omega arith) (refl, omega arith, refl, tt) refl)

abbrev pub answers : Enquiry → Database (List DocRef)
answers e = record { get_mset = λ rev off max. got (steady ∷ steady ∷ []); reopens = λ rev. true }

abbrev pub ibx_env : DumpEnv DocRef
ibx_env = record {
  show = λ n. (48 + n) ∷ [];
  strtoull = c_strtoull;
  skip_to = skip_terms;
  answers = answers;
  reopens = λ rev. true;
  has_threadid = false;
  qp_flags = 7;
  has_err = true;
}

abbrev pub by_q : Req
by_q = record fresh { pfxv = (b'Q' ∷ []) ∷ [] }

cmd_dump_ibx-docs_lines_example :
    (ls : List Bytes) × (ls
      ≡ docs_lines (steady ∷ steady ∷ []) (term_length_extract c_strtoull ((b'Q' ∷ []) ∷ [])))
    × (cmd_dump_ibx ibx_env by_q ((b'x' ∷ []) ∷ (b'q' ∷ []) ∷ [])
        ≡ ok (record {
          out = lines (ibx_line (b'x' ∷ [])) ls;
          err = stats_size ++ (b'2' ∷ (stats_nr_out ++ ((48 + length ls) ∷ 10 ∷ [])));
          returned = some true;
        }))
unfolding mail_mset
cmd_dump_ibx-docs_lines_example =
    cmd_dump_ibx-docs_lines ibx_env by_q (b'x' ∷ []) (b'q' ∷ []) (b'Q' ∷ []) [] []
      (steady ∷ steady ∷ []) skip_terms-SkipsTo refl refl refl
      ((λ rev. some_terms-IsSorted, refl), ((λ rev. some_terms-IsSorted, refl), tt))
