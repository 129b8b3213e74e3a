-- ===== src/DumpRoots/Command.antt =====
-- What cmd_dump_roots sends.
use public_inbox.Query.{got, commit_mset}
use public_inbox.DumpRoots.{
  goes_on, cmd_dump_roots, finish_roots, RootsEnv, read_table, RootsDump, Dumping,
}
use public_inbox.DumpIbx.{emit_mset_stats, by_docid, stats_size, stats_nr_out}
use public_inbox.Options.{Req}
use public_inbox.RootIds.{Table}
use public_inbox.DumpRoots.Flushes.{
  Commits, docs_of, AllNumbered, commits_text, count_lines, Flows, dump_roots_docs-commits_text,
}
use public_inbox.Terms.Order.{SkipsTo}
use public_inbox.Locks.{flock_loop}
use public_inbox.Mset.Sending.{Writes}
use public_inbox.Prefix.{term_length_extract}
use public_inbox.Base.{length, ok, ℕ, ◌^◌, ◌<◌, ◌≡◌, refl, true, some, List, [], ◌∷◌, ◌++◌, arith}
use public_inbox.Args.{Bytes}

-- Where the locks are got and given back and writes make progress, and the query gives commits that
-- are all read whole at once and whose roots are in the file: cmd_dump_roots sends for each commit,
-- in order, a line for every term with one of the prefixes and its length, which ends with the
-- numbers of the commit's roots, however often the buffer is flushed; the second stream gets the
-- number of commits and of these lines.
pub cmd_dump_roots-commits_text :
    (v : RootsEnv) (req : Req) (root2off_file qry pfx contents : Bytes) (pfxs args : List Bytes)
    (table : Table) (cs : Commits)
    → SkipsTo v.env.skip_to
    → ((i : ℕ) → flock_loop (v.locks i) ≡ some true)
    → ((i : ℕ) → flock_loop (v.unlocks i) ≡ some true)
    → Writes v.calls
    → v.env.has_err ≡ true
    → req.pfxv ≡ pfx ∷ pfxs
    → v.file root2off_file ≡ some contents
    → read_table contents ≡ ok table
    → commit_mset v.env.answers v.postings (by_docid req) v.env.qp_flags qry 0 ≡ got (docs_of cs)
    → AllNumbered table cs
    → length (commits_text cs (term_length_extract v.env.strtoull (pfx ∷ pfxs))) < 2 ^ 64
    → cmd_dump_roots v req (root2off_file ∷ qry ∷ args)
      ≡ ok (
        goes_on,
        record {
          out = commits_text cs (term_length_extract v.env.strtoull (pfx ∷ pfxs));
          err =
              stats_size
              ++ (v.env.show (length (docs_of cs))
                  ++ (stats_nr_out
                      ++ (v.env.show
                            (count_lines cs (term_length_extract v.env.strtoull (pfx ∷ pfxs)))
                          ++ (10 ∷ []))));
          returned = some true;
        },
      )
unfolding cmd_dump_roots finish_roots emit_mset_stats
cmd_dump_roots-commits_text v req root2off_file qry pfx contents pfxs args table cs sk lo un wr h q
      fi t m a l =
    let ps = term_length_extract v.env.strtoull (pfx ∷ pfxs) in
    let d : RootsDump = record {
      skip_to = v.env.skip_to;
      reopens = v.env.reopens;
      table = table;
      prefixes = ps;
      locks = v.locks;
      unlocks = v.unlocks;
      calls = v.calls;
    } in
    let f : Flows d = record { skips = sk; locked_at = lo; unlocked_at = un; writes = wr } in
    let start : Dumping = record { buf = []; sent = []; nr_out = 0; rev = 0; flushes = 0 } in
    let (s, r, x, y) = dump_roots_docs-commits_text d f cs start refl a (omega (arith, l)) in
    let n : s.nr_out ≡ count_lines cs ps = omega (arith, y) in
    ground (arith, h, q, fi, t, m, r, x, n)
