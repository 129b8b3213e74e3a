-- ===== src/DumpRoots.antt =====
-- cmd_dump_roots, dump_roots_iter and dump_roots_flush of lib/PublicInbox/xh_cidx.h: for every
-- commit of a query, a line for each of its terms with one of the -A prefixes, which ends with the
-- numbers of the commit's roots. The lines are kept in a buffer, which goes out under a lock. The
-- parameters are those of DumpIbx, the root file and what flock gives.
pub mod Flushes
pub mod Command
pub mod Entries
pub mod Tests
use public_inbox.DumpIbx.{
  iter_ok, iter_retry, iter_raised, Reply, scanned, DocRef, Reading, Iter, DumpEnv, emit_mset_stats,
  by_docid,
}
use public_inbox.Locks.{Flock, flock_loop}
use public_inbox.Lg2.{waiting}
use public_inbox.Terms.{Skip, dump_roots_term}
use public_inbox.Output.{write_all}
use public_inbox.RootIds.{Table, root2offs_str, put_entries}
use public_inbox.Mset.{Calls}
use public_inbox.Query.{got, modified, thrown, commit_mset, Postings}
use public_inbox.Options.{Req}
use public_inbox.Prefix.{term_length_extract}
use public_inbox.Base.{
  ◌==◌, if◌then◌else◌, length, Run, ◌>>=◌, aborts, exits, ok, stop, ℕ, zero, suc, ◌+◌, ◌*◌, ◌/◌,
  ◌%◌, ◌^◌, Bool, true, false, Option, none, some, List, [], ◌∷◌, ◌++◌, map,
}
use public_inbox.Args.{Bytes, split2argv, cstr}

-- The loop over req->pfxv of dump_roots_iter, into drt->wbuf.
unfoldable pub roots_prefixes : Skip → Bytes → List Bytes → List (Bytes × ℕ) → Bytes → ℕ → Bytes × ℕ
roots_prefixes skip_to offs terms [] buf nr_out = (buf, nr_out)
roots_prefixes skip_to offs terms ((pfx, len) ∷ ps) buf nr_out =
    let (b, n) = dump_roots_term skip_to offs pfx len terms buf nr_out in
    roots_prefixes skip_to offs terms ps b n

-- One try. The scan 0 of a document is that of root2offs_str, and those of the prefixes follow; the
-- third part is the buffer, and the last req->nr_out.
unfoldable pub dump_roots_iter :
    Skip → Table → List (Bytes × ℕ) → Reading → Bool → Bytes → ℕ → Run (Iter × Bytes × ℕ)
unfolding scanned roots_prefixes root2offs_str
dump_roots_iter skip_to tbl ps r reopened buf nr_out =
    let (qs, i) = scanned r reopened (([], 0) ∷ ps) in
    elim qs [
      | [] ↦ ok (i, buf, nr_out)
      | q ∷ qs' ↦ root2offs_str skip_to tbl r.terms >>= λ offs.
          let (b, n) = roots_prefixes skip_to offs r.terms qs' buf nr_out in ok (i, b, n)
    ]

-- The buffer, what has been sent, req->nr_out, the revision, and the number of flushes.
pub record Dumping : Type 0 where
  pub buf : Bytes
  pub sent : Bytes
  pub nr_out : ℕ
  pub rev : ℕ
  pub flushes : ℕ

-- What is fixed meanwhile. The i-th flush locks with the results `locks i`, writes with those of
-- `calls i`, and unlocks with `unlocks i`.
pub record RootsDump : Type 0 where
  pub skip_to : Skip
  pub reopens : ℕ → Bool
  pub table : Table
  pub prefixes : List (Bytes × ℕ)
  pub locks : ℕ → List Flock
  pub unlocks : ℕ → List Flock
  pub calls : Calls

-- How far a part of the command comes: it goes on, it returns false, an exception leaves it, or a
-- call of the system has not returned.
pub data Flow : Type 0 where
  goes_on returns_false raises waits : Flow

-- `while (flock(...)) { if (errno == EINTR) continue; err(...); }`, and what follows.
abbrev pub with_flock {ℓ} : {A : Type ℓ} → List Flock → A → (Unit {0} → Run A) → Run A
with_flock fs pending next = elim (flock_loop fs) [
  | none ↦ ok pending
  | some taken ↦ if taken then next tt else stop (exits 1)
]

unfoldable pub dump_roots_flush : RootsDump → Dumping → Run (Flow × Dumping)
dump_roots_flush d s =
    if length s.buf == 0
    then ok (goes_on, s)
    else with_flock (d.locks s.flushes) (waits, s)
        (λ _. write_all s.buf (length s.buf) (d.calls s.flushes (length s.buf)) >>= λ r.
          let s' = record s { buf = []; sent = s.sent ++ r.1; flushes = s.flushes + 1 } in
          elim r.0 [
            | none ↦ ok (waits, s')
            | some done ↦
                with_flock (d.unlocks s.flushes) (waits, s')
                  (λ _. ok (if done then goes_on else returns_false, s'))
          ])

-- `for (int t = 10; t > 0; --t)`, with t tries left.
unfoldable pub dump_roots_tries : RootsDump → DocRef → ℕ → Dumping → Run (Flow × Dumping)
unfolding dump_roots_iter
dump_roots_tries d doc zero s = ok (goes_on, s)
dump_roots_tries d doc (suc t) s =
    dump_roots_iter d.skip_to d.table d.prefixes (doc s.rev) (d.reopens s.rev) s.buf s.nr_out
    >>= λ r.
        let s' = record s { buf = r.1; nr_out = r.2 } in
        elim r.0 [
          | iter_ok ↦ ok (goes_on, s')
          | iter_retry ↦ dump_roots_tries d doc t (record s' { rev = s.rev + 1 })
          | iter_raised ↦ ok (raises, s')
        ]

-- `!(req->nr_out & 0x3fff)`
abbrev pub flush_due : ℕ → Bool
flush_due nr_out = nr_out % 2 ^ 14 == 0

-- The loop over the results, and the last flush.
unfoldable pub dump_roots_docs : RootsDump → List DocRef → Dumping → Run (Flow × Dumping)
unfolding dump_roots_tries dump_roots_flush
dump_roots_docs d [] s = dump_roots_flush d s
dump_roots_docs d (doc ∷ docs) s = dump_roots_tries d doc 10 s >>= λ r. elim r.0 [
  | returns_false ↦ ok r
  | raises ↦ ok r
  | waits ↦ ok r
  | goes_on ↦ elim (flush_due r.1.nr_out) [
    | false ↦ dump_roots_docs d docs r.1
    | true ↦ dump_roots_flush d r.1 >>= λ f. elim f.0 [
      | returns_false ↦ ok f
      | raises ↦ ok f
      | waits ↦ ok f
      | goes_on ↦ dump_roots_docs d docs f.1
    ]
  ]
]

-- What is outside of cmd_dump_roots besides: the contents of a file, if it can be opened, the
-- postings for the roots of the repository, and the locks and writes of the flushes.
pub record RootsEnv : Type 0 where
  pub env : DumpEnv DocRef
  pub file : Bytes → Option Bytes
  pub postings : Postings
  pub locks : ℕ → List Flock
  pub unlocks : ℕ → List Flock
  pub calls : Calls

-- The table from the file: an empty one cannot be mapped.
unfoldable pub read_table : Bytes → Run Table
unfolding put_entries
read_table contents =
    if length contents == 0
    then stop (exits 1)
    else (split2argv contents ((length contents / 32 + 1) * 2) >>= λ r.
        put_entries (map cstr r.1) [])

unfoldable pub finish_roots : RootsEnv → RootsDump → List DocRef → Run (Flow × Reply)
unfolding dump_roots_docs emit_mset_stats
finish_roots v d docs =
    dump_roots_docs d docs (record { buf = []; sent = []; nr_out = 0; rev = 0; flushes = 0 })
    >>= λ r. elim r.0 [
      | raises ↦ ok (raises, record { out = r.1.sent; err = []; returned = none })
      | waits ↦ ok (waits, record { out = r.1.sent; err = []; returned = none })
      | returns_false ↦
          ok (returns_false, record { out = r.1.sent; err = []; returned = some false })
      | goes_on ↦ emit_mset_stats v.env.show v.env.has_err (length docs) r.1.nr_out >>= λ err.
          ok (goes_on, record { out = r.1.sent; err = err; returned = some true })
    ]

-- cmd_dump_roots, for the arguments from argv[optind] on.
unfoldable pub cmd_dump_roots : RootsEnv → Req → List Bytes → Run (Flow × Reply)
unfolding finish_roots read_table
cmd_dump_roots v req [] = stop aborts
cmd_dump_roots v req (root2off_file ∷ []) = stop aborts
cmd_dump_roots v req (root2off_file ∷ qry ∷ args) = elim req.pfxv [
  | [] ↦ stop aborts
  | pfx ∷ pfxs ↦ elim (v.file root2off_file) [
    | none ↦ stop aborts
    | some contents ↦ read_table contents >>= λ table.
        elim (commit_mset v.env.answers v.postings (by_docid req) v.env.qp_flags qry 0) [
          | modified ↦ ok (raises, record { out = []; err = []; returned = none })
          | thrown ↦ ok (raises, record { out = []; err = []; returned = none })
          | got docs ↦
              finish_roots v
                (record {
                  skip_to = v.env.skip_to;
                  reopens = v.env.reopens;
                  table = table;
                  prefixes = term_length_extract v.env.strtoull (pfx ∷ pfxs);
                  locks = v.locks;
                  unlocks = v.unlocks;
                  calls = v.calls;
                })
                docs
        ]
  ]
]
