-- ===== src/DumpIbx.antt =====
-- cmd_dump_ibx and dump_ibx_iter of lib/PublicInbox/xh_cidx.h, and emit_mset_stats of
-- lib/PublicInbox/xap_helper.h: for every document of a query, a line for each of its terms with one
-- of the -A prefixes. Xapian is a parameter, as in Query and Terms; so is what strtoull reads and how
-- "%llu" prints a number.
pub mod Lines
pub mod Tests
use public_inbox.Query.{got, modified, thrown, Enquiry, Database, mail_mset}
use public_inbox.Terms.{Skip, dump_ibx_term}
use public_inbox.Prefix.{Strtoull, term_length_extract}
use public_inbox.Options.{Req}
use public_inbox.Base.{
  ltb, if◌then◌else◌, length, take, Run, ◌>>=◌, aborts, ok, stop, negsuc, ℕ, zero, suc, ◌+◌, Bool,
  true, false, Option, none, some, List, [], ◌∷◌, ◌++◌,
}
use public_inbox.Args.{Bytes}

-- Why a document cannot be read (on): DatabaseModifiedError, DocNotFoundError, or another exception.
pub data Trouble : Type 0 where
  db_changed doc_gone raised : Trouble

-- Reading a document at a revision of the database: its terms, and the scan of a prefix (0 for the
-- first, or for get_document) at whose start an exception comes, if one does.
pub record Reading : Type 0 where
  pub terms : List Bytes
  pub trouble : Option (ℕ × Trouble)

abbrev pub DocRef : Type 0
DocRef = ℕ → Reading

-- The loop over req->pfxv, with req->lenv.
unfoldable pub dump_prefixes : Skip → Bytes → List Bytes → List (Bytes × ℕ) → Bytes → ℕ → Bytes × ℕ
dump_prefixes skip_to ibx_id terms [] out nr_out = (out, nr_out)
dump_prefixes skip_to ibx_id terms ((pfx, len) ∷ ps) out nr_out =
    let (o, n) = dump_ibx_term skip_to ibx_id pfx len terms out nr_out in
    dump_prefixes skip_to ibx_id terms ps o n

-- enum exc_iter, and an exception that leaves the function. ITER_ABORT is not returned here.
pub data Iter : Type 0 where
  iter_ok iter_retry iter_raised : Iter

-- What a trouble means; a reopen that fails raises an exception of its own.
abbrev pub after_trouble : Trouble → Bool → Iter
after_trouble db_changed reopened = if reopened then iter_retry else iter_raised
after_trouble doc_gone reopened = iter_ok
after_trouble raised reopened = iter_raised

-- The prefixes that are scanned before the trouble, and how the function ends.
unfoldable pub scanned : Reading → Bool → List (Bytes × ℕ) → List (Bytes × ℕ) × Iter
scanned r reopened ps = elim r.trouble [
  | none ↦ (ps, iter_ok)
  | some (n, t) ↦ if ltb n (length ps) then (take n ps, after_trouble t reopened) else (ps, iter_ok)
]

unfoldable pub dump_ibx_iter :
    Skip → Bytes → List (Bytes × ℕ) → Reading → Bool → Bytes → ℕ → Iter × Bytes × ℕ
unfolding scanned dump_prefixes
dump_ibx_iter skip_to ibx_id ps r reopened out nr_out =
    let (qs, i) = scanned r reopened ps in
    let (o, n) = dump_prefixes skip_to ibx_id r.terms qs out nr_out in (i, o, n)

-- What has been written, req->nr_out and the revision of the database.
pub record Dumped : Type 0 where
  pub out : Bytes
  pub nr_out : ℕ
  pub rev : ℕ

-- What is fixed while the documents are dumped. `reopens` tells for each revision whether reopen
-- works at it.
pub record Dump : Type 0 where
  pub skip_to : Skip
  pub reopens : ℕ → Bool
  pub ibx_id : Bytes
  pub prefixes : List (Bytes × ℕ)

-- `for (int t = 10; t > 0; --t)`, with t tries left; the second part tells of an exception.
unfoldable pub dump_tries : Dump → DocRef → ℕ → Dumped → Dumped × Bool
unfolding dump_ibx_iter
dump_tries d doc zero p = (p, false)
dump_tries d doc (suc t) p =
    let (i, o, n) =
      dump_ibx_iter d.skip_to d.ibx_id d.prefixes (doc p.rev) (d.reopens p.rev) p.out p.nr_out in
    let retry = dump_tries d doc t (record { out = o; nr_out = n; rev = p.rev + 1 }) in
    elim i [
      | iter_ok ↦ (record p { out = o; nr_out = n }, false)
      | iter_retry ↦ retry
      | iter_raised ↦ (record p { out = o; nr_out = n }, true)
    ]

-- The loop over the results.
unfoldable pub dump_docs : Dump → List DocRef → Dumped → Dumped × Bool
unfolding dump_tries
dump_docs d [] p = (p, false)
dump_docs d (doc ∷ docs) p =
    let (q, e) = dump_tries d doc 10 p in
    let rest = dump_docs d docs q in if e then (q, true) else rest

-- "mset.size="
abbrev pub stats_size : Bytes
stats_size = 109 ∷ 115 ∷ 101 ∷ 116 ∷ 46 ∷ 115 ∷ 105 ∷ 122 ∷ 101 ∷ 61 ∷ []

-- " nr_out="
abbrev pub stats_nr_out : Bytes
stats_nr_out = 32 ∷ 110 ∷ 114 ∷ 95 ∷ 111 ∷ 117 ∷ 116 ∷ 61 ∷ []

-- emit_mset_stats: "mset.size=%llu nr_out=%zu\n" on the second stream, if there is one.
unfoldable pub emit_mset_stats : (ℕ → Bytes) → Bool → ℕ → ℕ → Run Bytes
emit_mset_stats show has_err size nr_out =
    if has_err
    then ok (stats_size ++ (show size ++ (stats_nr_out ++ (show nr_out ++ (10 ∷ [])))))
    else stop aborts

-- What a command has written to its two streams and what it returns; `none` is an exception.
pub record Reply : Type 0 where
  pub out : Bytes
  pub err : Bytes
  pub returned : Option Bool

-- The outside of a dump command: how numbers are printed and read; Xapian's skip_to, its answers to
-- enquiries for documents, whether reopen works at a revision, the metadata and the parser's flags;
-- and whether the request has a second stream.
pub record DumpEnv (D : Type 0) : Type 0 where
  pub show : ℕ → Bytes
  pub strtoull : Strtoull
  pub skip_to : Skip
  pub answers : Enquiry → Database (List D)
  pub reopens : ℕ → Bool
  pub has_threadid : Bool
  pub qp_flags : ℕ
  pub has_err : Bool

-- An exception, after what has been written.
abbrev pub raise_after : Bytes → Run Reply
raise_after out = ok (record { out = out; err = []; returned = none })

-- req->asc and req->sort_col are set: results come in ascending order of document ids.
abbrev pub by_docid : Req → Req
by_docid req = record req { asc = true; sort_col = negsuc 0 }

-- The loop over the results and the end of cmd_dump_ibx.
unfoldable pub finish_ibx : DumpEnv DocRef → Dump → List DocRef → Run Reply
unfolding dump_docs emit_mset_stats
finish_ibx v d docs =
    let (p, e) = dump_docs d docs (record { out = []; nr_out = 0; rev = 0 }) in
    elim e [
      | true ↦ raise_after p.out
      | false ↦ emit_mset_stats v.show v.has_err (length docs) p.nr_out >>= λ err.
          ok (record { out = p.out; err = err; returned = some true })
    ]

-- cmd_dump_ibx, for the arguments from argv[optind] on.
unfoldable pub cmd_dump_ibx : DumpEnv DocRef → Req → List Bytes → Run Reply
unfolding finish_ibx
cmd_dump_ibx v req [] = stop aborts
cmd_dump_ibx v req (ibx_id ∷ []) = stop aborts
cmd_dump_ibx v req (ibx_id ∷ qry ∷ args) = elim req.pfxv [
  | [] ↦ stop aborts
  | pfx ∷ pfxs ↦ elim (mail_mset v.answers v.has_threadid (by_docid req) v.qp_flags qry 0) [
    | modified ↦ raise_after []
    | thrown ↦ raise_after []
    | got docs ↦
        finish_ibx v
          (record {
            skip_to = v.skip_to;
            reopens = v.reopens;
            ibx_id = ibx_id;
            prefixes = term_length_extract v.strtoull (pfx ∷ pfxs);
          })
          docs
  ]
]
