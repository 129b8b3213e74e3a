-- ===== src/DumpIbx/Lines.antt =====
-- The lines of the documents, in order; a document that changes is dumped again.
use public_inbox.DumpIbx.{
  db_changed, dump_tries, dump_prefixes, DocRef, Dump, Dumped, dump_ibx_iter, scanned, dump_docs,
  cmd_dump_ibx, finish_ibx, emit_mset_stats, DumpEnv, by_docid, stats_size, stats_nr_out,
}
use public_inbox.Terms.Scan.{matching, lines, dump_ibx_term-matching}
use public_inbox.Terms.Order.{IsSorted, SkipsTo}
use public_inbox.Terms.{Skip, ibx_line}
use public_inbox.Query.{got, mail_mset}
use public_inbox.Options.{Req}
use public_inbox.Prefix.{term_length_extract}
use public_inbox.Base.{
  length, take, All, length-append, ok, ℕ, zero, suc, ◌+◌, ◌<◌, ◌≡◌, refl, sym, ap, subst, ◌∙◌,
  true, false, none, some, List, [], ◌∷◌, ◌++◌, append-nil, append_assoc, arith,
}
use public_inbox.Args.{Bytes}

-- What the terms give for all prefixes.
unfoldable pub all_matching : List Bytes → List (Bytes × ℕ) → List Bytes
all_matching terms [] = []
all_matching terms ((pfx, len) ∷ ps) = matching pfx len terms ++ all_matching terms ps

pub lines-append :
    (line : Bytes → Bytes) (xs ys : List Bytes)
    → lines line (xs ++ ys) ≡ lines line xs ++ lines line ys
unfolding lines
lines-append line [] ys = refl
lines-append line (x ∷ xs) ys =
    ap (λ s. line x ++ s) (lines-append line xs ys)
    ∙ sym (append_assoc (line x) (lines line xs) (lines line ys))

dump_prefixes_lem :
    (skip_to : Skip) (ibx_id : Bytes) (terms : List Bytes) (ps : List (Bytes × ℕ)) (out : Bytes)
    (nr : ℕ)
    → SkipsTo skip_to
    → IsSorted terms
    → dump_prefixes skip_to ibx_id terms ps out nr ≡ (
      out ++ lines (ibx_line ibx_id) (all_matching terms ps),
      nr + length (all_matching terms ps),
    )
unfolding dump_prefixes all_matching lines
dump_prefixes_lem skip_to ibx_id terms [] out nr k s = ground (arith, append-nil out)
dump_prefixes_lem skip_to ibx_id terms ((pfx, len) ∷ ps) out nr k s =
    let ms = matching pfx len terms in
    let rest = all_matching terms ps in
    let line = ibx_line ibx_id in
    ground (
      arith,
      dump_ibx_term-matching skip_to ibx_id pfx len terms out nr k s,
      dump_prefixes_lem skip_to ibx_id terms ps (out ++ lines line ms) (nr + length ms) k s,
      lines-append line ms rest,
      length-append ms rest,
      append_assoc out (lines line ms) (lines line rest),
    )

-- Every reading of the document has its terms in order.
abbrev pub ReadsInOrder : DocRef → Type 0
ReadsInOrder doc = (rev : ℕ) → IsSorted (doc rev).terms

-- What is written for the k readings from `rev` on, each up to where it stopped.
unfoldable pub partials : DocRef → (ℕ → ℕ) → List (Bytes × ℕ) → ℕ → ℕ → List Bytes
partials doc stopped ps zero rev = []
partials doc stopped ps (suc k) rev =
    all_matching (doc rev).terms (take (stopped rev) ps) ++ partials doc stopped ps k (rev + 1)

-- The k readings from `rev` on stop at a scan because the database has changed, and it is reopened.
abbrev pub Changes : Dump → DocRef → (ℕ → ℕ) → ℕ → ℕ → Type 0
Changes d doc stopped zero rev = Unit {0}
Changes d doc stopped (suc k) rev =
    ((doc rev).trouble ≡ some (stopped rev, db_changed))
    × (stopped rev < length d.prefixes)
    × (d.reopens rev ≡ true)
    × Changes d doc stopped k (rev + 1)

abbrev pub wrote_lines : Dump → List Bytes → ℕ → Dumped → Dumped
wrote_lines d ls rev p = record {
  out = p.out ++ lines (ibx_line d.ibx_id) ls;
  nr_out = p.nr_out + length ls;
  rev = rev;
}

tries_whole :
    (d : Dump) (doc : DocRef) (t : ℕ) (p : Dumped)
    → SkipsTo d.skip_to
    → ReadsInOrder doc
    → (doc p.rev).trouble ≡ none
    → dump_tries d doc (suc t) p
      ≡ (wrote_lines d (all_matching (doc p.rev).terms d.prefixes) p.rev p, false)
unfolding dump_tries dump_ibx_iter scanned
tries_whole d doc t p sk so n = ground (
  arith,
  n,
  dump_prefixes_lem d.skip_to d.ibx_id (doc p.rev).terms d.prefixes p.out p.nr_out sk (so p.rev),
)

tries_changed :
    (d : Dump) (doc : DocRef) (m t : ℕ) (p : Dumped)
    → SkipsTo d.skip_to
    → ReadsInOrder doc
    → (doc p.rev).trouble ≡ some (m, db_changed)
    → m < length d.prefixes
    → d.reopens p.rev ≡ true
    → dump_tries d doc (suc t) p
      ≡ dump_tries d doc t
          (wrote_lines d (all_matching (doc p.rev).terms (take m d.prefixes)) (p.rev + 1) p)
unfolding dump_tries dump_ibx_iter scanned
tries_changed d doc m t p sk so c l o = ground (
  arith,
  c,
  o,
  dump_prefixes_lem d.skip_to d.ibx_id (doc p.rev).terms (take m d.prefixes) p.out p.nr_out sk
      (so p.rev),
)

wrote_lines-append :
    (d : Dump) (xs ys : List Bytes) (r q : ℕ) (p : Dumped)
    → wrote_lines d ys r (wrote_lines d xs q p) ≡ wrote_lines d (xs ++ ys) r p
wrote_lines-append d xs ys r q p =
    let line = ibx_line d.ibx_id in
    ground (
      arith,
      lines-append line xs ys,
      length-append xs ys,
      append_assoc p.out (lines line xs) (lines line ys),
    )

-- A document that changes fewer than t times and is then, at the revision r, read whole is dumped
-- whole, behind what the readings before had given, and every line is counted.
pub dump_tries-partials :
    (d : Dump) (doc : DocRef) (stopped : ℕ → ℕ) (k t r : ℕ) (p : Dumped)
    → SkipsTo d.skip_to
    → ReadsInOrder doc
    → k < t
    → r ≡ p.rev + k
    → Changes d doc stopped k p.rev
    → (doc r).trouble ≡ none
    → dump_tries d doc t p ≡ (
      wrote_lines d
          (partials doc stopped d.prefixes k p.rev ++ all_matching (doc r).terms d.prefixes)
          r
          p,
      false,
    )
unfolding partials
dump_tries-partials d doc stopped k zero r p sk so l e c n = absurd (omega arith)
dump_tries-partials d doc stopped zero (suc t) r p sk so l e c n =
    let same_rev : r ≡ p.rev = omega arith in
    tries_whole d doc t p sk so (subst (λ y. (doc y).trouble ≡ none) same_rev n)
    ∙ ap (λ x. (wrote_lines d (all_matching (doc x).terms d.prefixes) x p, false)) (sym same_rev)
dump_tries-partials d doc stopped (suc k) (suc t) r p sk so l e c n =
    let xs = all_matching (doc p.rev).terms (take (stopped p.rev) d.prefixes) in
    let ys = partials doc stopped d.prefixes k (p.rev + 1) in
    let zs = all_matching (doc r).terms d.prefixes in
    tries_changed d doc (stopped p.rev) t p sk so c.0 c.1 c.2
    ∙ dump_tries-partials d doc stopped k t r (wrote_lines d xs (p.rev + 1) p) sk so (omega arith)
        (omega arith) c.3 n
    ∙ ap (λ x. (x, false))
        (wrote_lines-append d xs (ys ++ zs) r (p.rev + 1) p
          ∙ ap (λ ls. wrote_lines d ls r p) (sym (append_assoc xs ys zs)))

-- Each document is read whole at once.
abbrev pub AllWhole : List DocRef → Type 0
AllWhole = All (λ doc. ReadsInOrder doc × ((doc 0).trouble ≡ none))

unfoldable pub docs_lines : List DocRef → List (Bytes × ℕ) → List Bytes
docs_lines [] ps = []
docs_lines (doc ∷ docs) ps = all_matching (doc 0).terms ps ++ docs_lines docs ps

dump_docs-docs_lines :
    (d : Dump) (docs : List DocRef) (p : Dumped)
    → SkipsTo d.skip_to
    → AllWhole docs
    → p.rev ≡ 0
    → dump_docs d docs p ≡ (wrote_lines d (docs_lines docs d.prefixes) 0 p, false)
unfolding dump_docs docs_lines lines
dump_docs-docs_lines d [] p sk a e = ground (arith, append-nil p.out, e)
dump_docs-docs_lines d (doc ∷ docs) p sk a e =
    let xs = all_matching (doc 0).terms d.prefixes in
    let n = subst (λ y. (doc y).trouble ≡ none) (sym e) a.0.1 in
    let first : dump_tries d doc 10 p ≡ (wrote_lines d xs 0 p, false) =
      tries_whole d doc 9 p sk a.0.0 n
      ∙ ap (λ x. (wrote_lines d (all_matching (doc x).terms d.prefixes) x p, false)) e in
    ground (
      arith,
      first,
      dump_docs-docs_lines d docs (wrote_lines d xs 0 p) sk a.1 refl,
      wrote_lines-append d xs (docs_lines docs d.prefixes) 0 0 p,
    )

-- Where the query gives documents that are all read whole at once, cmd_dump_ibx writes for each, in
-- order, a line for every term with one of the prefixes and its length, and for each prefix in
-- order; the second stream gets the number of documents and of these lines.
pub cmd_dump_ibx-docs_lines :
    (v : DumpEnv DocRef) (req : Req) (ibx_id qry pfx : Bytes) (pfxs args : List Bytes)
    (docs : List DocRef)
    → SkipsTo v.skip_to
    → v.has_err ≡ true
    → req.pfxv ≡ pfx ∷ pfxs
    → mail_mset v.answers v.has_threadid (by_docid req) v.qp_flags qry 0 ≡ got docs
    → AllWhole docs
    → (ls : List Bytes) × (ls ≡ docs_lines docs (term_length_extract v.strtoull (pfx ∷ pfxs)))
      × (cmd_dump_ibx v req (ibx_id ∷ qry ∷ args)
          ≡ ok (record {
            out = lines (ibx_line ibx_id) ls;
            err =
                stats_size
                ++ (v.show (length docs) ++ (stats_nr_out ++ (v.show (length ls) ++ (10 ∷ []))));
            returned = some true;
          }))
unfolding cmd_dump_ibx finish_ibx emit_mset_stats
cmd_dump_ibx-docs_lines v req ibx_id qry pfx pfxs args docs sk h q m a =
    let ps = term_length_extract v.strtoull (pfx ∷ pfxs) in
    let d : Dump = record {
      skip_to = v.skip_to;
      reopens = v.reopens;
      ibx_id = ibx_id;
      prefixes = ps;
    } in
    let p : Dumped = record { out = []; nr_out = 0; rev = 0 } in
    (docs_lines docs ps, refl, ground (arith, h, q, m, dump_docs-docs_lines d docs p sk a refl))
