-- ===== src/DumpRoots/Flushes.antt =====
-- What is sent in the end does not depend on when the buffer is flushed.
use public_inbox.DumpRoots.{
  goes_on, RootsDump, roots_prefixes, dump_roots_flush, Dumping, dump_roots_tries, dump_roots_iter,
  dump_roots_docs, flush_due,
}
use public_inbox.RootIds.{Table}
use public_inbox.Terms.Scan.{lines, matching, dump_roots_term-matching}
use public_inbox.DumpIbx.{iter_ok, DocRef, scanned, Reading}
use public_inbox.DumpIbx.Lines.{all_matching, ReadsInOrder, lines-append}
use public_inbox.RootIds.Offsets.{spaced, Finds, root2offs_str-spaced}
use public_inbox.Terms.Order.{SkipsTo, IsSorted}
use public_inbox.Terms.{Skip}
use public_inbox.Locks.{flock_loop}
use public_inbox.Mset.Sending.{sends_all, Writes}
use public_inbox.Base.{
  ◌==◌, Bool-cases, length, All, length-append, ok, ℕ, ◌+◌, ◌^◌, ◌<◌, ◌≡◌, refl, sym, ap, ◌∙◌, inl,
  inr, Bool, true, none, some, List, [], ◌∷◌, ◌++◌, append-nil, append_assoc, arith,
}
use public_inbox.Args.{Bytes}

-- The lines of a commit with these root numbers.
abbrev pub commit_text : List Bytes → List Bytes → List (Bytes × ℕ) → Bytes
commit_text terms vs ps = lines (λ s. s ++ spaced vs) (all_matching terms ps)

-- Commits, each with its root numbers.
abbrev pub Commits : Type 0
Commits = List (DocRef × List Bytes)

abbrev pub docs_of : Commits → List DocRef
docs_of [] = []
docs_of ((doc, vs) ∷ cs) = doc ∷ docs_of cs

unfoldable pub commits_text : Commits → List (Bytes × ℕ) → Bytes
commits_text [] ps = []
commits_text ((doc, vs) ∷ cs) ps = commit_text (doc 0).terms vs ps ++ commits_text cs ps

unfoldable pub count_lines : Commits → List (Bytes × ℕ) → ℕ
count_lines [] ps = 0
count_lines ((doc, vs) ∷ cs) ps = length (all_matching (doc 0).terms ps) + count_lines cs ps

-- Every commit is read whole at once, and the table has the numbers of its roots.
abbrev pub AllNumbered : Table → Commits → Type 0
AllNumbered tbl = All (λ c.
    ReadsInOrder c.0
    × ((c.0 0).trouble ≡ none)
    × Finds tbl (matching (b'G' ∷ []) 0 (c.0 0).terms) c.1)

-- Locks are got and given back, and writes make progress.
pub record Flows (d : RootsDump) : Type 0 where
  pub skips : SkipsTo d.skip_to
  pub locked_at : (i : ℕ) → flock_loop (d.locks i) ≡ some true
  pub unlocked_at : (i : ℕ) → flock_loop (d.unlocks i) ≡ some true
  pub writes : Writes d.calls

pub roots_prefixes_lem :
    (skip_to : Skip) (offs : Bytes) (terms : List Bytes) (ps : List (Bytes × ℕ)) (buf : Bytes)
    (nr : ℕ)
    → SkipsTo skip_to
    → IsSorted terms
    → roots_prefixes skip_to offs terms ps buf nr
      ≡ (buf ++ lines (λ s. s ++ offs) (all_matching terms ps), nr + length (all_matching terms ps))
unfolding roots_prefixes all_matching lines
roots_prefixes_lem skip_to offs terms [] buf nr k s = ground (arith, append-nil buf)
roots_prefixes_lem skip_to offs terms ((pfx, len) ∷ ps) buf nr k s =
    let ms = matching pfx len terms in
    let rest = all_matching terms ps in
    let line : Bytes → Bytes = λ x. x ++ offs in
    ground (
      arith,
      dump_roots_term-matching skip_to offs pfx len terms buf nr k s,
      roots_prefixes_lem skip_to offs terms ps (buf ++ lines line ms) (nr + length ms) k s,
      lines-append line ms rest,
      length-append ms rest,
      append_assoc buf (lines line ms) (lines line rest),
    )

module _ (d : RootsDump) (f : Flows d) where
  iter_lem :
      (r : Reading) (vs : List Bytes) (reopened : Bool) (buf : Bytes) (nr : ℕ)
      → IsSorted r.terms
      → r.trouble ≡ none
      → Finds d.table (matching (b'G' ∷ []) 0 r.terms) vs
      → dump_roots_iter d.skip_to d.table d.prefixes r reopened buf nr
        ≡ ok (
          iter_ok,
          buf ++ commit_text r.terms vs d.prefixes,
          nr + length (all_matching r.terms d.prefixes),
        )
  unfolding dump_roots_iter scanned
  iter_lem r vs reopened buf nr s n g = ground (
    arith,
    n,
    root2offs_str-spaced d.skip_to d.table r.terms vs f.skips s g,
    roots_prefixes_lem d.skip_to (spaced vs) r.terms d.prefixes buf nr f.skips s,
  )

  tries_lem :
      (doc : DocRef) (vs : List Bytes) (s : Dumping)
      → s.rev ≡ 0
      → ReadsInOrder doc
      → (doc 0).trouble ≡ none
      → Finds d.table (matching (b'G' ∷ []) 0 (doc 0).terms) vs
      → dump_roots_tries d doc 10 s
        ≡ ok (
          goes_on,
          record s {
            buf = s.buf ++ commit_text (doc 0).terms vs d.prefixes;
            nr_out = s.nr_out + length (all_matching (doc 0).terms d.prefixes);
          },
        )
  unfolding dump_roots_tries
  tries_lem doc vs s e o n g =
      ground (arith, e, iter_lem (doc 0) vs (d.reopens 0) s.buf s.nr_out (o 0) n g)

  -- What a flush leaves.
  abbrev Flushed : Dumping → Dumping → Type 0
  Flushed s t = (t.sent ≡ s.sent ++ s.buf) × (t.buf ≡ []) × (t.nr_out ≡ s.nr_out) × (t.rev ≡ s.rev)

  flush_lem :
      (s : Dumping)
      → length s.buf < 2 ^ 64
      → (t : Dumping) × (dump_roots_flush d s ≡ ok (goes_on, t)) × Flushed s t
  unfolding dump_roots_flush
  flush_lem s l = elim (Bool-cases (length s.buf == 0)) [
    | inl z ↦
        let e : s.buf ≡ [] = ground arith in
        (s, ground arith, (sym (append-nil s.sent) ∙ ap (λ b. s.sent ++ b) (sym e), e, refl, refl))
    | inr n ↦ (
      record s { buf = []; sent = s.sent ++ s.buf; flushes = s.flushes + 1 },
      ground (
        arith,
        n,
        f.locked_at s.flushes,
        f.unlocked_at s.flushes,
        sends_all d.calls s.buf s.flushes f.writes (ground arith) l,
      ),
      (refl, refl, refl, refl),
    )
  ]

  -- From a state with room for the text to come, everything is sent, in order, and counted.
  pub dump_roots_docs-commits_text :
      (cs : Commits) (s : Dumping)
      → s.rev ≡ 0
      → AllNumbered d.table cs
      → length s.buf + length (commits_text cs d.prefixes) < 2 ^ 64
      → (t : Dumping) × (dump_roots_docs d (docs_of cs) s ≡ ok (goes_on, t))
        × (t.sent ≡ s.sent ++ (s.buf ++ commits_text cs d.prefixes))
        × (t.nr_out ≡ s.nr_out + count_lines cs d.prefixes)
  unfolding dump_roots_docs commits_text count_lines
  dump_roots_docs-commits_text [] s e a l =
      let (t, r, (x, y, z, w)) = flush_lem s (omega arith) in
      (t, r, x ∙ ap (λ b. s.sent ++ b) (sym (append-nil s.buf)), omega (arith, z))
  dump_roots_docs-commits_text ((doc, vs) ∷ cs) s e a l =
      let text = commit_text (doc 0).terms vs d.prefixes in
      let more = commits_text cs d.prefixes in
      let n = length (all_matching (doc 0).terms d.prefixes) in
      let s1 : Dumping = record s { buf = s.buf ++ text; nr_out = s.nr_out + n } in
      let first = tries_lem doc vs s e a.0.0 a.0.1 a.0.2 in
      let both = length-append text more in
      let grown = length-append s.buf text in
      elim (Bool-cases (flush_due (s.nr_out + n))) [
        | inr keep ↦
            let (t, r, x, y) =
              dump_roots_docs-commits_text cs s1 e a.1 (omega (arith, both, grown)) in
            (
              t,
              ground (arith, first, keep, r),
              x ∙ ap (λ b. s.sent ++ b) (append_assoc s.buf text more),
              omega (arith, y),
            )
        | inl due ↦
            let (u, q, (x, b, z, w)) = flush_lem s1 (omega (arith, both, grown)) in
            let empty : length u.buf ≡ 0 = ap length b in
            let (t, r, v, y) =
              dump_roots_docs-commits_text cs u (w ∙ e) a.1 (omega (arith, both, empty)) in
            (
              t,
              ground (arith, first, due, q, r),
              ground (
                arith,
                v,
                x,
                b,
                append_assoc s.sent (s.buf ++ text) more,
                append_assoc s.buf text more,
              ),
              omega (arith, y, z),
            )
      ]
