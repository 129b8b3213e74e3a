-- ===== src/Mset.antt =====
-- cmd_mset of lib/PublicInbox/xh_mset.h: the queries of a request are tried in turn, and the results
-- of one are written. What a query gives, how "%llu" and "%d" print a number, and the results of
-- the write calls are parameters; the buffer is the bytes written to the stream since it was last
-- rewound.
pub mod Sending
pub mod Tests
use public_inbox.Query.{got, modified, thrown, Got}
use public_inbox.Output.{write_all, Write}
use public_inbox.Base.{
  ltb, ◌==◌, if◌then◌else◌, length, Run, ◌>>=◌, aborts, ok, stop, ℕ, ◌+◌, Bool, true, false, not,
  ◌&&◌, Option, none, some, List, [], ◌∷◌, ◌++◌,
}
use public_inbox.Args.{Bytes}

pub record Row : Type 0 where
  pub docid : ℕ
  pub percent : ℕ
  pub rank : ℕ

-- A Xapian::MSet.
pub record Results : Type 0 where
  pub rows : List Row
  pub estimated : ℕ

abbrev pub no_results : Results
no_results = record { rows = []; estimated = 0 }

-- Whether `optind >= req->argc`, for the queries that are left.
abbrev pub is_last : List (Got Results) → Bool
is_last [] = true
is_last (q ∷ qs) = false

-- The `do` loop, for the results of the queries from the next on and the last set of results;
-- `none` is an exception that leaves the function.
unfoldable pub try_queries : Results → List (Got Results) → Option Results
try_queries last [] = some last
try_queries last (got r ∷ qs) =
    let next = try_queries r qs in if (length r.rows == 0) && not (is_last qs) then next else some r
try_queries last (modified ∷ qs) =
    let next = try_queries last qs in if is_last qs then none else next
try_queries last (thrown ∷ qs) = let next = try_queries last qs in if is_last qs then none else next

-- "mset.size="
abbrev pub size_text : Bytes
size_text = 109 ∷ 115 ∷ 101 ∷ 116 ∷ 46 ∷ 115 ∷ 105 ∷ 122 ∷ 101 ∷ 61 ∷ []

-- " .get_matches_estimated="
abbrev pub estimated_text : Bytes
estimated_text =
    32 ∷ 46 ∷ 103 ∷ 101 ∷ 116 ∷ 95 ∷ 109 ∷ 97 ∷ 116 ∷ 99 ∷ 104 ∷ 101 ∷ 115 ∷ 95 ∷ 101 ∷ 115 ∷ 116
    ∷ 105 ∷ 109 ∷ 97 ∷ 116 ∷ 101 ∷ 100 ∷ 61 ∷ []

-- "mset.size=%llu .get_matches_estimated=%llu\n"
abbrev pub mset_line : (ℕ → Bytes) → Results → Bytes
mset_line show r =
    size_text ++ (show (length r.rows) ++ (estimated_text ++ (show r.estimated ++ (10 ∷ []))))

-- "%llu" "%c" "%d" "%c" "%llu\n", with NULs for the characters
abbrev pub row_line : (ℕ → Bytes) → Row → Bytes
row_line show r = show r.docid ++ (0 ∷ (show r.percent ++ (0 ∷ (show r.rank ++ (10 ∷ [])))))

-- The results of write(2) in the i-th call of write_all, for `len` bytes.
abbrev pub Calls : Type 0
Calls = ℕ → ℕ → List Write

-- The loop over the results and what follows it, with the buffer, the number of calls of write_all
-- so far and what they sent. The first part is what the function returns, or `none` while a write
-- waits.
unfoldable pub write_rows :
    (ℕ → Bytes) → Calls → ℕ → List Row → Bytes → ℕ → Bytes → Run (Option Bool × Bytes)
write_rows show calls threshold [] buf i out =
    if ltb 0 (length buf)
    then (write_all buf (length buf) (calls i (length buf)) >>= λ r. ok (r.0, out ++ r.1))
    else ok (some true, out)
write_rows show calls threshold (row ∷ rows) buf i out =
    let keep = write_rows show calls threshold rows (buf ++ row_line show row) i out in
    elim (ltb threshold (length buf)) [
      | false ↦ keep
      | true ↦ write_all buf (length buf) (calls i (length buf)) >>= λ r. elim r.0 [
        | none ↦ ok (none, out ++ r.1)
        | some done ↦ elim done [
          | false ↦ ok (some false, out ++ r.1)
          | true ↦ write_rows show calls threshold rows (row_line show row) (i + 1) (out ++ r.1)
        ]
      ]
    ]

-- The inner `none` is the exception. WBUF_FLUSH_THRESHOLD is a parameter too.
unfoldable pub cmd_mset :
    (ℕ → Bytes) → Calls → ℕ → List (Got Results) → Run (Option (Option Bool × Bytes))
unfolding try_queries write_rows
cmd_mset show calls threshold [] = stop aborts
cmd_mset show calls threshold (q ∷ qs) = elim (try_queries no_results (q ∷ qs)) [
  | none ↦ ok none
  | some r ↦ write_rows show calls threshold r.rows (mset_line show r) 0 [] >>= λ x. ok (some x)
]
