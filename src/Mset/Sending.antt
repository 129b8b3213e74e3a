-- ===== src/Mset/Sending.antt =====
-- What is sent, and which query's results they are.
use public_inbox.Mset.{
  Calls, Row, write_rows, row_line, Results, cmd_mset, try_queries, mset_line, is_last, no_results,
}
use public_inbox.Output.Writes.{Accepts, write_all-Progress, Progress}
use public_inbox.Output.{write_all}
use public_inbox.Query.{got, modified, thrown, Got}
use public_inbox.Base.{
  ltb, Bool-cases, length, take, All, length-append, ok, ℕ, ◌+◌, ◌^◌, ◌≤◌, ◌<◌, ◌≡◌, refl, ap, ◌∙◌,
  ◌⊎◌, inl, inr, true, false, some, List, [], ◌∷◌, ◌++◌, append-nil, append_assoc, arith,
}
use public_inbox.Args.{Bytes}

unfoldable pub row_lines : (ℕ → Bytes) → List Row → Bytes
row_lines show [] = []
row_lines show (row ∷ rows) = row_line show row ++ row_lines show rows

-- Every call of write takes at least one byte and at most what it is given, and there are as many
-- as there are bytes.
abbrev pub Writes : Calls → Type 0
Writes calls =
    (i len : ℕ) → (len ≤ length (calls i len)) × Accepts (calls i len) len × Progress (calls i len)

take-length : (s : Bytes) → take (length s) s ≡ s
take-length [] = refl
take-length (x ∷ s) = ap (◌∷◌ x) (take-length s)

pub sends_all :
    (calls : Calls) (buf : Bytes) (i : ℕ)
    → Writes calls
    → 0 < length buf
    → length buf < 2 ^ 64
    → write_all buf (length buf) (calls i (length buf)) ≡ ok (some true, buf)
sends_all calls buf i w z l =
    let (n, a, p) = w i (length buf) in
    write_all-Progress buf (length buf) (calls i (length buf)) z l (omega arith) n a p
    ∙ ap (λ s. ok (some true, s)) (take-length buf)

length-row_line : (show : ℕ → Bytes) (row : Row) → 0 < length (row_line show row)
length-row_line show row = omega (
  arith,
  length-append (show row.docid) (0 ∷ (show row.percent ++ (0 ∷ (show row.rank ++ (10 ∷ []))))),
)

write_rows-row_lines :
    (show : ℕ → Bytes) (calls : Calls) (threshold : ℕ) (rows : List Row) (buf : Bytes) (i : ℕ)
    (out : Bytes)
    → Writes calls
    → 0 < length buf
    → length buf + length (row_lines show rows) < 2 ^ 64
    → write_rows show calls threshold rows buf i out
      ≡ ok (some true, out ++ (buf ++ row_lines show rows))
unfolding write_rows row_lines
write_rows-row_lines show calls threshold [] buf i out w z l =
    ground (arith, sends_all calls buf i w z (omega arith), append-nil buf)
write_rows-row_lines show calls threshold (row ∷ rows) buf i out w z l =
    let line = row_line show row in
    let a : length (row_lines show (row ∷ rows)) ≡ length line + length (row_lines show rows) =
      length-append line (row_lines show rows) in
    elim (Bool-cases (ltb threshold (length buf))) [
      | inl y ↦ ground (
        arith,
        sends_all calls buf i w z (omega arith),
        write_rows-row_lines show calls threshold rows line (i + 1) (out ++ buf) w
            (length-row_line show row) (omega (arith, a)),
        append_assoc out buf (line ++ row_lines show rows),
      )
      | inr n ↦
          let b = length-append buf line in
          ground (
            arith,
            write_rows-row_lines show calls threshold rows (buf ++ line) i out w (omega (arith, b))
                (omega (arith, a, b)),
            append_assoc buf line (row_lines show rows),
          )
    ]

-- A query with no results, or an exception.
abbrev pub IsFruitless : Got Results → Type 0
IsFruitless (got r) = length r.rows ≡ 0
IsFruitless modified = Unit {0}
IsFruitless thrown = Unit {0}

is_last-append :
    (qs : List (Got Results)) (q : Got Results) (rest : List (Got Results))
    → is_last (qs ++ (q ∷ rest)) ≡ false
is_last-append [] q rest = refl
is_last-append (p ∷ qs) q rest = refl

try_queries-chosen :
    (last r : Results) (qs rest : List (Got Results))
    → All IsFruitless qs
    → (0 < length r.rows) ⊎ (rest ≡ [])
    → try_queries last (qs ++ (got r ∷ rest)) ≡ some r
unfolding try_queries
try_queries-chosen last r [] [] h c = ground arith
try_queries-chosen last r [] (q ∷ rest) h (inl m) = ground arith
try_queries-chosen last r [] (q ∷ rest) h (inr e) = absurd cc
try_queries-chosen last r (got s ∷ qs) rest h c =
    ground (arith, h.0, is_last-append qs (got r) rest, try_queries-chosen s r qs rest h.1 c)
try_queries-chosen last r (modified ∷ qs) rest h c =
    ground (arith, is_last-append qs (got r) rest, try_queries-chosen last r qs rest h.1 c)
try_queries-chosen last r (thrown ∷ qs) rest h c =
    ground (arith, is_last-append qs (got r) rest, try_queries-chosen last r qs rest h.1 c)

cmd_mset-chosen :
    (show : ℕ → Bytes) (calls : Calls) (threshold : ℕ) (r : Results) (qs : List (Got Results))
    → Writes calls
    → is_last qs ≡ false
    → try_queries no_results qs ≡ some r
    → length (mset_line show r) + length (row_lines show r.rows) < 2 ^ 64
    → cmd_mset show calls threshold qs
      ≡ ok (some (some true, mset_line show r ++ row_lines show r.rows))
unfolding cmd_mset
cmd_mset-chosen show calls threshold r [] w n e l = absurd cc
cmd_mset-chosen show calls threshold r (q ∷ qs) w n e l = ground (
  arith,
  e,
  write_rows-row_lines show calls threshold r.rows (mset_line show r) 0 [] w (omega arith) l,
)

-- Where every write takes something, the results of the first query that has any, or of the last
-- one if none has, are written whole and in order, whatever the flush threshold: the line with
-- their number and the estimate, and a line for each. Exceptions of the queries before are ignored.
pub cmd_mset_lem :
    (show : ℕ → Bytes) (calls : Calls) (threshold : ℕ) (r : Results) (qs rest : List (Got Results))
    → Writes calls
    → All IsFruitless qs
    → (0 < length r.rows) ⊎ (rest ≡ [])
    → length (mset_line show r) + length (row_lines show r.rows) < 2 ^ 64
    → cmd_mset show calls threshold (qs ++ (got r ∷ rest))
      ≡ ok (some (some true, mset_line show r ++ row_lines show r.rows))
cmd_mset_lem show calls threshold r qs rest w h c l =
    cmd_mset-chosen show calls threshold r (qs ++ (got r ∷ rest)) w (is_last-append qs (got r) rest)
      (try_queries-chosen no_results r qs rest h c) l
