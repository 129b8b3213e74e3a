-- ===== src/Thread.antt =====
-- lib/PublicInbox/xh_thread_fp.h: the `thread:` operator of a query, which selects every message of
-- the threads that some messages are in. Xapian is a parameter: the parser, the results of a query,
-- what the document of a result gives at a revision of the database, and the exceptions of all this.
pub mod Expand
mod Tests
use public_inbox.Query.{
  threadid_column, nothing, parsed, term, either, same, Column, Query, got, modified, thrown, Got,
}
use public_inbox.Base.{
  leb, ◌==◌, if◌then◌else◌, length, take, drop, ℕ, zero, suc, ◌+◌, ◌-◌, Bool, true, false, not,
  ◌||◌, Option, none, some, List, [], ◌∷◌,
}
use public_inbox.Args.{Bytes}

-- Reading the document of a result and its value in the column: the value, a database that has
-- changed, a document that is gone, or another exception.
pub data Value : Type 0 where
  value : Bytes → Value
  changed : Value
  not_found : Value
  other_error : Value

-- enum exc_iter, with the query so far, or an exception that goes on to the caller; ITER_ABORT is never
-- returned here.
pub data ExcIter : Type 0 where
  iter_ok iter_retry : Query → ExcIter
  iter_throws : ExcIter

-- xpand_col_iter, for what the document gives and whether a reopen would work.
unfoldable pub xpand_col_iter : Bool → Query → Column → Value → ExcIter
xpand_col_iter reopen_works xqry column (value val) = iter_ok (either xqry (same column val))
xpand_col_iter reopen_works xqry column changed =
    if reopen_works then iter_retry xqry else iter_throws
xpand_col_iter reopen_works xqry column not_found = iter_ok xqry
xpand_col_iter reopen_works xqry column other_error = iter_throws

-- What Xapian gives: whether parse_query takes a string or throws; the results of a query, one for each value of the column, or an exception; of a
-- result its document at a revision of the database; and whether the reopen of a revision works.
pub record Searcher : Type 0 where
  pub parses : Bytes → Bool
  pub get_mset : Query → Got (List (ℕ → Value))
  pub reopens : ℕ → Bool

-- `for (int t = 10; t > 0; --t)` for one result, with t tries left: the query and the revision,
-- which each reopening raises. `none` is an exception.
unfoldable pub xpand_tries : Searcher → Column → (ℕ → Value) → ℕ → Query → ℕ → Option (Query × ℕ)
unfolding xpand_col_iter
xpand_tries x column doc zero xqry rev = some (xqry, rev)
xpand_tries x column doc (suc t) xqry rev =
    let retry = xpand_tries x column doc t xqry (rev + 1) in
    elim (xpand_col_iter (x.reopens rev) xqry column (doc rev)) [
      | iter_ok q ↦ some (q, rev)
      | iter_retry q ↦ retry
      | iter_throws ↦ none
    ]

-- The loop over the results.
unfoldable pub xpand_loop : Searcher → Column → List (ℕ → Value) → Query → ℕ → Option Query
unfolding xpand_tries
xpand_loop x column [] xqry rev = some xqry
xpand_loop x column (doc ∷ docs) xqry rev = elim (xpand_tries x column doc 10 xqry rev) [
  | none ↦ none
  | some (q, r) ↦ xpand_loop x column docs q r
]

-- An exception of get_mset is not caught, DatabaseModifiedError neither.
unfoldable pub qry_xpand_col : Searcher → Query → Column → ℕ → Option Query
unfolding xpand_loop
qry_xpand_col x qry column rev = elim (x.get_mset qry) [
  | got docs ↦ xpand_loop x column docs nothing rev
  | modified ↦ none
  | thrown ↦ none
]

-- `str.at(str.size() - 1) != '}'`
abbrev pub ends_brace : Bytes → Bool
ends_brace [] = false
ends_brace (c ∷ []) = c == b'}'
ends_brace (c ∷ d ∷ s) = ends_brace (d ∷ s)

-- `str.substr(1, str.size() - 2)` of a string of two bytes or more.
abbrev pub inside : Bytes → Bytes
inside s = take (length s - 2) (drop 1 s)

-- The query whose threads are wanted. `none` is an exception: str.at(0) of an empty string throws
-- out_of_range, and a missing brace, or what parse_query does not take, a QueryParserError.
unfoldable pub thread_query : Searcher → ℕ → Bytes → Option Query
thread_query x qp_flags [] = none
thread_query x qp_flags (c ∷ s) = elim (c == b'{') [
  | false ↦ some (either (term (b'Q' ∷ c ∷ s)) (term (b'X' ∷ b'R' ∷ b'F' ∷ c ∷ s)))
  | true ↦ elim (leb (length (c ∷ s)) 1 || not (ends_brace (c ∷ s))) [
    | true ↦ none
    | false ↦ if x.parses (inside (c ∷ s)) then some (parsed (inside (c ∷ s)) qp_flags) else none
  ]
]

-- ThreadFieldProcessor::operator().
unfoldable pub thread_operator : Searcher → ℕ → Bytes → ℕ → Option Query
unfolding thread_query qry_xpand_col
thread_operator x qp_flags str rev = elim (thread_query x qp_flags str) [
  | none ↦ none
  | some qry ↦ qry_xpand_col x qry threadid_column rev
]
