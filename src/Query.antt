-- ===== src/Query.antt =====
-- The queries of lib/PublicInbox/xap_helper.h: mail_mset, commit_mset with apply_roots_filter,
-- prep_enquire and enquire_mset; and the thread: operator of lib/PublicInbox/xh_thread_fp.h. Xapian
-- is a parameter: its query parser, its database (whose state is a revision) and the results of its
-- calls. A query is the tree that the code builds. What reopen does besides the database, to take
-- and release the shared locks, is in Locks.
pub mod Meaning
pub mod Retry
mod Tests
use public_inbox.Options.{ullong_max, Req}
use public_inbox.Terms.{Skip, starts_with}
use public_inbox.Base.{
  ltb, ◌==◌, if◌then◌else◌, ℤ, is_neg, ℕ, zero, suc, ◌+◌, ◌-◌, ◌*◌, ◌/◌, ◌%◌, ◌^◌, Bool, false, not,
  ◌&&◌, ◌||◌, Option, none, some, List, [], ◌∷◌,
}
use public_inbox.Args.{Bytes, cstr}

-- Columns of a document.
pub data Column : Type 0 where
  uid_column threadid_column : Column

-- A parsed string with the parser's flags, a term, the operators that are used, and a range of a
-- column's values, whose bounds are doubles that go through sortable_serialise. `nothing` is
-- Query::MatchNothing.
pub data Query : Type 0 where
  nothing : Query
  parsed : Bytes → ℕ → Query
  term : Bytes → Query
  filter : Query → Query → Query
  either : Query → Query → Query
  range : Column → ℕ → ℕ → Query
  same : Column → Bytes → Query

-- The distance of the doubles around n, for n below 2^64: u 2^k for the first k at which n is below
-- u 2^(53 + k); with `fuel` doublings left.
unfoldable pub double_unit : ℕ → ℕ → ℕ → ℕ
double_unit zero u n = u
double_unit (suc fuel) u n =
    let further = double_unit fuel (u * 2) n in if ltb n (u * 2 ^ 53) then u else further

-- An unsigned long long as a double: the nearest one, and of two the one whose last bit is 0.
unfoldable pub to_double : ℕ → ℕ
unfolding double_unit
to_double n =
    let u = double_unit 11 1 n in
    let q = n / u in
    let r = n % u in
    if ltb n (2 ^ 53)
    then n
    else if ltb u (r * 2) || ((r * 2 == u) && (q % 2 == 1))
    then (q + 1) * u
    else q * u

-- A key that points at the padding before the optarg, with the letter written there; after that a
-- NUL ends it.
abbrev pub with_letter : ℕ → Bytes → Bytes
with_letter c [] = []
with_letter c (pad ∷ arg) = c ∷ cstr arg

abbrev pub filter_key : Option Bytes → Query → Query
filter_key none q = q
filter_key (some key) q = filter q (term (with_letter b'O' key))

abbrev pub filter_uid : ℕ → ℕ → Query → Query
filter_uid uid_min uid_max q =
    if not (uid_min == ullong_max) && not (uid_max == ullong_max)
    then filter q (range uid_column (to_double uid_min) (to_double uid_max))
    else q

abbrev pub filter_threadid : ℕ → Query → Query
filter_threadid threadid q =
    if threadid == ullong_max
    then q
    else filter q (range threadid_column (to_double threadid) (to_double threadid))

-- The query of mail_mset.
unfoldable pub mail_query : Req → ℕ → Bytes → Query
mail_query req qp_flags qry_str =
    filter_threadid req.threadid
      (filter_uid req.uid_min req.uid_max (filter_key req.eidx_key (parsed qry_str qp_flags)))

-- prep_enquire: how the results are sorted; for a negative column by document id, without weights.
pub data Sorting : Type 0 where
  docid_order : Bool → Sorting
  relevance_then_value : ℤ → Bool → Sorting
  value_then_relevance : ℤ → Bool → Sorting

unfoldable pub prep_enquire : Req → Sorting
prep_enquire req =
    if is_neg req.sort_col
    then docid_order req.asc
    else if req.relevance
    then relevance_then_value req.sort_col (not req.asc)
    else value_then_relevance req.sort_col (not req.asc)

-- What a call of Xapian gives: a value, DatabaseModifiedError, or any other exception.
pub data Got (M : Type 0) : Type 0 where
  got : M → Got M
  modified : Got M
  thrown : Got M

-- get_mset at a revision of the database, for an offset and a number of results, and whether the
-- reopen of a revision works.
pub record Database (M : Type 0) : Type 0 where
  pub get_mset : ℕ → ℕ → ℕ → Got M
  pub reopens : ℕ → Bool

-- The `for` loop, with n rounds left, and the last try.
unfoldable pub mset_loop : {M : Type 0} → Database M → ℕ → ℕ → ℕ → ℕ → Got M
mset_loop db off max zero rev = db.get_mset rev off max
mset_loop db off max (suc n) rev =
    let rest = mset_loop db off max n (rev + 1) in
    elim (db.get_mset rev off max) [
      | got m ↦ got m
      | thrown ↦ thrown
      | modified ↦ if db.reopens rev then rest else thrown
    ]

-- UINT_MAX, for a doccount of 32 bits.
abbrev pub at_most_results : ℕ → ℕ
at_most_results max = if max == 0 then 2 ^ 32 - 1 else max

unfoldable pub enquire_mset : {M : Type 0} → Database M → Req → ℕ → Got M
unfolding mset_loop
enquire_mset db req rev = mset_loop db req.off (at_most_results req.max) 9 rev

-- apply_roots_filter, for the terms of the document from "G" on: the loop after the first term.
unfoldable pub roots_loop : Query → List Bytes → Query
roots_loop f [] = f
roots_loop f (tn ∷ ts) =
    if starts_with tn (b'G' ∷ []) then roots_loop (either f (term tn)) ts else roots_loop f ts

unfoldable pub roots_query : List Bytes → Option Query
unfolding roots_loop
roots_query [] = none
roots_query (t ∷ ts) = some (roots_loop (term t) ts)

-- Looking up the document of the P term and its terms at a revision, of which the code reads those
-- from "G" on: `none` is a P term that no document has.
pub record Postings : Type 0 where
  pub terms_of : ℕ → Bytes → Got (Option (List Bytes))
  pub skip_to : Skip
  pub reopens : ℕ → Bool

-- The 9 tries. If they all fail the query stays as it is, as it does with a warning. `none` is an
-- exception that goes on to the caller.
unfoldable pub roots_tries : Postings → Bytes → Query → ℕ → ℕ → Option Query
unfolding roots_query
roots_tries db key qry zero rev = some qry
roots_tries db key qry (suc n) rev =
    let rest = roots_tries db key qry n (rev + 1) in
    elim (db.terms_of rev key) [
      | modified ↦ if db.reopens rev then rest else none
      | thrown ↦ none
      | got none ↦ some qry
      | got (some terms) ↦ elim (roots_query (db.skip_to (b'G' ∷ []) terms)) [
        | none ↦ some qry
        | some f ↦ some (filter qry f)
      ]
    ]

unfoldable pub apply_roots_filter : Postings → Option Bytes → Query → ℕ → Option Query
unfolding roots_tries
apply_roots_filter db none qry rev = some qry
apply_roots_filter db (some git_dir) qry rev = roots_tries db (with_letter b'P' git_dir) qry 9 rev

-- The query of commit_mset: the term "Tc" is that of commits.
unfoldable pub commit_query : Postings → Req → ℕ → Bytes → ℕ → Option Query
unfolding apply_roots_filter
commit_query db req qp_flags qry_str rev =
    elim (apply_roots_filter db req.git_dir (parsed qry_str qp_flags) rev) [
      | none ↦ none
      | some qry ↦ some (filter qry (term (b'T' ∷ b'c' ∷ [])))
    ]

-- What is asked of the database: the query, the order, and whether results are collapsed to one for
-- each thread.
pub record Enquiry : Type 0 where
  pub query : Query
  pub sorting : Sorting
  pub collapsed : Bool

-- The whole of mail_mset, for a string that parses; `has_threadid` is what the database's metadata
-- say, and `db` how it answers an enquiry.
unfoldable pub mail_mset :
    {M : Type 0} → (Enquiry → Database M) → Bool → Req → ℕ → Bytes → ℕ → Got M
unfolding mail_query prep_enquire enquire_mset
mail_mset db has_threadid req qp_flags qry_str rev =
    enquire_mset
      (db (record {
        query = mail_query req qp_flags qry_str;
        sorting = prep_enquire req;
        collapsed = req.collapse_threads && has_threadid;
      }))
      req rev

-- The whole of commit_mset. A revision is counted for each part on its own.
unfoldable pub commit_mset :
    {M : Type 0} → (Enquiry → Database M) → Postings → Req → ℕ → Bytes → ℕ → Got M
unfolding commit_query prep_enquire enquire_mset
commit_mset db postings req qp_flags qry_str rev =
    elim (commit_query postings req qp_flags qry_str rev) [
      | none ↦ thrown
      | some q ↦
          enquire_mset (db (record { query = q; sorting = prep_enquire req; collapsed = false }))
            req rev
    ]
