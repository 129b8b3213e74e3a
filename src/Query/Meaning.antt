-- ===== src/Query/Meaning.antt =====
-- Which documents the queries select.
use public_inbox.Query.{
  uid_column, threadid_column, nothing, parsed, term, filter, either, range, same, got, roots_loop,
  with_letter, Column, commit_query, Query, mail_query, apply_roots_filter, roots_tries,
  roots_query, Postings, filter_key, filter_uid, filter_threadid, to_double,
}
use public_inbox.Options.{ullong_max, Req, same_bytes}
use public_inbox.Terms.{starts_with}
use public_inbox.Base.{
  leb, ◌==◌, if◌then◌else◌, or_false, or_assoc, ℕ, ◌^◌, ◌<◌, ◌≡◌, refl, ap, ◌∙◌, ◌⊎◌, Bool, true,
  false, ◌&&◌, ◌||◌, Option, none, some, List, [], ◌∷◌, arith,
}
use public_inbox.Args.{Bytes}

-- A document: which parsed strings it matches, which terms it has, and its columns, as numbers and
-- as the strings that are stored.
pub record Doc : Type 0 where
  pub matches : Bytes → ℕ → Bool
  pub has_term : Bytes → Bool
  pub column : Column → ℕ
  pub stored : Column → Bytes

-- Xapian's boolean meaning of a query.
unfoldable pub selects : Query → Doc → Bool
selects nothing d = false
selects (parsed s flags) d = d.matches s flags
selects (term t) d = d.has_term t
selects (filter q r) d = selects q d && selects r d
selects (either q r) d = selects q d || selects r d
selects (range c lo hi) d = leb lo (d.column c) && leb (d.column c) hi
selects (same c v) d = same_bytes v (d.stored c)

abbrev pub key_wanted : Option Bytes → Doc → Bool
key_wanted none d = true
key_wanted (some key) d = d.has_term (with_letter b'O' key)

-- Not given, or exact as a double.
abbrev pub Exact : ℕ → Type 0
Exact id = (id ≡ ullong_max) ⊎ (id < 2 ^ 53)

to_double-exact : (n : ℕ) → n < 2 ^ 53 → to_double n ≡ n
unfolding to_double
to_double-exact n l = ground arith

abbrev pub uid_wanted : ℕ → ℕ → Doc → Bool
uid_wanted lo hi d =
    (lo == ullong_max)
    || (hi == ullong_max)
    || (leb lo (d.column uid_column) && leb (d.column uid_column) hi)

abbrev pub thread_wanted : ℕ → Doc → Bool
thread_wanted t d = (t == ullong_max) || (d.column threadid_column == t)

and_true : (b : Bool) → b ≡ b && true
and_true true = refl
and_true false = refl

filter_key-selects :
    (key : Option Bytes) (q : Query) (d : Doc)
    → selects (filter_key key q) d ≡ selects q d && key_wanted key d
unfolding selects
filter_key-selects none q d = and_true (selects q d)
filter_key-selects (some key) q d = refl

filter_uid-selects :
    (lo hi : ℕ) (q : Query) (d : Doc)
    → Exact lo
    → Exact hi
    → selects (filter_uid lo hi q) d ≡ selects q d && uid_wanted lo hi d
unfolding selects
filter_uid-selects lo hi q d a b =
    ground (arith, and_true (selects q d), to_double-exact lo, to_double-exact hi)

filter_threadid-selects :
    (t : ℕ) (q : Query) (d : Doc)
    → Exact t
    → selects (filter_threadid t q) d ≡ selects q d && thread_wanted t d
unfolding selects
filter_threadid-selects t q d a = ground (arith, and_true (selects q d), to_double-exact t)

-- For ids below 2^53, which are exact as doubles, the query of mail_mset selects exactly the documents that match the user's query and, each where
-- the request gives it, have the external index's key, a UID in the range and the thread's id; a
-- range of which one end is missing is ignored.
pub mail_query-selects :
    (req : Req) (qp_flags : ℕ) (s : Bytes) (d : Doc)
    → Exact req.uid_min
    → Exact req.uid_max
    → Exact req.threadid
    → selects (mail_query req qp_flags s) d
      ≡ ((d.matches s qp_flags && key_wanted req.eidx_key d)
          && uid_wanted req.uid_min req.uid_max d)
        && thread_wanted req.threadid d
unfolding mail_query selects
mail_query-selects req qp_flags s d lo hi t =
    let q = parsed s qp_flags in
    let r = filter_key req.eidx_key q in
    filter_threadid-selects req.threadid (filter_uid req.uid_min req.uid_max r) d t
    ∙ ap (λ b. b && thread_wanted req.threadid d)
        (filter_uid-selects req.uid_min req.uid_max r d lo hi
          ∙ ap (λ b. b && uid_wanted req.uid_min req.uid_max d)
              (filter_key-selects req.eidx_key q d))

-- Whether one of the terms that start with "G" is a term of the document.
unfoldable pub shares_root : List Bytes → Doc → Bool
shares_root [] d = false
shares_root (t ∷ ts) d =
    if starts_with t (b'G' ∷ []) then d.has_term t || shares_root ts d else shares_root ts d

roots_loop-selects :
    (f : Query) (ts : List Bytes) (d : Doc)
    → selects (roots_loop f ts) d ≡ (selects f d || shares_root ts d)
unfolding roots_loop selects shares_root
roots_loop-selects f [] d = or_false (selects f d)
roots_loop-selects f (t ∷ ts) d = ground (
  arith,
  roots_loop-selects (either f (term t)) ts d,
  roots_loop-selects f ts d,
  or_assoc (selects f d) (d.has_term t) (shares_root ts d),
)

-- For a repository whose terms are found, in order, and of which the first from "G" on is a root's:
-- the query of commit_mset selects exactly the commits that match the user's query and share a
-- root with the repository.
pub commit_query-selects :
    (db : Postings) (req : Req) (qp_flags : ℕ) (s : Bytes) (rev : ℕ) (git_dir : Bytes)
    (terms : List Bytes) (root : Bytes) (roots : List Bytes) (d : Doc)
    → req.git_dir ≡ some git_dir
    → db.terms_of rev (with_letter b'P' git_dir) ≡ got (some terms)
    → db.skip_to (b'G' ∷ []) terms ≡ root ∷ roots
    → starts_with root (b'G' ∷ []) ≡ true
    → (q : Query) × (commit_query db req qp_flags s rev ≡ some q)
      × (selects q d
          ≡ (d.matches s qp_flags && shares_root (root ∷ roots) d) && d.has_term (b'T' ∷ b'c' ∷ []))
unfolding commit_query apply_roots_filter roots_tries roots_query selects shares_root
commit_query-selects db req qp_flags s rev git_dir terms root roots d a b c e = (
  filter (filter (parsed s qp_flags) (roots_loop (term root) roots)) (term (b'T' ∷ b'c' ∷ [])),
  ground (arith, a, b, c),
  ground (arith, roots_loop-selects (term root) roots d, e),
)
