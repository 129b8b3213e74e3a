-- ===== src/Thread/Expand.antt =====
-- Which messages the thread: operator selects.
use public_inbox.Query.{
  threadid_column, nothing, parsed, term, either, Column, Query, got, modified, thrown, same, Got,
}
use public_inbox.Thread.{
  value, changed, not_found, xpand_loop, Value, thread_query, thread_operator, xpand_tries,
  ends_brace, qry_xpand_col, xpand_col_iter, other_error, Searcher,
}
use public_inbox.Query.Meaning.{selects, Doc}
use public_inbox.Options.{same_bytes}
use public_inbox.Base.{
  if◌then◌else◌, Option-cases, or_false, or_assoc, length, take, length-append, ℕ, zero, suc, ◌+◌,
  ◌≡◌, refl, sym, ap, subst, ◌∙◌, ◌≢◌, inl, inr, Bool, true, false, ◌||◌, Option, none, some, List,
  [], ◌∷◌, ◌++◌, arith,
}
use public_inbox.Args.{Bytes}

-- What a document settles to within t tries from a revision: its value if it has one, and the
-- revision then. Nothing comes of a document that is gone, or that changes t times. `none` is an
-- exception, of the document or of a reopen.
unfoldable pub settled : (ℕ → Bool) → (ℕ → Value) → ℕ → ℕ → Option (Option Bytes × ℕ)
settled reopens doc zero rev = some (none, rev)
settled reopens doc (suc t) rev =
    let later = settled reopens doc t (rev + 1) in
    elim (doc rev) [
      | value v ↦ some (some v, rev)
      | not_found ↦ some (none, rev)
      | changed ↦ if reopens rev then later else none
      | other_error ↦ none
    ]

abbrev pub with_value : Option Bytes → List Bytes → List Bytes
with_value none vs = vs
with_value (some v) vs = v ∷ vs

-- The values of the documents, each read in up to ten tries.
unfoldable pub values : (ℕ → Bool) → List (ℕ → Value) → ℕ → Option (List Bytes)
values reopens [] rev = some []
values reopens (doc ∷ docs) rev = elim (settled reopens doc 10 rev) [
  | none ↦ none
  | some (v, r) ↦ elim (values reopens docs r) [ none ↦ none | some vs ↦ some (with_value v vs) ]
]

-- Those of the results of a query.
unfoldable pub found_values : Searcher → Query → ℕ → Option (List Bytes)
found_values x qry rev = elim (x.get_mset qry) [
  | got docs ↦ values x.reopens docs rev
  | modified ↦ none
  | thrown ↦ none
]

-- Whether v is one of the values.
unfoldable pub among : List Bytes → Bytes → Bool
among [] v = false
among (u ∷ us) v = same_bytes u v || among us v

abbrev add_value : Column → Query → Option Bytes → Query
add_value column q none = q
add_value column q (some v) = either q (same column v)

xpand_tries-settled :
    (x : Searcher) (column : Column) (doc : ℕ → Value) (t : ℕ) (q : Query) (rev : ℕ)
    → xpand_tries x column doc t q rev ≡ elim (settled x.reopens doc t rev) [
      | none ↦ none
      | some (v, r) ↦ some (add_value column q v, r)
    ]
unfolding xpand_tries settled xpand_col_iter
xpand_tries-settled x column doc zero q rev = refl
xpand_tries-settled x column doc (suc t) q rev =
    ground (arith, xpand_tries-settled x column doc t q (rev + 1))

-- A query, or an exception, that selects what q does and what has one of the values, or is the
-- exception of reading them.
abbrev pub Selects : Column → Doc → Bool → Option Query → Option (List Bytes) → Type 0
Selects column d before none none = Unit
Selects column d before (some r) (some vs) = selects r d ≡ (before || among vs (d.stored column))
Selects column d before _ _ = ⊥

module _ (x : Searcher) (column : Column) (d : Doc) where
  with_value-Selects :
      (b : Bool) (v : Option Bytes) (r : Option Query) (vs : Option (List Bytes))
      → Selects column d (b || among (with_value v []) (d.stored column)) r vs
      → Selects column d b r (elim vs [ none ↦ none | some us ↦ some (with_value v us) ])
  unfolding among
  with_value-Selects b v none none h = h
  with_value-Selects b v none (some us) h = h
  with_value-Selects b v (some r) none h = h
  with_value-Selects b none (some r) (some us) h =
      h ∙ ap (λ a. a || among us (d.stored column)) (sym (or_false b))
  with_value-Selects b (some v) (some r) (some us) h =
      h
      ∙ ap (λ a. (b || a) || among us (d.stored column))
          (sym (or_false (same_bytes v (d.stored column))))
      ∙ or_assoc b (same_bytes v (d.stored column)) (among us (d.stored column))

  add_value-selects :
      (q : Query) (v : Option Bytes)
      → selects (add_value column q v) d
        ≡ (selects q d || among (with_value v []) (d.stored column))
  unfolding selects among
  add_value-selects q none = or_false (selects q d)
  add_value-selects q (some v) =
      ap (λ a. selects q d || a) (or_false (same_bytes v (d.stored column)))

  Selects-eq :
      (b : Bool) {r r' : Option Query} {vs vs' : Option (List Bytes)}
      → r ≡ r'
      → vs ≡ vs'
      → Selects column d b r' vs'
      → Selects column d b r vs
  Selects-eq b {r = r} {vs' = vs'} e g h =
      subst (Selects column d b r) (sym g) (subst (λ o. Selects column d b o vs') (sym e) h)

  xpand_loop-Selects :
      (docs : List (ℕ → Value)) (q : Query) (rev : ℕ)
      → Selects column d (selects q d) (xpand_loop x column docs q rev) (values x.reopens docs rev)
  unfolding xpand_loop values among
  xpand_loop-Selects [] q rev = or_false (selects q d)
  xpand_loop-Selects (doc ∷ docs) q rev =
      let tries = xpand_tries-settled x column doc 10 q rev in
      let settles : Option (Option Bytes × ℕ) → Option (Query × ℕ) =
        λ o. elim o [ none ↦ none | some (v, r) ↦ some (add_value column q v, r) ] in
      let next : Option (Query × ℕ) → Option Query =
        λ o. elim o [ none ↦ none | some (p, r) ↦ xpand_loop x column docs p r ] in
      let add : Option (Option Bytes × ℕ) → Option (List Bytes) = λ o. elim o [
        | none ↦ none
        | some (v, r) ↦ elim (values x.reopens docs r) [
          | none ↦ none
          | some vs ↦ some (with_value v vs)
        ]
      ] in
      elim (Option-cases (settled x.reopens doc 10 rev)) [
        | inl n ↦
            let a : xpand_loop x column (doc ∷ docs) q rev ≡ none =
              ap next (tries ∙ ap settles n) in
            let b : values x.reopens (doc ∷ docs) rev ≡ none = ap add n in
            Selects-eq (selects q d) a b tt
        | inr ((v, r), s) ↦
            let after = xpand_loop x column docs (add_value column q v) r in
            let a : xpand_loop x column (doc ∷ docs) q rev ≡ after =
              ap next (tries ∙ ap settles s) in
            let more : Option (List Bytes) = elim (values x.reopens docs r) [
              | none ↦ none
              | some us ↦ some (with_value v us)
            ] in
            let b : values x.reopens (doc ∷ docs) rev ≡ more = ap add s in
            Selects-eq (selects q d) a b (
              with_value-Selects (selects q d) v (xpand_loop x column docs (add_value column q v) r)
                (values x.reopens docs r)
                (subst
                  (λ b.
                    Selects column d b (xpand_loop x column docs (add_value column q v) r)
                      (values x.reopens docs r))
                  (add_value-selects q v) (xpand_loop-Selects docs (add_value column q v) r)))
      ]

-- Whatever get_mset gives.
found-Selects :
    (x : Searcher) (rev : ℕ) (d : Doc) (found : Got (List (ℕ → Value)))
    → Selects threadid_column d false
        (elim found [
          | got docs ↦ xpand_loop x threadid_column docs nothing rev
          | modified ↦ none
          | thrown ↦ none
        ])
        (elim found [ got docs ↦ values x.reopens docs rev | modified ↦ none | thrown ↦ none ])
unfolding selects
found-Selects x rev d (got docs) = xpand_loop-Selects x threadid_column d docs nothing rev
found-Selects x rev d modified = tt
found-Selects x rev d thrown = tt

-- For a string that the operator accepts: where the query for the string, a document or a reopen
-- throws, so does the operator; otherwise it selects exactly the messages whose stored thread id is
-- that of one of the results of the query, where each result is read in up to ten tries and none
-- that is gone or changes every time counts.
pub thread_operator-among :
    (x : Searcher) (qp_flags : ℕ) (str : Bytes) (rev : ℕ) (qry : Query) (d : Doc)
    → thread_query x qp_flags str ≡ some qry
    → Selects threadid_column d false (thread_operator x qp_flags str rev) (found_values x qry rev)
unfolding thread_operator qry_xpand_col found_values selects
thread_operator-among x qp_flags str rev qry d e =
    let a : thread_operator x qp_flags str rev ≡ qry_xpand_col x qry threadid_column rev =
      rw (thread_operator, e) refl in
    Selects-eq x threadid_column d false a refl (found-Selects x rev d (x.get_mset qry))

ends_brace-append : (c : ℕ) (s : Bytes) → ends_brace (c ∷ (s ++ (b'}' ∷ []))) ≡ true
ends_brace-append c [] = refl
ends_brace-append c (d ∷ s) = ends_brace-append d s

take-append_length : (s t : Bytes) → take (length s) (s ++ t) ≡ s
take-append_length [] t = refl
take-append_length (x ∷ s) t = ap (◌∷◌ x) (take-append_length s t)

-- A query in braces is parsed without them; a string that does not start with a brace is a message
-- id, of which the message and those that refer to it are wanted.
thread_query_lem :
    (x : Searcher) (qp_flags : ℕ) (s : Bytes) (c : ℕ)
    → x.parses s ≡ true
    → (thread_query x qp_flags (b'{' ∷ (s ++ (b'}' ∷ []))) ≡ some (parsed s qp_flags))
      × ((c ≢ b'{')
          → thread_query x qp_flags (c ∷ s)
            ≡ some (either (term (b'Q' ∷ c ∷ s)) (term (b'X' ∷ b'R' ∷ b'F' ∷ c ∷ s))))
unfolding thread_query
thread_query_lem x qp_flags s c p =
    let two : length (s ++ (b'}' ∷ [])) ≡ suc (length s) =
      length-append s (b'}' ∷ []) ∙ omega arith in
    (
      ground (arith, two, ends_brace-append b'{' s, take-append_length s (b'}' ∷ []), p),
      λ n. ground arith,
    )
