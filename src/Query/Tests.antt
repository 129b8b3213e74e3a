-- ===== src/Query/Tests.antt =====
-- A message of a small index, and a request with the lower end of a range.
use public_inbox.Query.{got, Postings, mail_query, Query, commit_query, to_double, double_unit}
use public_inbox.Options.{Req, same_bytes, fresh}
use public_inbox.Query.Meaning.{Doc, selects, shares_root, mail_query-selects, commit_query-selects}
use public_inbox.Terms.{starts_with}
use public_inbox.Base.{◌+◌, ◌-◌, ◌^◌, ◌≡◌, refl, inl, inr, true, ◌||◌, some, [], ◌∷◌, arith}
use public_inbox.Args.{cstr}

abbrev message : Doc
message = record {
  matches = λ s flags. true;
  has_term = λ t. starts_with t (b'G' ∷ []) || same_bytes t (b'T' ∷ b'c' ∷ []);
  column = λ c. 5;
  stored = λ c. b'5' ∷ [];
}

-- Only the lower end of a UID range.
abbrev half_range : Req
half_range = record fresh { uid_min = 9; git_dir = some (0 ∷ b'x' ∷ []) }

mail_query-selects_example : selects (mail_query half_range 7 (b'q' ∷ [])) message ≡ true
mail_query-selects_example =
    mail_query-selects half_range 7 (b'q' ∷ []) message (inr (omega arith)) (inl refl) (inl refl)

-- The least number that is no double goes to the even neighbour.
rounded : to_double (2 ^ 53 + 1) ≡ 2 ^ 53
unfolding to_double double_unit
rounded = refl

rounded_up : to_double (2 ^ 64 - 1) ≡ 2 ^ 64
unfolding to_double double_unit
rounded_up = refl

abbrev postings : Postings
postings = record {
  terms_of = λ rev key. got (some ((b'G' ∷ b'1' ∷ []) ∷ key ∷ []));
  skip_to = λ t ts. ts;
  reopens = λ rev. true;
}

commit_query-selects_example :
    (q : Query) × (commit_query postings half_range 7 (b'q' ∷ []) 0 ≡ some q)
    × (selects q message ≡ true)
unfolding starts_with shares_root same_bytes cstr
commit_query-selects_example =
    commit_query-selects postings half_range 7 (b'q' ∷ []) 0 (0 ∷ b'x' ∷ [])
      ((b'G' ∷ b'1' ∷ []) ∷ (b'P' ∷ b'x' ∷ []) ∷ []) (b'G' ∷ b'1' ∷ []) ((b'P' ∷ b'x' ∷ []) ∷ [])
      message refl refl refl refl
