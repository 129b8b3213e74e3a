-- ===== src/Args/Tests.antt =====
-- Requests at concrete inputs.
use public_inbox.Args.RoundTrip.{NoNul, join, starts, join-split2argv, split2argv-join}
use public_inbox.Base.{length, All, ok, ◌<◌, ◌≡◌, refl, List, [], ◌∷◌, map, arith}
use public_inbox.Args.{cstr, split2argv, Bytes}

-- "mset", "", "q"
abbrev words : List Bytes
words = (109 ∷ 115 ∷ 101 ∷ 116 ∷ []) ∷ [] ∷ (113 ∷ []) ∷ []

words-NoNul : All NoNul words
words-NoNul = omega arith

split2argv-join_example :
    (split2argv (join words) 256 ≡ ok (3, starts words)) × (map cstr (starts words) ≡ words)
split2argv-join_example =
    split2argv-join 109 (115 ∷ 101 ∷ 116 ∷ []) ([] ∷ (113 ∷ []) ∷ []) 256 words-NoNul (omega arith)
      (omega arith)

abbrev pointers : List Bytes
pointers = (113 ∷ 0 ∷ []) ∷ []

join-split2argv_example :
    (join (map cstr pointers) ≡ 113 ∷ 0 ∷ []) × (1 ≡ length pointers) × (0 < 1) × (1 < 256)
unfolding split2argv
join-split2argv_example = join-split2argv (113 ∷ 0 ∷ []) 256 1 pointers (omega arith) refl
