-- ===== src/Prefix.antt =====
-- term_length_extract of lib/PublicInbox/xh_cidx.h: `-A <prefix>LENGTH` is taken apart in place.
-- A prefix is the list of its bytes without the NUL, and strtoull, the C library's, is a parameter:
-- a function from a string to the number read and the string at `end`.
pub mod Digits
pub mod Tests
use public_inbox.Base.{leb, ℕ, ◌-◌, ◌^◌, Bool, true, false, not, ◌&&◌, ◌||◌, List, [], ◌∷◌, ◌++◌}
use public_inbox.Args.{Bytes}

abbrev pub Strtoull : Type 0
Strtoull = Bytes → ℕ × Bytes

abbrev pub size_max : ℕ
size_max = 2 ^ 64 - 1

abbrev pub is_digit : ℕ → Bool
is_digit c = leb b'0' c && leb c b'9'

abbrev pub is_empty : Bytes → Bool
is_empty [] = true
is_empty (b ∷ bs) = false

-- The inner `for` loop, with pfx[0..j) in `front`: pfx with its NUL put, and lenv[i].
unfoldable pub extract_loop : Strtoull → Bytes → Bytes → Bytes × ℕ
extract_loop strtoull front [] = (front, 0)
extract_loop strtoull front (c ∷ rest) = elim (is_digit c) [
  | false ↦ extract_loop strtoull (front ++ (c ∷ [])) rest
  | true ↦ elim (is_empty front) [
    | true ↦ extract_loop strtoull (front ++ (c ∷ [])) rest
    | false ↦
        let (tmp, end) = strtoull (c ∷ rest) in
        elim (not (is_empty end) || leb size_max tmp) [
          | true ↦ extract_loop strtoull (front ++ (c ∷ [])) rest
          | false ↦ (front, tmp)
        ]
  ]
]

-- Over all of pfxv.
unfoldable pub term_length_extract : Strtoull → List Bytes → List (Bytes × ℕ)
term_length_extract strtoull [] = []
term_length_extract strtoull (pfx ∷ pfxv) =
    extract_loop strtoull [] pfx ∷ term_length_extract strtoull pfxv
