-- ===== src/Prefix/Tests.antt =====
-- A strtoull that meets what is documented of it, and a concrete prefix.
use public_inbox.Prefix.Digits.{ReadsDigits, decimal, Digits, NoDigitFirst}
use public_inbox.Prefix.{extract_loop, Strtoull, is_digit}
use public_inbox.Base.{ℕ, ◌+◌, ◌-◌, ◌*◌, ◌^◌, min, ◌≡◌, refl, true, false, [], ◌∷◌, ◌++◌, arith}
use public_inbox.Args.{Bytes}

unfoldable pub read_digits : ℕ → Bytes → ℕ × Bytes
read_digits acc [] = (acc, [])
read_digits acc (c ∷ cs) = elim (is_digit c) [
  | true ↦ read_digits (acc * 10 + (c - b'0')) cs
  | false ↦ (acc, c ∷ cs)
]

unfoldable pub c_strtoull : Strtoull
c_strtoull s = let (n, end) = read_digits 0 s in (min n (2 ^ 64 - 1), end)

read_digits_lem :
    (acc : ℕ) (ds rest : Bytes)
    → Digits ds
    → NoDigitFirst rest
    → read_digits acc (ds ++ rest) ≡ (decimal acc ds, rest)
unfolding read_digits decimal
read_digits_lem acc [] [] h f = refl
read_digits_lem acc [] (c ∷ rest) h f = ground arith
read_digits_lem acc (d ∷ ds) rest h f =
    ground (arith, read_digits_lem (acc * 10 + (d - b'0')) ds rest h.1 f)

pub c_strtoull-ReadsDigits : ReadsDigits c_strtoull
unfolding c_strtoull
c_strtoull-ReadsDigits c ds rest h f = rw (read_digits_lem 0 (c ∷ ds) rest h f)

-- "123" becomes "1" with the length 23.
all_digits : extract_loop c_strtoull [] (49 ∷ 50 ∷ 51 ∷ []) ≡ (49 ∷ [], 23)
unfolding extract_loop c_strtoull read_digits
all_digits = refl
