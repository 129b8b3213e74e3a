-- ===== src/RootIds/Hex.antt =====
-- sha_hex_hash reads the first eight hex digits as a number.
use public_inbox.RootIds.{hex2uint, hash_loop, sha_hex_hash}
use native.Mathlib.Nat.{mod-eq_of_lt}
use public_inbox.Base.{
  bit_or-shift, bit_or-nibble, length, All, ok, bit_or, ℕ, zero, suc, ◌+◌, ◌*◌, ◌%◌, ◌^◌, ◌≤◌, ◌<◌,
  ◌≡◌, refl, sym, ap, ap₂, ◌∙◌, ◌⊎◌, [], ◌∷◌, ◌++◌, arith,
}
use public_inbox.Args.{Bytes}

-- A lower-case hex digit.
abbrev pub IsHex : ℕ → Type 0
IsHex c = ((b'0' ≤ c) × (c ≤ b'9')) ⊎ ((b'a' ≤ c) × (c ≤ b'f'))

-- The number that a string of hex digits denotes, read from the left.
unfoldable pub hexadecimal : ℕ → Bytes → ℕ
hexadecimal acc [] = acc
hexadecimal acc (c ∷ cs) = hexadecimal (acc * 16 + hex2uint c) cs

pub hex2uint-lt : (c : ℕ) → IsHex c → hex2uint c < 16
unfolding hex2uint
hex2uint-lt c h = ground arith

-- Different digits have different values.
pub hex2uint-injective : (c d : ℕ) → IsHex c → IsHex d → hex2uint c ≡ hex2uint d → c ≡ d
unfolding hex2uint
hex2uint-injective c d h k e = ground arith

-- One round puts a digit below those read so far.
round :
    (k h d : ℕ)
    → d < 16
    → d * 2 ^ k < 2 ^ 32
    → h * 2 ^ (4 + k) ≡ h * 16 * 2 ^ k
    → bit_or (h * 2 ^ (4 + k)) (d * 2 ^ k % 2 ^ 32) ≡ (h * 16 + d) * 2 ^ k
round k h d l m y =
    ap₂ bit_or y (mod-eq_of_lt m)
    ∙ bit_or-shift k (h * 16) d
    ∙ ap (λ n. n * 2 ^ k) (bit_or-nibble h d l)

-- In 32 bits nothing is shifted out, and a nibble is four bits.
round_fits :
    (n h d : ℕ)
    → n < 8
    → d < 16
    → (d * 2 ^ (4 * n) < 2 ^ 32) × (h * 2 ^ (4 + 4 * n) ≡ h * 16 * 2 ^ (4 * n))
round_fits zero h d l m = (omega arith, omega arith)
round_fits (suc zero) h d l m = (omega arith, omega arith)
round_fits (suc (suc zero)) h d l m = (omega arith, omega arith)
round_fits (suc (suc (suc zero))) h d l m = (omega arith, omega arith)
round_fits (suc (suc (suc (suc zero)))) h d l m = (omega arith, omega arith)
round_fits (suc (suc (suc (suc (suc zero))))) h d l m = (omega arith, omega arith)
round_fits (suc (suc (suc (suc (suc (suc zero)))))) h d l m = (omega arith, omega arith)
round_fits (suc (suc (suc (suc (suc (suc (suc zero))))))) h d l m = (omega arith, omega arith)
round_fits (suc (suc (suc (suc (suc (suc (suc (suc n)))))))) h d l m = absurd (omega arith)

-- With `h` read so far and n more rounds after this one.
hash_loop_round :
    (n h c : ℕ) (hex : Bytes)
    → n < 8
    → IsHex c
    → hash_loop (suc n) (c ∷ hex) (h * 2 ^ (4 + 4 * n))
      ≡ hash_loop n hex ((h * 16 + hex2uint c) * 2 ^ (4 * n))
unfolding hash_loop
hash_loop_round n h c hex l x =
    let (m, y) = round_fits n h (hex2uint c) l (hex2uint-lt c x) in
    ap (hash_loop n hex) (round (4 * n) h (hex2uint c) (hex2uint-lt c x) m y)

hash_loop-hexadecimal :
    (n h : ℕ) (hex rest : Bytes)
    → n ≤ 8
    → All IsHex hex
    → length hex ≡ n
    → hash_loop n (hex ++ rest) (h * 2 ^ (4 * n)) ≡ ok (hexadecimal h hex)
unfolding hash_loop hexadecimal
hash_loop-hexadecimal zero h [] rest l x e = ap ok (omega arith)
hash_loop-hexadecimal zero h (c ∷ hex) rest l x e = absurd (omega arith)
hash_loop-hexadecimal (suc n) h [] rest l x e = absurd (omega arith)
hash_loop-hexadecimal (suc n) h (c ∷ hex) rest l x e =
    let four : 4 * suc n ≡ 4 + 4 * n = omega arith in
    rw four (
      hash_loop_round n h c (hex ++ rest) (omega arith) x.0
      ∙ hash_loop-hexadecimal n (h * 16 + hex2uint c) hex rest (omega arith) x.1 (omega arith))

-- For a string that starts with eight lower-case hex digits, sha_hex_hash stays within it and
-- gives the number that these eight denote; no bit is lost to the 32-bit shifts.
pub sha_hex_hash-hexadecimal :
    (hex rest : Bytes)
    → All IsHex hex
    → length hex ≡ 8
    → sha_hex_hash (hex ++ rest) ≡ ok (hexadecimal 0 hex)
unfolding sha_hex_hash
sha_hex_hash-hexadecimal hex rest x e = hash_loop-hexadecimal 8 0 hex rest (omega arith) x e

hexadecimal-split :
    (acc acc' : ℕ) (s t : Bytes)
    → All IsHex s
    → All IsHex t
    → length s ≡ length t
    → hexadecimal acc s ≡ hexadecimal acc' t
    → (acc ≡ acc') × (s ≡ t)
unfolding hexadecimal
hexadecimal-split acc acc' [] [] x y l e = (e, refl)
hexadecimal-split acc acc' [] (d ∷ t) x y l e = absurd (omega arith)
hexadecimal-split acc acc' (c ∷ s) [] x y l e = absurd (omega arith)
hexadecimal-split acc acc' (c ∷ s) (d ∷ t) x y l e =
    let (h, r) =
      hexadecimal-split (acc * 16 + hex2uint c) (acc' * 16 + hex2uint d) s t x.1 y.1 (omega arith)
        e in
    let a : acc ≡ acc' = omega (arith, hex2uint-lt c x.0, hex2uint-lt d y.0) in
    (a, ap₂ ◌∷◌ (hex2uint-injective c d x.0 y.0 (omega (arith, a))) r)

-- Two strings that start with eight lower-case hex digits have the same hash only if these agree.
pub sha_hex_hash-injective :
    (s t rest rest' : Bytes)
    → All IsHex s
    → All IsHex t
    → length s ≡ 8
    → length t ≡ 8
    → sha_hex_hash (s ++ rest) ≡ sha_hex_hash (t ++ rest')
    → s ≡ t
sha_hex_hash-injective s t rest rest' x y l m e =
    (hexadecimal-split 0 0 s t x y (l ∙ sym m)
      (cc (sha_hex_hash-hexadecimal s rest x l, sha_hex_hash-hexadecimal t rest' y m))).1
