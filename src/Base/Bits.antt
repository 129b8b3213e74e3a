-- ===== src/Base/Bits.antt =====
-- The bitwise or of numbers whose digits do not overlap is their sum.
use Prim.Native.Nat.{
  ℕ, zero, suc, ◌+◌, ◌*◌, ◌/◌, ◌%◌, ◌^◌, ◌≤◌, ◌<◌, max, bit_or, digits, bit_or-bitwise,
}
use mathlib.Core.Path.{◌≡◌, refl, sym, ap, ap₂, ◌∙◌}
use native.Mathlib.Omega.{arith}
use native.Mathlib.Nat.{pow-suc}

abbrev or_digits : ℕ → ℕ → ℕ → ℕ
or_digits n a b = digits (λ y. y) max n a b

-- The count of digits to go does not matter once it covers the first number.
or_digits-count : (n m a b : ℕ) → a ≤ n → a ≤ m → or_digits n a b ≡ or_digits m a b
or_digits-count n m zero b h k = zero_first n ∙ sym (zero_first m)
  where
    zero_first : (j : ℕ) → or_digits j 0 b ≡ b
    zero_first zero = refl
    zero_first (suc j) = refl
or_digits-count zero m (suc a) b h k = absurd (omega arith)
or_digits-count (suc n) zero (suc a) b h k = absurd (omega arith)
or_digits-count (suc n) (suc m) (suc a) b h k =
    omega (arith, or_digits-count n m (suc a / 2) (b / 2) (omega arith) (omega arith))

pub bit_or-halve : (a b : ℕ) → bit_or a b ≡ bit_or (a / 2) (b / 2) * 2 + max (a % 2) (b % 2)
bit_or-halve zero b = omega (arith, bit_or-bitwise 0 b, bit_or-bitwise 0 (b / 2))
bit_or-halve (suc a) b = omega (
  arith,
  bit_or-bitwise (suc a) b,
  bit_or-bitwise (suc a / 2) (b / 2),
  or_digits-count a (suc a / 2) (suc a / 2) (b / 2) (omega arith) (omega arith),
)

bit_or-nothing_below : (k a : ℕ) → a ≤ k → bit_or a 0 ≡ a
bit_or-nothing_below k zero h = refl
bit_or-nothing_below zero (suc a) h = absurd (omega arith)
bit_or-nothing_below (suc k) (suc a) h =
    omega (arith, bit_or-halve (suc a) 0, bit_or-nothing_below k (suc a / 2) (omega arith))

pub bit_or-nothing : (a : ℕ) → bit_or a 0 ≡ a
bit_or-nothing a = bit_or-nothing_below a a (omega arith)

bit_or-twice : (a b : ℕ) → bit_or (a * 2) (b * 2) ≡ bit_or a b * 2
bit_or-twice a b =
    let x : a * 2 / 2 ≡ a = omega arith in
    let y : b * 2 / 2 ≡ b = omega arith in
    omega (arith, bit_or-halve (a * 2) (b * 2), ap₂ bit_or x y)

pow_step : (a k : ℕ) → a * 2 ^ suc k ≡ a * 2 ^ k * 2
pow_step a k = omega (arith, ap (λ (n : ℕ). a * n) (pow-suc 2 k))

pub bit_or-shift : (k a b : ℕ) → bit_or (a * 2 ^ k) (b * 2 ^ k) ≡ bit_or a b * 2 ^ k
bit_or-shift zero a b =
    let x : a * 2 ^ 0 ≡ a = omega arith in
    let y : b * 2 ^ 0 ≡ b = omega arith in omega (arith, ap₂ bit_or x y)
bit_or-shift (suc k) a b =
    ap₂ bit_or (pow_step a k) (pow_step b k)
    ∙ bit_or-twice (a * 2 ^ k) (b * 2 ^ k)
    ∙ ap (λ n. n * 2) (bit_or-shift k a b)
    ∙ sym (pow_step (bit_or a b) k)

bit_or-even : (h d : ℕ) → bit_or (h * 2) d ≡ bit_or h (d / 2) * 2 + d % 2
bit_or-even h d =
    let x : h * 2 / 2 ≡ h = omega arith in
    omega (arith, bit_or-halve (h * 2) d, ap (λ n. bit_or n (d / 2)) x)

pub bit_or-nibble : (h d : ℕ) → d < 16 → bit_or (h * 16) d ≡ h * 16 + d
bit_or-nibble h d l =
    let x : h * 16 ≡ h * 2 * 2 * 2 * 2 = omega arith in
    let z : d / 2 / 2 / 2 / 2 ≡ 0 = omega arith in
    omega (
      arith,
      ap (λ n. bit_or n d) x,
      bit_or-even (h * 2 * 2 * 2) d,
      bit_or-even (h * 2 * 2) (d / 2),
      bit_or-even (h * 2) (d / 2 / 2),
      bit_or-even h (d / 2 / 2 / 2),
      ap (λ n. bit_or h n) z,
      bit_or-nothing h,
    )
