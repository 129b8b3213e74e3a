-- ===== src/Base/Int.antt =====
-- Signed numbers, as `long` and time_t hold them.
use Prim.Native.Nat.{ℕ}
use mathlib.Core.Bool.{Bool, true, false}

-- `negsuc n` is -(n + 1).
pub data ℤ : Type 0 where
  pos : ℕ → ℤ
  negsuc : ℕ → ℤ

abbrev pub is_neg : ℤ → Bool
is_neg (negsuc n) = true
is_neg (pos n) = false
