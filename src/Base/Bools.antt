-- ===== src/Base/Bools.antt =====
-- Laws of `or`, in the direction in which the lemmas on membership use them.
use mathlib.Core.Path.{◌≡◌, refl}
use mathlib.Core.Bool.{Bool, true, false, ◌||◌}

pub or_false : (b : Bool) → b ≡ b || false
or_false true = refl
or_false false = refl

pub or_assoc : (a b c : Bool) → (a || b) || c ≡ a || (b || c)
or_assoc true b c = refl
or_assoc false b c = refl
