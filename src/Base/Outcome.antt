-- ===== src/Base/Outcome.antt =====
-- How a C function of the helper can end: with a value, or with the process.
use Prim.Native.Nat.{ℕ}
use mathlib.Core.Path.{◌≡◌, refl, ap}
use mathlib.Core.Logic.{◌⊎◌, inl, inr}
use mathlib.Core.Bool.{Bool, true, false}
use mathlib.Core.Option.{Option, none, some}

-- `aborts`: ABORT, EABORT or a failed assert. `exits c`: err, errx or exit with the code c.
-- `faults`: a read or write outside an allocation, for which C promises nothing.
pub data Stop : Type 0 where
  aborts faults : Stop
  exits : ℕ → Stop

pub data Run {ℓ} (A : Type ℓ) : Type ℓ where
  stop : Stop → Run A
  ok : A → Run A

-- `if (test) ABORT(...);` and its kin.
abbrev pub stop_if : Bool → Stop → Run (Unit {0})
stop_if false why = ok tt
stop_if true why = stop why

-- A read through a pointer that may lie outside its allocation.
abbrev pub or_fault {ℓ} : {A : Type ℓ} → Option A → Run A
or_fault (some a) = ok a
or_fault none = stop faults

infixl 5 ◌>>=◌
abbrev pub ◌>>=◌ {ℓ κ} : {A : Type ℓ} {B : Type κ} → Run A → (A → Run B) → Run B
◌>>=◌ (stop why) next = stop why
◌>>=◌ (ok a) next = next a

infixl 5 ◌>>◌
abbrev pub ◌>>◌ {ℓ κ} : {A : Type ℓ} {B : Type κ} → Run A → Run B → Run B
◌>>◌ (stop why) next = stop why
◌>>◌ (ok a) next = next

-- A chain that succeeds has a first part that does.
pub >>=-ok {ℓ κ} :
    {A : Type ℓ} {B : Type κ} (m : Run A) (next : A → Run B) {b : B}
    → (m >>= next) ≡ ok b
    → (a : A) × (m ≡ ok a) × (next a ≡ ok b)
>>=-ok (stop why) next e = cc
>>=-ok (ok a) next e = (a, refl, e)

abbrev value_or {ℓ} : {A : Type ℓ} → A → Run A → A
value_or d (ok a) = a
value_or d (stop why) = d

pub ok-injective {ℓ} : {A : Type ℓ} {a b : A} → ok a ≡ ok b → a ≡ b
ok-injective {a} e = ap (value_or a) e

pub >>-ok {ℓ κ} :
    {A : Type ℓ} {B : Type κ} (m : Run A) (next : Run B) {b : B} → (m >> next) ≡ ok b → next ≡ ok b
>>-ok (stop why) next e = cc
>>-ok (ok a) next e = e

pub Run-cases {ℓ} :
    {A : Type ℓ} (m : Run A) → ((why : Stop) × (m ≡ stop why)) ⊎ ((a : A) × (m ≡ ok a))
Run-cases (stop why) = inl (why, refl)
Run-cases (ok a) = inr (a, refl)
