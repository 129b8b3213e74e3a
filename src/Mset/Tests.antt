-- ===== src/Mset/Tests.antt =====
-- Writes of one byte each, and the results of a query.
use public_inbox.Output.{wrote}
use public_inbox.Mset.Sending.{Writes}
use public_inbox.Output.Writes.{Progress, Accepts}
use public_inbox.Mset.{Calls, Results}
use public_inbox.Base.{
  replicate, length-replicate, ℕ, zero, suc, ◌+◌, ◌-◌, ◌≤◌, refl, [], ◌∷◌, arith,
}
use public_inbox.Args.{Bytes}

abbrev pub bytewise : Calls
bytewise i len = replicate len (wrote 1)

Accepts-ones : (n len : ℕ) → n ≤ len → Accepts (replicate n (wrote 1)) len
Accepts-ones zero len l = tt
Accepts-ones (suc n) len l = (omega arith, Accepts-ones n (len - 1) (omega arith))

Progress-ones : (n : ℕ) → Progress (replicate n (wrote 1))
Progress-ones zero = tt
Progress-ones (suc n) = ((0, refl), Progress-ones n)

pub bytewise-Writes : Writes bytewise
bytewise-Writes i len = (
  omega (arith, length-replicate len (wrote 1)),
  Accepts-ones len len (omega arith),
  Progress-ones len,
)

-- Prints one-digit numbers, which is enough here.
abbrev pub show_digit : ℕ → Bytes
show_digit n = (48 + n) ∷ []

abbrev pub one_hit : Results
one_hit = record { rows = record { docid = 7; percent = 9; rank = 0 } ∷ []; estimated = 1 }
