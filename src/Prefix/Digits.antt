-- ===== src/Prefix/Digits.antt =====
-- Trailing digits become the length.
use public_inbox.Prefix.{is_digit, Strtoull, extract_loop, size_max, is_empty}
use public_inbox.Base.{
  Bool-cases, All, ℕ, ◌+◌, ◌-◌, ◌*◌, ◌^◌, ◌<◌, min, ◌≡◌, refl, sym, ap, ◌∙◌, inl, inr, true, false,
  false≢true, [], ◌∷◌, ◌++◌, append-nil, append_assoc, arith,
}
use public_inbox.Args.{Bytes}

-- The decimal number that digits denote, after what `acc` has read.
unfoldable pub decimal : ℕ → Bytes → ℕ
decimal acc [] = acc
decimal acc (d ∷ ds) = decimal (acc * 10 + (d - b'0')) ds

abbrev pub Digits : Bytes → Type 0
Digits = All (λ c. is_digit c ≡ true)

abbrev pub NoDigitFirst : Bytes → Type 0
NoDigitFirst [] = Unit {0}
NoDigitFirst (c ∷ cs) = is_digit c ≡ false

abbrev pub NoDigitLast : Bytes → Type 0
NoDigitLast [] = Unit {0}
NoDigitLast (c ∷ []) = is_digit c ≡ false
NoDigitLast (c ∷ d ∷ cs) = NoDigitLast (d ∷ cs)

-- What C documents of strtoull on a string that starts with digits: it reads all of them, stops at
-- the first other character, and returns ULLONG_MAX where the number is out of range.
abbrev pub ReadsDigits : Strtoull → Type 0
ReadsDigits strtoull =
    (c : ℕ) (ds rest : Bytes)
    → Digits (c ∷ ds)
    → NoDigitFirst rest
    → strtoull (c ∷ (ds ++ rest)) ≡ (min (decimal 0 (c ∷ ds)) (2 ^ 64 - 1), rest)

-- Digits that do not end the string are followed, in it, by something else.
run_end :
    (c : ℕ) (cs : Bytes)
    → is_digit c ≡ true
    → NoDigitLast (c ∷ cs)
    → (run : Bytes) × (r : ℕ) × (rs : Bytes) × (cs ≡ run ++ (r ∷ rs))
      × Digits run
      × (is_digit r ≡ false)
run_end c [] y h = absurd (false≢true (sym h ∙ y))
run_end c (d ∷ cs) y h = elim (Bool-cases (is_digit d)) [
  | inl z ↦
      let (run, r, rs, e, ds, m) = run_end d cs z h in (d ∷ run, r, rs, ap (◌∷◌ d) e, (z, ds), m)
  | inr m ↦ ([], d, cs, refl, tt, m)
]

NoDigitLast-tail : (c : ℕ) (cs : Bytes) → NoDigitLast (c ∷ cs) → NoDigitLast cs
NoDigitLast-tail c [] h = tt
NoDigitLast-tail c (d ∷ cs) h = h

module _ (strtoull : Strtoull) (reads : ReadsDigits strtoull) where
  stops_inside :
      (c : ℕ) (cs ds : Bytes)
      → is_digit c ≡ true
      → NoDigitLast (c ∷ cs)
      → is_empty (strtoull (c ∷ (cs ++ ds))).1 ≡ false
  stops_inside c cs ds y h =
      let (run, r, rs, e, digits, m) = run_end c cs y h in
      let split : c ∷ (cs ++ ds) ≡ c ∷ (run ++ ((r ∷ rs) ++ ds)) =
        ap (λ x. c ∷ (x ++ ds)) e ∙ ap (◌∷◌ c) (append_assoc run (r ∷ rs) ds) in
      rw (split, reads c run ((r ∷ rs) ++ ds) (y, digits) m)

  -- A digit inside the name is passed over.
  loop_name :
      (f : ℕ) (front cs ds : Bytes)
      → NoDigitLast cs
      → extract_loop strtoull (f ∷ front) (cs ++ ds) ≡ extract_loop strtoull ((f ∷ front) ++ cs) ds
  unfolding extract_loop
  loop_name f front [] ds h = rw append-nil
  loop_name f front (c ∷ cs) ds h = ground (
    arith,
    stops_inside c cs ds,
    loop_name f (front ++ (c ∷ [])) cs ds (NoDigitLast-tail c cs h),
    append_assoc front (c ∷ []) cs,
  )

  -- A prefix whose name is not empty, begins and ends with a non-digit and is followed by digits
  -- of a number below SIZE_MAX, or by nothing, is cut to the name, and its length is that number,
  -- or 0. Digits inside the name stay.
  pub extract_loop-name :
      (c : ℕ) (cs ds : Bytes)
      → NoDigitFirst (c ∷ cs)
      → NoDigitLast (c ∷ cs)
      → Digits ds
      → decimal 0 ds < size_max
      → extract_loop strtoull [] (c ∷ (cs ++ ds)) ≡ (c ∷ cs, decimal 0 ds)
  unfolding extract_loop decimal
  extract_loop-name c cs [] f l g m =
      ground (arith, loop_name c [] cs [] (NoDigitLast-tail c cs l), append-nil cs)
  extract_loop-name c cs (d ∷ ds) f l g m = ground (
    arith,
    loop_name c [] cs (d ∷ ds) (NoDigitLast-tail c cs l),
    reads d ds [] g tt,
    append-nil ds,
  )
