-- ===== src/Date/Fields.antt =====
-- Dates that are given in the column's own format.
use public_inbox.Date.{
  yyyymmdd, yyyymmdd_hhmmss, epoch_sec, value_ge, value_le, value_range, to_column_fmt, date_field,
  mkdouble, DateLib, date_range, in_format, all_digits, ValueQuery, DateFmt,
}
use public_inbox.Prefix.Digits.{Digits, decimal}
use public_inbox.Prefix.{is_digit}
use public_inbox.Base.{
  leb, Bool-cases, length, pos, ℕ, ◌+◌, ◌^◌, ◌≤◌, ◌<◌, ◌≡◌, refl, ap, ap₂, ◌∙◌, inl, inr, Bool,
  true, false, false≢true, ◌&&◌, some, [], ◌∷◌, arith,
}
use public_inbox.Args.{Bytes, cstr}

-- What is documented of strtoll on digits in range, and of doubles: an integer below 2^53 is exact
-- and keeps its order, and so is such a sum.
pub record Documented {D : Type 0} (lib : DateLib D) : Type 0 where
  pub reads :
      (c : ℕ) (ds : Bytes)
      → Digits (c ∷ ds)
      → decimal 0 (c ∷ ds) < 2 ^ 63
      → lib.strtoll (c ∷ ds) ≡ (pos (decimal 0 (c ∷ ds)), [], false)
  pub ordered :
      (a b : ℕ)
      → a < 2 ^ 53
      → b < 2 ^ 53
      → lib.at_most (lib.of_int (pos a)) (lib.of_int (pos b)) ≡ leb a b
  pub exact :
      (a n : ℕ) → a + n < 2 ^ 53 → lib.plus (lib.of_int (pos a)) n ≡ lib.of_int (pos (a + n))

-- Whether Xapian's value query selects a document whose column holds v.
abbrev pub selects : {D : Type 0} → DateLib D → ValueQuery D → D → Bool
selects lib (value_ge slot from) v = lib.at_most from v
selects lib (value_le slot to) v = lib.at_most v to
selects lib (value_range slot from to) v = lib.at_most from v && lib.at_most v to

all_digits_lem : (s : Bytes) → all_digits s ≡ true → Digits s
unfolding all_digits
all_digits_lem [] h = tt
all_digits_lem (c ∷ cs) h = elim (Bool-cases (is_digit c)) [
  | inl y ↦ (y, all_digits_lem cs (ground arith))
  | inr n ↦ absurd (false≢true (ground arith))
]

cstr-Digits : (s : Bytes) → Digits s → cstr s ≡ s
unfolding cstr
cstr-Digits [] h = refl
cstr-Digits (c ∷ cs) h = ground (arith, cstr-Digits cs h.1, h.0)

in_format-Digits : (fmt : DateFmt) (s : Bytes) → in_format fmt s ≡ true → Digits s × (5 ≤ length s)
unfolding in_format
in_format-Digits yyyymmdd s h = elim (Bool-cases (all_digits s)) [
  | inl y ↦ (all_digits_lem s y, ground arith)
  | inr n ↦ absurd (false≢true (ground arith))
]
in_format-Digits yyyymmdd_hhmmss s h = elim (Bool-cases (all_digits s)) [
  | inl y ↦ (all_digits_lem s y, ground arith)
  | inr n ↦ absurd (false≢true (ground arith))
]
in_format-Digits epoch_sec s h = elim (Bool-cases (all_digits s)) [
  | inl y ↦ (all_digits_lem s y, ground arith)
  | inr n ↦ absurd (false≢true (ground arith))
]

mkdouble-Digits :
    {D : Type 0} (lib : DateLib D) (s : Bytes)
    → Documented lib
    → Digits s
    → 0 < length s
    → decimal 0 s < 2 ^ 63
    → mkdouble lib s ≡ some (lib.of_int (pos (decimal 0 s)))
unfolding mkdouble
mkdouble-Digits lib [] doc h l b = absurd (omega arith)
mkdouble-Digits lib (c ∷ cs) doc h l b = ground (arith, doc.reads c cs h b)

-- A date in the column's own format is the number that its digits denote, whatever git's parser
-- makes of it, for numbers below 2^63.
pub to_column_fmt-decimal :
    {D : Type 0} (lib : DateLib D) (fmt : DateFmt) (s : Bytes)
    → Documented lib
    → in_format fmt s ≡ true
    → decimal 0 s < 2 ^ 63
    → to_column_fmt lib fmt s ≡ some (lib.of_int (pos (decimal 0 s)))
unfolding to_column_fmt
to_column_fmt-decimal lib fmt s doc h b =
    let (d, l) = in_format-Digits fmt s h in
    ground (arith, cstr-Digits s d, h, mkdouble-Digits lib s doc d (omega arith) b)

nonempty : (s : Bytes) → 5 ≤ length s → (c : ℕ) × (cs : Bytes) × (s ≡ c ∷ cs)
nonempty [] h = absurd (omega arith)
nonempty (c ∷ cs) h = (c, cs, refl)

-- A range of two dates in the column's own format, below 2^53, selects exactly the values below
-- 2^53 between the numbers that they denote, both included.
pub date_range-between :
    {D : Type 0} (lib : DateLib D) (slot : ℕ) (fmt : DateFmt) (b e : Bytes) (n : ℕ)
    → Documented lib
    → in_format fmt b ≡ true
    → in_format fmt e ≡ true
    → decimal 0 b < 2 ^ 53
    → decimal 0 e < 2 ^ 53
    → n < 2 ^ 53
    → (q : ValueQuery D) × (date_range lib slot fmt b e ≡ some q)
      × (selects lib q (lib.of_int (pos n)) ≡ leb (decimal 0 b) n && leb n (decimal 0 e))
unfolding date_range
date_range-between lib slot fmt b e n doc h k l m o =
    let (c, cs, p) = nonempty b (in_format-Digits fmt b h).1 in
    let (d, ds, r) = nonempty e (in_format-Digits fmt e k).1 in
    let x = to_column_fmt-decimal lib fmt b doc h (omega arith) in
    let y = to_column_fmt-decimal lib fmt e doc k (omega arith) in
    (
      value_range slot (lib.of_int (pos (decimal 0 b))) (lib.of_int (pos (decimal 0 e))),
      ground (arith, x, y, p, r),
      ap₂ ◌&&◌ (doc.ordered (decimal 0 b) n l o) (doc.ordered n (decimal 0 e) o m),
    )

-- A single date in the column's own format selects exactly the values from the number that it
-- denotes up to 86400 more, in whatever unit the column counts: for an 8-digit date these are not
-- the dates of one day.
pub date_field-window :
    {D : Type 0} (lib : DateLib D) (slot : ℕ) (fmt : DateFmt) (s : Bytes) (n : ℕ)
    → Documented lib
    → in_format fmt s ≡ true
    → decimal 0 s + 86400 < 2 ^ 53
    → n < 2 ^ 53
    → (q : ValueQuery D) × (date_field lib slot fmt s ≡ some q)
      × (selects lib q (lib.of_int (pos n)) ≡ leb (decimal 0 s) n && leb n (decimal 0 s + 86400))
unfolding date_field
date_field-window lib slot fmt s n doc h b o =
    let x = to_column_fmt-decimal lib fmt s doc h (omega arith) in
    let from = lib.of_int (pos (decimal 0 s)) in
    (
      value_range slot from (lib.plus from 86400),
      ground (arith, x),
      ap₂ ◌&&◌ (doc.ordered (decimal 0 s) n (omega arith) o) (
          ap (λ t. lib.at_most (lib.of_int (pos n)) t) (doc.exact (decimal 0 s) 86400 b)
          ∙ doc.ordered n (decimal 0 s + 86400) o b),
    )
