-- ===== src/Date/Tests.antt =====
-- Doubles as exact integers, a strtoll as documented, and a first of January.
use public_inbox.Date.{
  yyyymmdd, DateLib, ValueQuery, to_column_fmt, date_field, date_range, in_format,
}
use public_inbox.Date.Fields.{
  Documented, to_column_fmt-decimal, selects, date_field-window, date_range-between,
}
use public_inbox.Prefix.Digits.{decimal}
use public_inbox.Base.{
  ltb, leb, if◌then◌else◌, ℤ, pos, negsuc, ℕ, suc, ◌+◌, ◌-◌, ◌≡◌, refl, Bool, true, false, none,
  some, [], ◌∷◌, arith,
}
use public_inbox.Args.{Bytes}

abbrev int_at_most : ℤ → ℤ → Bool
int_at_most (pos a) (pos b) = leb a b
int_at_most (pos a) (negsuc b) = false
int_at_most (negsuc a) (pos b) = true
int_at_most (negsuc a) (negsuc b) = leb b a

abbrev int_plus : ℤ → ℕ → ℤ
int_plus (pos a) n = pos (a + n)
int_plus (negsuc a) n = if ltb a n then pos (n - suc a) else negsuc (a - n)

abbrev int_lib : DateLib ℤ
int_lib = record {
  date_parse = λ s. none;
  to_time_t = λ t. t;
  gmtime = λ t. none;
  strftime = λ f t. [];
  strtoll = λ s. (pos (decimal 0 s), [], false);
  of_int = λ i. i;
  dbl_min = pos 1;
  plus = int_plus;
  at_most = int_at_most;
}

int_lib-Documented : Documented int_lib
int_lib-Documented = record {
  reads = λ c ds h b. refl;
  ordered = λ a b h k. refl;
  exact = λ a n h. refl;
}

-- "20200101" and "20281231"
abbrev first_day : Bytes
first_day = 50 ∷ 48 ∷ 50 ∷ 48 ∷ 48 ∷ 49 ∷ 48 ∷ 49 ∷ []

abbrev later_day : Bytes
later_day = 50 ∷ 48 ∷ 50 ∷ 56 ∷ 49 ∷ 50 ∷ 51 ∷ 49 ∷ []

to_column_fmt-decimal_example : to_column_fmt int_lib yyyymmdd first_day ≡ some (pos 20200101)
unfolding decimal in_format
to_column_fmt-decimal_example =
    to_column_fmt-decimal int_lib yyyymmdd first_day int_lib-Documented refl (omega arith)

date_range-between_example :
    (q : ValueQuery ℤ) × (date_range int_lib 0 yyyymmdd first_day later_day ≡ some q)
    × (selects int_lib q (pos 20240229) ≡ true)
unfolding decimal in_format
date_range-between_example =
    date_range-between int_lib 0 yyyymmdd first_day later_day 20240229 int_lib-Documented refl refl
      (omega arith) (omega arith) (omega arith)

-- d:20200101 selects a document of 20281231.
date_field-window_example :
    (q : ValueQuery ℤ) × (date_field int_lib 0 yyyymmdd first_day ≡ some q)
    × (selects int_lib q (pos 20281231) ≡ true)
unfolding decimal in_format
date_field-window_example =
    date_field-window int_lib 0 yyyymmdd first_day 20281231 int_lib-Documented refl (omega arith)
      (omega arith)
