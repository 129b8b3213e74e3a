-- ===== src/Date.antt =====
-- lib/PublicInbox/xh_date.h: the date ranges of a query, for the values of a column. git's date
-- parser, the calendar and number functions of libc and the double numbers are parameters. A
-- QueryParserError is `none`.
pub mod Fields
mod Tests
use public_inbox.Prefix.{is_digit}
use public_inbox.Options.{eq_ℤ, long_max, long_min}
use public_inbox.Base.{
  leb, ◌==◌, if◌then◌else◌, length, ℤ, ℕ, Bool, true, false, ◌&&◌, ◌||◌, Option, none, some, [],
  ◌∷◌,
}
use public_inbox.Args.{Bytes, cstr}

pub data DateFmt : Type 0 where
  yyyymmdd yyyymmdd_hhmmss epoch_sec : DateFmt

-- struct tm, as far as it is used.
pub record Tm : Type 0 where
  pub year : ℕ
  pub mon : ℕ
  pub mday : ℕ
  pub hour : ℕ
  pub minute : ℕ
  pub sec : ℕ

-- git_date_parse, the cast to time_t, gmtime_r, strftime into `buf` (empty if it fails), strtoll
-- with the string at `end` and whether errno is ERANGE, the conversion of integers to doubles,
-- DBL_MIN, the sum with an integer, and their order.
pub record DateLib (D : Type 0) : Type 0 where
  pub date_parse : Bytes → Option ℤ
  pub to_time_t : ℤ → ℤ
  pub gmtime : ℤ → Option Tm
  pub strftime : Bytes → Tm → Bytes
  pub strtoll : Bytes → ℤ × Bytes × Bool
  pub of_int : ℤ → D
  pub dbl_min : D
  pub plus : D → ℕ → D
  pub at_most : D → D → Bool

unfoldable pub all_digits : Bytes → Bool
all_digits [] = true
all_digits (c ∷ cs) = is_digit c && all_digits cs

-- The three regular expressions: 8 digits, 14 digits, at least 5 digits.
unfoldable pub in_format : DateFmt → Bytes → Bool
unfolding all_digits
in_format yyyymmdd s = all_digits s && (length s == 8)
in_format yyyymmdd_hhmmss s = all_digits s && (length s == 14)
in_format epoch_sec s = all_digits s && leb 5 (length s)

-- "%Y%m%d" and "%Y%m%d%H%M%S"
abbrev pub format_of : DateFmt → Bytes
format_of yyyymmdd = 37 ∷ 89 ∷ 37 ∷ 109 ∷ 37 ∷ 100 ∷ []
format_of _ = 37 ∷ 89 ∷ 37 ∷ 109 ∷ 37 ∷ 100 ∷ 37 ∷ 72 ∷ 37 ∷ 77 ∷ 37 ∷ 83 ∷ []

-- `d:` is low-precision.
abbrev pub at_precision : DateFmt → Tm → Tm
at_precision yyyymmdd tm = record tm { hour = 0; minute = 0; sec = 0 }
at_precision _ tm = tm

unfoldable pub mkdouble : {D : Type 0} → DateLib D → Bytes → Option D
mkdouble lib s =
    let (v, end, erange) = lib.strtoll s in
    elim end [
      | b ∷ bs ↦ none
      | [] ↦ if (eq_ℤ v long_max || eq_ℤ v long_min) && erange then none else some (lib.of_int v)
    ]

-- From the time that git reads to the column's number.
unfoldable pub of_git_time : {D : Type 0} → DateLib D → DateFmt → ℤ → Option D
unfolding mkdouble
of_git_time lib epoch_sec gt = some (lib.of_int gt)
of_git_time lib fmt gt = elim (eq_ℤ (lib.to_time_t gt) gt) [
  | false ↦ none
  | true ↦ elim (lib.gmtime (lib.to_time_t gt)) [
    | none ↦ none
    | some tm ↦ elim (lib.strftime (format_of fmt) (at_precision fmt tm)) [
      | [] ↦ none
      | b ∷ buf ↦ mkdouble lib (b ∷ buf)
    ]
  ]
]

unfoldable pub to_column_fmt : {D : Type 0} → DateLib D → DateFmt → Bytes → Option D
unfolding in_format mkdouble of_git_time
to_column_fmt lib fmt date = elim (in_format fmt (cstr date)) [
  | true ↦ mkdouble lib (cstr date)
  | false ↦ elim (lib.date_parse (cstr date)) [ none ↦ none | some gt ↦ of_git_time lib fmt gt ]
]

-- A query on the column `slot`, whose bounds go through sortable_serialise, which keeps order.
pub data ValueQuery (D : Type 0) : Type 0 where
  value_ge : ℕ → D → ValueQuery D
  value_le : ℕ → D → ValueQuery D
  value_range : ℕ → D → D → ValueQuery D

-- GitDateRangeProcessor::operator()
unfoldable pub date_range :
    {D : Type 0} → DateLib D → ℕ → DateFmt → Bytes → Bytes → Option (ValueQuery D)
unfolding to_column_fmt
date_range lib slot fmt [] [] = some (value_ge slot lib.dbl_min)
date_range lib slot fmt (b ∷ bs) [] = elim (to_column_fmt lib fmt (b ∷ bs)) [
  | none ↦ none
  | some from ↦ some (value_ge slot from)
]
date_range lib slot fmt [] (e ∷ es) = elim (to_column_fmt lib fmt (e ∷ es)) [
  | none ↦ none
  | some to ↦ some (value_le slot to)
]
date_range lib slot fmt (b ∷ bs) (e ∷ es) = elim (to_column_fmt lib fmt (b ∷ bs)) [
  | none ↦ none
  | some from ↦ elim (to_column_fmt lib fmt (e ∷ es)) [
    | none ↦ none
    | some to ↦ some (value_range slot from to)
  ]
]

-- GitDateFieldProcessor::operator()
unfoldable pub date_field : {D : Type 0} → DateLib D → ℕ → DateFmt → Bytes → Option (ValueQuery D)
unfolding to_column_fmt
date_field lib slot fmt date = elim (to_column_fmt lib fmt date) [
  | none ↦ none
  | some from ↦ some (value_range slot from (lib.plus from 86400))
]
