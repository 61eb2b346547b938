-- ===== src/DateTime/Calendar.antt =====
-- `validateDate` of src/mcsapi_types.cpp against the Gregorian calendar.
use mathlib.Core.List.{List, [], ◌∷◌}
use mariadb_columnstore_api.Prelude.{
  ℕ, zero, suc, ◌-◌, ◌%◌, ◌≤◌, ◌<◌, ◌≡◌, ◌≢◌, ◌↔◌, ◌⊎◌, inl, inr, true, if◌then◌else◌, get_elem?,
  Option, none, some, arith, Bool-cases,
}
use mariadb_columnstore_api.DateTime.{
  DateTime, is_leap, day_fits, validate_day, validate_date, narrowed, make,
}

-- The calendar's rule for leap years.
abbrev pub IsLeap : ℕ → Type 0
IsLeap y = ((y % 4 ≡ 0) × (y % 100 ≢ 0)) ⊎ (y % 400 ≡ 0)

-- How long the months of a common year are, January first.
abbrev pub common_year : List ℕ
common_year = 31 ∷ 28 ∷ 31 ∷ 30 ∷ 31 ∷ 30 ∷ 31 ∷ 31 ∷ 30 ∷ 31 ∷ 30 ∷ 31 ∷ []

-- The day is one of the month's, of which February has one more in a leap year.
abbrev pub DayIn : ℕ → ℕ → ℕ → Option ℕ → Type 0
DayIn y m d none = ⊥
DayIn y m d (some len) = (d ≤ len) ⊎ ((m ≡ 2) × (d ≡ 29) × IsLeap y)

-- A day that the calendar has.
pub record IsDay (y m d : ℕ) : Type 0 where
  pub month_pos : 1 ≤ m
  pub day_pos : 1 ≤ d
  pub day_in : DayIn y m d (get_elem? common_year (m - 1))

-- `validateDate` takes for leap years those of the Gregorian calendar.
pub is_leap_iff : (y : ℕ) → (is_leap y ≡ true) ↔ IsLeap y
unfolding is_leap
is_leap_iff y = (ground arith, ground arith)

-- Months count from 0 here; the last clause stands for each of the twelve.
day_fits_iff :
    (y m d : ℕ)
    → m < 12
    → (day_fits y (suc m) d ≡ true) ↔ DayIn y (suc m) d (get_elem? common_year m)
unfolding day_fits is_leap
day_fits_iff y (suc (suc (suc (suc (suc (suc (suc (suc (suc (suc (suc (suc m)))))))))))) d h =
    absurd (omega arith)
day_fits_iff y m d h = (ground arith, ground arith)

DayIn-month : (y m d : ℕ) → DayIn y m d (get_elem? common_year (m - 1)) → m ≤ 12
DayIn-month y (suc (suc (suc (suc (suc (suc (suc (suc (suc (suc (suc (suc (suc m))))))))))))) d h =
    absurd (ground arith)
DayIn-month y m d h = omega arith

-- Either no day at all, 0000-00-00, or a day of the calendar.
abbrev pub DayOrZero : ℕ → ℕ → ℕ → Type 0
DayOrZero y m d = ((y ≡ 0) × (m ≡ 0) × (d ≡ 0)) ⊎ IsDay y m d

pub record IsValid (d : DateTime) : Type 0 where
  pub year_in : d.year ≤ 9999
  pub day_ok : DayOrZero d.year d.month d.day
  pub hour_in : d.hour ≤ 23
  pub minute_in : d.minute ≤ 59
  pub second_in : d.second ≤ 59

month_fits_iff :
    (y m d : ℕ)
    → 1 ≤ m
    → m ≤ 12
    → (day_fits y m d ≡ true) ↔ DayIn y m d (get_elem? common_year (m - 1))
month_fits_iff y zero d lo hi = absurd (omega arith)
month_fits_iff y (suc m) d lo hi =
    let e : suc m - 1 ≡ m = omega arith in rw e (day_fits_iff y m d hi)

month_fits-DayIn :
    (y m d : ℕ)
    → 1 ≤ m
    → m ≤ 12
    → day_fits y m d ≡ true
    → DayIn y m d (get_elem? common_year (m - 1))
month_fits-DayIn y m d lo hi = (month_fits_iff y m d lo hi).0

validate_day-DayOrZero : (d : DateTime) → validate_day d ≡ true → DayOrZero d.year d.month d.day
unfolding validate_day
validate_day-DayOrZero d h = ground (arith, month_fits-DayIn d.year d.month d.day)

DayOrZero-validate_day : (d : DateTime) → DayOrZero d.year d.month d.day → validate_day d ≡ true
unfolding validate_day
DayOrZero-validate_day d (inl z) = ground arith
DayOrZero-validate_day d (inr v) =
    let small = DayIn-month d.year d.month d.day v.day_in in
    ground (arith, (month_fits_iff d.year d.month d.day v.month_pos small).1 v.day_in)

-- `validateDate` accepts exactly the valid dates.
pub validate_date_iff : (d : DateTime) → (validate_date d ≡ true) ↔ IsValid d
unfolding validate_date
validate_date_iff d =
    (λ h. ground (arith, validate_day-DayOrZero d), λ v. ground (arith, DayOrZero-validate_day d))

checked_iff :
    (n d : DateTime) → ((if validate_date n then some n else none) ≡ some d) ↔ (IsValid d × (d ≡ n))
checked_iff n d = elim (Bool-cases (validate_date n)) [
  | inl e ↦ rw e (λ h. let q : d ≡ n = cc in (rw q ((validate_date_iff n).0 e), q), λ (v, q). cc q)
  | inr e ↦
      rw e (λ h. absurd (cc h), λ (v, q). absurd (cc (e, (validate_date_iff n).1 (rw q at v))))
]

-- The constructor from numbers builds a date exactly when the date of the arguments, each narrowed
-- to its field, is valid, and then that date.
pub make_iff :
    (year month day hour minute second microsecond : ℕ) (d : DateTime)
    → (make year month day hour minute second microsecond ≡ some d)
      ↔ (IsValid d × (d ≡ narrowed year month day hour minute second microsecond))
unfolding make
make_iff year month day hour minute second microsecond d =
    checked_iff (narrowed year month day hour minute second microsecond) d
