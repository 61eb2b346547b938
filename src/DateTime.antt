-- ===== src/DateTime.antt =====
-- ColumnStoreDateTimeImpl, of src/mcsapi_types.cpp and src/mcsapi_types_impl.h.
pub mod Calendar
pub mod Packing
use Prim.Native.Nat.{bit_and, bit_or}
use mariadb_columnstore_api.Types.{Status}
use mariadb_columnstore_api.Types
use mariadb_columnstore_api.Std.Scan.{
  Directive, number, literal, blank, Fields, sscanf, count_of, field, from_dot,
}
use mariadb_columnstore_api.Prelude.{
  ℕ, ◌-◌, ◌*◌, ◌%◌, ◌^◌, ◌+◌, ℤ, pos, List, ◌∷◌, ◌++◌, Bool, true, false, not, ◌&&◌, ◌||◌, ltb,
  ◌==◌, if◌then◌else◌, take, to_word, Option, none, some, [], length, ◌+ℤ◌, eq_ℤ,
}
use mariadb_columnstore_api.Prelude.Digits.{padded}

pub record DateTime : Type 0 where
  pub year : ℕ
  pub month : ℕ
  pub day : ℕ
  pub hour : ℕ
  pub minute : ℕ
  pub second : ℕ
  pub microsecond : ℕ

-- The default constructor.
abbrev pub zero_date : DateTime
zero_date = record {
  year = 0;
  month = 0;
  day = 0;
  hour = 0;
  minute = 0;
  second = 0;
  microsecond = 0;
}

-- The leap-year test inside `validateDate`.
pub is_leap : ℕ → Bool
is_leap year =
    if year % 4 == 0
    then (if year % 100 == 0 then (if year % 400 == 0 then true else false) else true)
    else false

-- The `switch` on the month: does the day pass?
pub day_fits : ℕ → ℕ → ℕ → Bool
day_fits year month day =
    if (month == 1)
      || (month == 3)
      || (month == 5)
      || (month == 7)
      || (month == 8)
      || (month == 10)
      || (month == 12)
    then (if ltb 31 day then false else true)
    else if month == 2
    then (if is_leap year && ltb 29 day
        then false
        else if not (is_leap year) && ltb 28 day
        then false
        else true)
    else if ltb 30 day
    then false
    else true

-- The part of `validateDate` under `if ((year != 0) || (month != 0) || (day != 0))`.
pub validate_day : DateTime → Bool
validate_day d =
    if not (d.year == 0) || not (d.month == 0) || not (d.day == 0)
    then (if ltb d.month 1 || ltb 12 d.month
        then false
        else if ltb d.day 1
        then false
        else day_fits d.year d.month d.day)
    else true

-- validateDate
pub validate_date : DateTime → Bool
validate_date d =
    if ltb 9999 d.year
    then false
    else if not (validate_day d)
    then false
    else if ltb 23 d.hour
    then false
    else if ltb 59 d.minute
    then false
    else if ltb 59 d.second
    then false
    else true

-- getDateInt
pub get_date_int : DateTime → ℕ
get_date_int d =
    let ret = (d.year * 2 ^ 16) % 2 ^ 32 in
    let ret = bit_or ret (d.month * 2 ^ 12) in
    let ret = bit_or ret (d.day * 2 ^ 6) in bit_or ret 0x3E

-- getDateTimeInt
pub get_date_time_int : DateTime → ℕ
get_date_time_int d =
    let ret = (d.year * 2 ^ 48) % 2 ^ 64 in
    let ret = bit_or ret (d.month * 2 ^ 44) in
    let ret = bit_or ret (d.day * 2 ^ 38) in
    let ret = bit_or ret (d.hour * 2 ^ 32) in
    let ret = bit_or ret (d.minute * 2 ^ 26) in
    let ret = bit_or ret (d.second * 2 ^ 20) in bit_or ret (bit_and d.microsecond 0xFFFFF)

-- getTimeInt
pub get_time_int : DateTime → ℕ
get_time_int d =
    let ret : ℕ = 0 * 2 ^ 63 in
    let ret = bit_or ret (0x7ff * 2 ^ 52) in
    let ret = bit_or ret (d.hour * 2 ^ 40) in
    let ret = bit_or ret (d.minute * 2 ^ 32) in
    let ret = bit_or ret (d.second * 2 ^ 24) in bit_or ret (bit_and d.microsecond 0xFFFFFF)

-- getDateTimeStr: `snprintf` with a buffer of 20 keeps 19 characters.
pub get_date_time_str : DateTime → List ℕ
unfolding padded
get_date_time_str d = take 19 (
    padded 4 d.year
    ++ (b'-' ∷ padded 2 d.month)
    ++ (b'-' ∷ padded 2 d.day)
    ++ (b' ' ∷ padded 2 d.hour)
    ++ (b':' ∷ padded 2 d.minute)
    ++ (b':' ∷ padded 2 d.second))

-- The fields that `struct tm` gives to `set`. `tm_year` counts from 1900 or not, see `year_of`.
pub record Tm : Type 0 where
  pub tm_year : ℤ
  pub tm_mon : ℤ
  pub tm_mday : ℤ
  pub tm_hour : ℤ
  pub tm_min : ℤ
  pub tm_sec : ℤ

-- `mImpl->year = time.tm_year`, and 1900 more if that is below 1000 and not zero.
pub year_of : ℤ → ℕ
year_of y =
    let year = to_word (2 ^ 16) y in
    if ltb year 1000 && not (year == 0) then (year + 1900) % 2 ^ 16 else year

-- `tm_mon + 1` is an `int`, narrowed to `uint8_t`.
abbrev month_of : ℤ → ℕ
month_of m = (to_word (2 ^ 8) m + 1) % 2 ^ 8

-- ColumnStoreDateTime::set(tm&) on the fields of `d`, with its answer.
pub set_tm : DateTime → Tm → DateTime × Bool
unfolding year_of
set_tm d t =
    let d' = record d {
      year = year_of t.tm_year;
      month = month_of t.tm_mon;
      day = to_word (2 ^ 8) t.tm_mday;
      hour = to_word (2 ^ 8) t.tm_hour;
      minute = to_word (2 ^ 8) t.tm_min;
      second = to_word (2 ^ 8) t.tm_sec;
    } in
    (d', validate_date d')

-- The arguments of the constructor from numbers, which are `uint32_t`, narrowed to the fields.
abbrev pub narrowed : ℕ → ℕ → ℕ → ℕ → ℕ → ℕ → ℕ → DateTime
narrowed year month day hour minute second microsecond = record {
  year = year % 2 ^ 16;
  month = month % 2 ^ 8;
  day = day % 2 ^ 8;
  hour = hour % 2 ^ 8;
  minute = minute % 2 ^ 8;
  second = second % 2 ^ 8;
  microsecond = microsecond;
}

-- ColumnStoreDateTime(year, month, ...): `none` is the exception.
pub make : ℕ → ℕ → ℕ → ℕ → ℕ → ℕ → ℕ → Option DateTime
make year month day hour minute second microsecond =
    let d = narrowed year month day hour minute second microsecond in
    if validate_date d then some d else none

-- "%hu-%hhu-%hhu %hhu:%hhu:%hhu", and ".%u" for the fraction.
abbrev date_format : List Directive
date_format =
    number
    ∷ literal b'-'
    ∷ number
    ∷ literal b'-'
    ∷ number
    ∷ blank
    ∷ number
    ∷ literal b':'
    ∷ number
    ∷ literal b':'
    ∷ number
    ∷ []

abbrev pub fraction_format : List Directive
fraction_format = literal b'.' ∷ number ∷ []

-- The count and the microseconds that the part of the text from the dot on adds, `sep` being `[]`
-- where there is no dot.
pub fraction : List ℕ → ℤ × ℕ
fraction [] = (pos 0, 0)
fraction (dot ∷ ms) =
    let f = sscanf fraction_format (dot ∷ ms) in
    let n = field (2 ^ 32) 0 f.values in
    (count_of f, (if ltb (length ms) 6 then n * 10 ^ (6 - length ms) % 2 ^ 32 else n))

-- setFromString, on the C string: the fields and the status.
pub set_from_string : List ℕ → DateTime × Status
unfolding fraction
set_from_string s =
    let f = sscanf date_format s in
    let (more, micro) = fraction (from_dot s) in
    let res_len = count_of f +ℤ more in
    let d : DateTime = record {
      year = field (2 ^ 16) 0 f.values;
      month = field (2 ^ 8) 1 f.values;
      day = field (2 ^ 8) 2 f.values;
      hour = field (2 ^ 8) 3 f.values;
      minute = field (2 ^ 8) 4 f.values;
      second = field (2 ^ 8) 5 f.values;
      microsecond = micro;
    } in
    if not (eq_ℤ res_len (pos 3)) && not (eq_ℤ res_len (pos 6)) && not (eq_ℤ res_len (pos 7))
    then (d, Status.invalid)
    else if not (validate_date d)
    then (d, Status.invalid)
    else (d, Status.ok)
