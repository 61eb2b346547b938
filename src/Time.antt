-- ===== src/Time.antt =====
-- ColumnStoreTimeImpl, of src/mcsapi_types.cpp and src/mcsapi_types_impl.h. The hour is an
-- `int16_t`, the sign of a time below one hour is `is_neg`.
pub mod Packing
use Prim.Native.Nat.{bit_and, bit_or}
use mariadb_columnstore_api.Prelude.{
  ℕ, ◌+◌, ◌*◌, ◌%◌, ◌^◌, ℤ, pos, negsuc, List, ◌∷◌, ◌++◌, Bool, true, false, ◌&&◌, ◌||◌, ltb, ltb_ℤ,
  not, if◌then◌else◌, take, to_word, of_word, Option, none, some, [], ◌==◌, ◌+ℤ◌, eq_ℤ,
}
use mariadb_columnstore_api.Prelude.Digits.{padded, padded_ℤ}
use mariadb_columnstore_api.Types.{Status}
use mariadb_columnstore_api.Types
use mariadb_columnstore_api.Std.Scan.{Directive, number, literal, sscanf, count_of, field, from_dot}
use mariadb_columnstore_api.DateTime.{Tm, fraction}

pub record Time : Type 0 where
  pub is_neg : Bool
  pub hour : ℤ
  pub minute : ℕ
  pub second : ℕ
  pub microsecond : ℕ

-- The default constructor.
abbrev pub zero_time : Time
zero_time = record { is_neg = false; hour = pos 0; minute = 0; second = 0; microsecond = 0 }

-- validateTime
pub validate_time : Time → Bool
validate_time t =
    if ltb_ℤ (pos 838) t.hour || ltb_ℤ t.hour (negsuc 837)
    then false
    else if ltb 59 t.minute
    then false
    else if ltb 59 t.second
    then false
    else true

-- The hour that `getDateTimeInt` writes: 0 to 23.
pub hour_out : ℤ → ℕ
hour_out hour =
    if ltb_ℤ hour (pos 0) then 0 else if ltb_ℤ (pos 23) hour then 23 else to_word (2 ^ 8) hour

-- getDateTimeInt
pub get_date_time_int : Time → ℕ
unfolding hour_out
get_date_time_int t =
    let ret = hour_out t.hour * 2 ^ 32 in
    let ret = bit_or ret (t.minute * 2 ^ 26) in
    let ret = bit_or ret (t.second * 2 ^ 20) in bit_or ret (bit_and t.microsecond 0xFFFFF)

abbrev pub of_bool : Bool → ℕ
of_bool b = if b then 1 else 0

-- getTimeInt. `(int64_t)hour << 40` is taken modulo 2 ^ 64, as the target machines shift.
pub get_time_int : Time → ℕ
get_time_int t =
    let ret = of_bool t.is_neg * 2 ^ 63 in
    let ret = bit_or ret (0x7ff * 2 ^ 52) in
    let ret = bit_or ret (to_word (2 ^ 64) t.hour * 2 ^ 40 % 2 ^ 64) in
    let ret = bit_or ret (t.minute * 2 ^ 32) in
    let ret = bit_or ret (t.second * 2 ^ 24) in bit_or ret (bit_and t.microsecond 0xFFFFFF)

-- getTimeStr. `snprintf` is given room for 18 characters behind the sign.
pub get_time_str : Time → List ℕ
get_time_str t =
    let body =
      take 18 (padded_ℤ 2 t.hour ++ (b':' ∷ padded 2 t.minute) ++ (b':' ∷ padded 2 t.second)) in
    if t.is_neg && not (ltb_ℤ t.hour (pos 0)) then b'-' ∷ body else body

-- ColumnStoreTime::set(tm&) on the fields of `t`, with its answer. The sign is left alone.
pub set_tm : Time → Tm → Time × Bool
set_tm t tm =
    let t' = record t {
      hour = of_word (2 ^ 16) (to_word (2 ^ 16) tm.tm_hour);
      minute = to_word (2 ^ 8) tm.tm_min;
      second = to_word (2 ^ 8) tm.tm_sec;
    } in
    (t', validate_time t')

-- The arguments of the constructor from numbers, narrowed to the fields; the first argument is an
-- `int32_t`, and a negative one sets the sign.
abbrev pub narrowed : ℤ → ℕ → ℕ → ℕ → Bool → Time
narrowed hour minute second microsecond is_negative = record {
  is_neg = if ltb_ℤ hour (pos 0) then true else is_negative;
  hour = of_word (2 ^ 16) (to_word (2 ^ 16) hour);
  minute = minute % 2 ^ 8;
  second = second % 2 ^ 8;
  microsecond = microsecond;
}

-- ColumnStoreTime(hour, minute, ...): `none` is the exception.
pub make : ℤ → ℕ → ℕ → ℕ → Bool → Option Time
make hour minute second microsecond is_negative =
    let t = narrowed hour minute second microsecond is_negative in
    if validate_time t then some t else none

-- "%hd:%hhu:%hhu"
abbrev time_format : List Directive
time_format = number ∷ literal b':' ∷ number ∷ literal b':' ∷ number ∷ []

abbrev starts_minus : List ℕ → Bool
starts_minus [] = false
starts_minus (c ∷ s) = c == b'-'

-- setFromString, on the C string: the fields and the status.
pub set_from_string : List ℕ → Time × Status
set_from_string s =
    let f = sscanf time_format s in
    let (more, micro) = fraction (from_dot s) in
    let res_len = count_of f +ℤ more in
    let t : Time = record {
      is_neg = starts_minus s;
      hour = of_word (2 ^ 16) (field (2 ^ 16) 0 f.values);
      minute = field (2 ^ 8) 1 f.values;
      second = field (2 ^ 8) 2 f.values;
      microsecond = micro;
    } in
    if not (eq_ℤ res_len (pos 3)) && not (eq_ℤ res_len (pos 4))
    then (t, Status.invalid)
    else if not (validate_time t)
    then (t, Status.invalid)
    else (t, Status.ok)
