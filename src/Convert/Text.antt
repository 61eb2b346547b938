-- ===== src/Convert/Text.antt =====
-- src/util_dataconvert.cpp, `ColumnStoreDataConvert::convert` from `boost::string_ref`. The scanners
-- are given `fromValue.data()`, so they read the text as a C string, beyond its length if need be.
use mariadb_columnstore_api.Prelude.{
  ℕ, ◌-◌, ◌^◌, ℤ, pos, List, ◌++◌, Bool, not, ◌||◌, ltb, if◌then◌else◌, of_word,
}
use mariadb_columnstore_api.Std.Scan.{until_nul, strtoll, strtoull}
use mariadb_columnstore_api.Types.{
  DataType, Status, Column, Container, ok, saturated, invalid, set_u8, set_u16, set_u32, set_u64,
  set_i8, set_i16, set_i32, set_i64,
}
use mariadb_columnstore_api.DateTime
use mariadb_columnstore_api.Time
use mariadb_columnstore_api.Std.{Floats}
use mariadb_columnstore_api.Convert.Uint.{fit_text}
use mariadb_columnstore_api.Convert.Int.{int_bit, int_tinyint, int_smallint, int_medint, int_int}
use mariadb_columnstore_api.Convert.Int.{int_bigint, decimal_s}

-- The bytes of the reference, and those that stand behind them in memory.
pub record StringRef : Type 0 where
  pub bytes : List ℕ
  pub beyond : List ℕ

unfoldable pub c_str : StringRef → List ℕ
unfolding until_nul
c_str r = until_nul (r.bytes ++ r.beyond)

-- `if ((errno) || (*tmp != '\0'))`: the cell is zeroed.
abbrev checked : Bool → Bool → Container → Status × Container → Status × Container
checked at_end errno zeroed rest = if errno || not at_end then (invalid, zeroed) else rest

-- The cases that scan with `strtoll`. Behind the scan they make the same tests as the conversion
-- from `int64_t`, with the two of `BIGINT` on a value that is in range already.
unfoldable pub signed_case : Container → (ℤ → Status × Container) → List ℕ → Status × Container
signed_case zeroed store s =
    let (v, at_end, errno) = strtoll s in checked at_end errno zeroed (store v)

-- The cases that scan with `strtoull`.
unfoldable pub unsigned_case : Container → (ℕ → Status × Container) → List ℕ → Status × Container
unsigned_case zeroed store s =
    let (v, at_end, errno) = strtoull s in checked at_end errno zeroed (store v)

unfoldable pub text_utinyint : ℕ → Status × Container
text_utinyint v = if ltb (255 - 2) v then (saturated, set_u8 (255 - 2)) else (ok, set_u8 v)

unfoldable pub text_usmallint : ℕ → Status × Container
text_usmallint v = if ltb (65535 - 2) v then (saturated, set_u16 65535) else (ok, set_u16 v)

unfoldable pub text_umedint : ℕ → Status × Container
text_umedint v =
    if ltb (0xFFFFFF - 2) v then (saturated, set_u32 (0xFFFFF - 2)) else (ok, set_u32 v)

unfoldable pub text_uint : ℕ → Status × Container
text_uint v =
    if ltb (0xFFFFFFFF - 2) v then (saturated, set_u32 (0xFFFFFFFF - 2)) else (ok, set_u32 v)

unfoldable pub text_ubigint : ℕ → Status × Container
text_ubigint v =
    if ltb (2 ^ 64 - 1 - 2) v then (saturated, set_u64 (2 ^ 64 - 1 - 2)) else (ok, set_u64 v)

-- `val = status == CONVERT_STATUS_NONE ? packed : 0`
abbrev when_ok : Status → ℕ → ℕ
when_ok Status.ok packed = packed
when_ok s packed = 0

unfoldable pub text_date : List ℕ → Status × Container
text_date s =
    let (d, status) = DateTime.set_from_string s in
    (status, set_u32 (when_ok status (DateTime.get_date_int d)))

unfoldable pub text_datetime : List ℕ → Status × Container
text_datetime s =
    let (d, status) = DateTime.set_from_string s in
    (status, set_u64 (when_ok status (DateTime.get_date_time_int d)))

unfoldable pub text_time : List ℕ → Status × Container
text_time s =
    let (t, status) = Time.set_from_string s in
    (status, set_u64 (when_ok status (Time.get_time_int t)))

module _ (fp : Floats) where
  open fp use {mul, pow10, to_uint, float_of_double, float_bits, double_bits, strtod}

  -- The product is cast to `uint64_t` and kept in an `int64_t`.
  unfoldable pub text_decimal : Column → List ℕ → Status × Container
  text_decimal c s =
      let (d, at_end, errno) = strtod s in
      checked at_end errno (set_i64 (pos 0))
        (decimal_s c.width (of_word (2 ^ 64) (to_uint (mul d (pow10 c.scale)))))

  unfoldable pub text_float : List ℕ → Status × Container
  text_float s =
      let (d, at_end, errno) = strtod s in
      checked at_end errno (set_i32 (pos 0)) (ok, set_u32 (float_bits (float_of_double d)))

  unfoldable pub text_double : List ℕ → Status × Container
  text_double s =
      let (d, at_end, errno) = strtod s in
      checked at_end errno (set_i64 (pos 0)) (ok, set_u64 (double_bits d))

  -- The `switch` on the type of the column.
  unfoldable pub convert_text_as : DataType → Column → Container → StringRef → Status × Container
  unfolding signed_case unsigned_case text_utinyint text_usmallint text_umedint text_uint
      text_ubigint text_date text_datetime text_time text_decimal text_float text_double fit_text
      int_bit int_tinyint int_smallint int_medint int_int int_bigint decimal_s
  convert_text_as DataType.bit c k r = signed_case (set_i8 (pos 0)) int_bit (c_str r)
  convert_text_as DataType.tinyint c k r = signed_case (set_i8 (pos 0)) int_tinyint (c_str r)
  convert_text_as DataType.smallint c k r = signed_case (set_i16 (pos 0)) int_smallint (c_str r)
  convert_text_as DataType.udecimal c k r = text_decimal c (c_str r)
  convert_text_as DataType.decimal c k r = text_decimal c (c_str r)
  convert_text_as DataType.medint c k r = signed_case (set_i32 (pos 0)) int_medint (c_str r)
  convert_text_as DataType.int c k r = signed_case (set_i32 (pos 0)) int_int (c_str r)
  convert_text_as DataType.ufloat c k r = text_float (c_str r)
  convert_text_as DataType.float c k r = text_float (c_str r)
  convert_text_as DataType.date c k r = text_date (c_str r)
  convert_text_as DataType.bigint c k r = signed_case (set_i64 (pos 0)) int_bigint (c_str r)
  convert_text_as DataType.double c k r = text_double (c_str r)
  convert_text_as DataType.udouble c k r = text_double (c_str r)
  convert_text_as DataType.time c k r = text_time (c_str r)
  convert_text_as DataType.datetime c k r = text_datetime (c_str r)
  convert_text_as DataType.varchar c k r = fit_text c.width r.bytes
  convert_text_as DataType.char c k r = fit_text c.width r.bytes
  convert_text_as DataType.text c k r = fit_text c.width r.bytes
  convert_text_as DataType.varbinary c k r = fit_text c.width r.bytes
  convert_text_as DataType.clob c k r = fit_text c.width r.bytes
  convert_text_as DataType.blob c k r = fit_text c.width r.bytes
  convert_text_as DataType.utinyint c k r = unsigned_case (set_u8 0) text_utinyint (c_str r)
  convert_text_as DataType.usmallint c k r = unsigned_case (set_u16 0) text_usmallint (c_str r)
  convert_text_as DataType.umedint c k r = unsigned_case (set_u32 0) text_umedint (c_str r)
  convert_text_as DataType.uint c k r = unsigned_case (set_u32 0) text_uint (c_str r)
  convert_text_as DataType.ubigint c k r = unsigned_case (set_u64 0) text_ubigint (c_str r)
  convert_text_as (DataType.unknown n) c k r = (ok, k)

  unfoldable pub convert_text : Column → Container → StringRef → Status × Container
  unfolding convert_text_as
  convert_text c k r = convert_text_as c.kind c k r
