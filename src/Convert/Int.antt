-- ===== src/Convert/Int.antt =====
-- src/util_dataconvert.cpp, `ColumnStoreDataConvert::convert` from `int64_t`. Each case of the
-- `switch` is a function of its own; the value is an integer from -2 ^ 63 to 2 ^ 63 - 1.
use mariadb_columnstore_api.Prelude.{
  ℕ, ◌-◌, ◌^◌, ℤ, pos, negsuc, ltb_ℤ, ◌==◌, if◌then◌else◌, to_word,
}
use mariadb_columnstore_api.Prelude.Digits.{to_string_ℤ}
use mariadb_columnstore_api.Types.{
  DataType, Status, Column, Container, ok, saturated, invalid, set_u8, set_u16, set_u32, set_u64,
  set_i8, set_i16, set_i32, set_i64,
}
use mariadb_columnstore_api.Std.{Floats}
use mariadb_columnstore_api.Convert.Uint.{fit_text}

unfoldable pub int_bit : ℤ → Status × Container
int_bit v = if ltb_ℤ (pos 1) v then (saturated, set_i8 (pos 1)) else (ok, set_i8 v)

unfoldable pub int_tinyint : ℤ → Status × Container
int_tinyint v =
    if ltb_ℤ (pos 127) v
    then (saturated, set_i8 (pos 127))
    else if ltb_ℤ v (negsuc 125)
    then (saturated, set_i8 (negsuc 125))
    else (ok, set_i8 v)

unfoldable pub int_smallint : ℤ → Status × Container
int_smallint v =
    if ltb_ℤ (pos 32767) v
    then (saturated, set_i16 (pos 32767))
    else if ltb_ℤ v (negsuc 32765)
    then (saturated, set_i16 (negsuc 32765))
    else (ok, set_i16 v)

-- The lower test is the source's: 0xFFFFFF - 2 is positive.
unfoldable pub int_medint : ℤ → Status × Container
int_medint v =
    if ltb_ℤ (pos 0xFFFFF) v
    then (saturated, set_i32 (pos 0xFFFFF))
    else if ltb_ℤ v (pos (0xFFFFFF - 2))
    then (saturated, set_i32 (pos (0xFFFFFF - 2)))
    else (ok, set_i32 v)

unfoldable pub int_int : ℤ → Status × Container
int_int v =
    if ltb_ℤ (pos (2 ^ 31 - 1)) v
    then (saturated, set_i32 (pos (2 ^ 31 - 1)))
    else if ltb_ℤ v (negsuc (2 ^ 31 - 1 - 2))
    then (saturated, set_i32 (negsuc (2 ^ 31 - 1 - 2)))
    else (ok, set_i32 v)

unfoldable pub int_bigint : ℤ → Status × Container
int_bigint v =
    if ltb_ℤ (pos (2 ^ 63 - 1)) v
    then (saturated, set_i64 (pos (2 ^ 63 - 1)))
    else if ltb_ℤ v (negsuc (2 ^ 63 - 1 - 2))
    then (saturated, set_i64 (negsuc (2 ^ 63 - 1 - 2)))
    else (ok, set_i64 v)

-- The block behind the second test has no `else`: `uval8 = fromValue` is done in every case.
unfoldable pub int_utinyint : ℤ → Status × Container
int_utinyint v =
    let status =
      if ltb_ℤ (pos (255 - 2)) v then saturated else if ltb_ℤ v (pos 0) then saturated else ok in
    (status, set_u8 (to_word (2 ^ 8) v))

unfoldable pub int_usmallint : ℤ → Status × Container
int_usmallint v =
    if ltb_ℤ (pos (65535 - 2)) v
    then (saturated, set_u16 65535)
    else if ltb_ℤ v (pos 0)
    then (saturated, set_u16 0)
    else (ok, set_u16 (to_word (2 ^ 16) v))

unfoldable pub int_umedint : ℤ → Status × Container
int_umedint v =
    if ltb_ℤ (pos (0xFFFFFF - 2)) v
    then (saturated, set_i32 (pos (0xFFFFF - 2)))
    else if ltb_ℤ v (pos 0)
    then (saturated, set_i32 (pos 0))
    else (ok, set_i32 v)

unfoldable pub int_uint : ℤ → Status × Container
int_uint v =
    if ltb_ℤ (pos (2 ^ 32 - 1 - 2)) v
    then (saturated, set_i32 (pos (2 ^ 32 - 1 - 2)))
    else if ltb_ℤ v (pos 0)
    then (saturated, set_i32 (pos 0))
    else (ok, set_i32 v)

unfoldable pub int_ubigint : ℤ → Status × Container
int_ubigint v =
    if ltb_ℤ (pos (2 ^ 63 - 1)) v
    then (saturated, set_i64 (pos (2 ^ 63 - 1)))
    else if ltb_ℤ v (pos 0)
    then (saturated, set_i64 (pos 0))
    else (ok, set_i64 v)

-- The decimal cases, on the scaled value, by the width of the column.
unfoldable pub decimal_s1 : ℤ → Status × Container
decimal_s1 v =
    if ltb_ℤ (pos 127) v
    then (saturated, set_i8 (pos 127))
    else if ltb_ℤ v (negsuc 127)
    then (saturated, set_i8 (negsuc 127))
    else (ok, set_i8 v)

unfoldable pub decimal_s2 : ℤ → Status × Container
decimal_s2 v =
    if ltb_ℤ (pos 32767) v
    then (saturated, set_i16 (pos 32767))
    else if ltb_ℤ v (negsuc 32767)
    then (saturated, set_i16 (negsuc 32767))
    else (ok, set_i16 v)

unfoldable pub decimal_s4 : ℤ → Status × Container
decimal_s4 v =
    if ltb_ℤ (pos (2 ^ 31 - 1)) v
    then (saturated, set_i32 (pos (2 ^ 31 - 1)))
    else if ltb_ℤ v (negsuc (2 ^ 31 - 1))
    then (saturated, set_i32 (negsuc (2 ^ 31 - 1)))
    else (ok, set_i32 v)

unfoldable pub decimal_s : ℕ → ℤ → Status × Container
unfolding decimal_s1 decimal_s2 decimal_s4
decimal_s width v =
    if width == 1
    then decimal_s1 v
    else if width == 2
    then decimal_s2 v
    else if width == 4
    then decimal_s4 v
    else (ok, set_i64 v)

module _ (fp : Floats) where
  open fp use {of_int, mul, pow10, to_int, float_of_int, float_bits, double_bits}

  -- The `switch` on the type of the column.
  unfoldable pub convert_int_as : DataType → Column → Container → ℤ → Status × Container
  unfolding int_bit int_tinyint int_smallint int_medint int_int int_bigint int_utinyint
      int_usmallint int_umedint int_uint int_ubigint decimal_s fit_text
  convert_int_as DataType.bit c k v = int_bit v
  convert_int_as DataType.tinyint c k v = int_tinyint v
  convert_int_as DataType.smallint c k v = int_smallint v
  convert_int_as DataType.udecimal c k v =
      decimal_s c.width (to_int (mul (of_int v) (pow10 c.scale)))
  convert_int_as DataType.decimal c k v =
      decimal_s c.width (to_int (mul (of_int v) (pow10 c.scale)))
  convert_int_as DataType.medint c k v = int_medint v
  convert_int_as DataType.int c k v = int_int v
  convert_int_as DataType.ufloat c k v = (ok, set_u32 (float_bits (float_of_int v)))
  convert_int_as DataType.float c k v = (ok, set_u32 (float_bits (float_of_int v)))
  convert_int_as DataType.date c k v = (invalid, set_i32 (pos 0))
  convert_int_as DataType.bigint c k v = int_bigint v
  convert_int_as DataType.double c k v = (ok, set_u64 (double_bits (of_int v)))
  convert_int_as DataType.udouble c k v = (ok, set_u64 (double_bits (of_int v)))
  convert_int_as DataType.time c k v = (invalid, set_i64 (pos 0))
  convert_int_as DataType.datetime c k v = (invalid, set_i64 (pos 0))
  convert_int_as DataType.varchar c k v = fit_text c.width (to_string_ℤ v)
  convert_int_as DataType.char c k v = fit_text c.width (to_string_ℤ v)
  convert_int_as DataType.text c k v = fit_text c.width (to_string_ℤ v)
  convert_int_as DataType.varbinary c k v = fit_text c.width (to_string_ℤ v)
  convert_int_as DataType.clob c k v = fit_text c.width (to_string_ℤ v)
  convert_int_as DataType.blob c k v = fit_text c.width (to_string_ℤ v)
  convert_int_as DataType.utinyint c k v = int_utinyint v
  convert_int_as DataType.usmallint c k v = int_usmallint v
  convert_int_as DataType.umedint c k v = int_umedint v
  convert_int_as DataType.uint c k v = int_uint v
  convert_int_as DataType.ubigint c k v = int_ubigint v
  convert_int_as (DataType.unknown n) c k v = (ok, k)

  unfoldable pub convert_int : Column → Container → ℤ → Status × Container
  unfolding convert_int_as
  convert_int c k v = convert_int_as c.kind c k v
