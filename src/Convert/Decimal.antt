-- ===== src/Convert/Decimal.antt =====
-- src/util_dataconvert.cpp, `ColumnStoreDataConvert::convert` from `ColumnStoreDecimal`. Each case
-- of the `switch` that is not one of another overload is a function of its own.
use mariadb_columnstore_api.Prelude.{
  ◌-◌, ◌^◌, ℤ, pos, negsuc, ltb_ℤ, if◌then◌else◌, to_word, of_word,
}
use mariadb_columnstore_api.Types.{
  DataType, Status, Column, Container, ok, saturated, invalid, set_u8, set_u16, set_u32, set_u64,
  set_i8, set_i32, set_i64,
}
use mariadb_columnstore_api.Std.{Floats}
use mariadb_columnstore_api.Decimal.{Decimals, get_decimal_int, get_int, get_double}
use mariadb_columnstore_api.Convert.Uint.{fit_text, decimal_u}
use mariadb_columnstore_api.Convert.Int.{int_tinyint, int_smallint, int_medint, int_int, decimal_s}

unfoldable pub dec_bit : ℤ → Status × Container
dec_bit v =
    if ltb_ℤ (pos 1) v
    then (saturated, set_i8 (pos 1))
    else if ltb_ℤ v (pos 0)
    then (saturated, set_i8 (pos 0))
    else (ok, set_i8 v)

unfoldable pub dec_bigint : ℤ → Status × Container
dec_bigint v =
    if ltb_ℤ v (negsuc (2 ^ 63 - 1 - 2))
    then (saturated, set_i64 (negsuc (2 ^ 63 - 1 - 2)))
    else (ok, set_i64 v)

unfoldable pub dec_utinyint : ℤ → Status × Container
dec_utinyint v =
    if ltb_ℤ (pos (255 - 2)) v
    then (saturated, set_u8 (255 - 2))
    else if ltb_ℤ v (pos 0)
    then (saturated, set_u8 0)
    else (ok, set_u8 (to_word (2 ^ 8) v))

unfoldable pub dec_usmallint : ℤ → Status × Container
dec_usmallint v =
    if ltb_ℤ (pos (65535 - 2)) v
    then (saturated, set_u16 65535)
    else if ltb_ℤ v (pos 0)
    then (saturated, set_u16 0)
    else (ok, set_u16 (to_word (2 ^ 16) v))

unfoldable pub dec_umedint : ℤ → Status × Container
dec_umedint v =
    if ltb_ℤ (pos (0xFFFFFF - 2)) v
    then (saturated, set_u32 (0xFFFFF - 2))
    else if ltb_ℤ v (pos 0)
    then (saturated, set_u32 0)
    else (ok, set_u32 (to_word (2 ^ 32) v))

-- The upper branch writes UINT32_MAX, without the two reserved values.
unfoldable pub dec_uint : ℤ → Status × Container
dec_uint v =
    if ltb_ℤ (pos (2 ^ 32 - 1 - 2)) v
    then (saturated, set_u32 (2 ^ 32 - 1))
    else if ltb_ℤ v (pos 0)
    then (saturated, set_u32 0)
    else (ok, set_u32 (to_word (2 ^ 32) v))

unfoldable pub dec_ubigint : ℤ → Status × Container
dec_ubigint v =
    if ltb_ℤ v (pos 0) then (saturated, set_u64 0) else (ok, set_u64 (to_word (2 ^ 64) v))

module _ (fp : Floats) (dec : Decimals fp) where
  open fp use {float_of_double, float_bits, double_bits}
  open dec use {Number, str18}

  -- The `switch` on the type of the column.
  unfoldable pub convert_decimal_as : DataType → Column → Container → Number → Status × Container
  unfolding dec_bit dec_bigint dec_utinyint dec_usmallint dec_umedint dec_uint dec_ubigint fit_text
      decimal_u int_tinyint int_smallint int_medint int_int decimal_s
  convert_decimal_as DataType.bit c k n = dec_bit (get_int dec n)
  convert_decimal_as DataType.tinyint c k n = int_tinyint (get_int dec n)
  convert_decimal_as DataType.smallint c k n = int_smallint (get_int dec n)
  convert_decimal_as DataType.udecimal c k n = decimal_u c.width (get_decimal_int dec n c.scale)
  convert_decimal_as DataType.decimal c k n =
      decimal_s c.width (of_word (2 ^ 64) (get_decimal_int dec n c.scale))
  convert_decimal_as DataType.medint c k n = int_medint (get_int dec n)
  convert_decimal_as DataType.int c k n = int_int (get_int dec n)
  convert_decimal_as DataType.ufloat c k n =
      (ok, set_u32 (float_bits (float_of_double (get_double dec n))))
  convert_decimal_as DataType.float c k n =
      (ok, set_u32 (float_bits (float_of_double (get_double dec n))))
  convert_decimal_as DataType.date c k n = (invalid, set_i32 (pos 0))
  convert_decimal_as DataType.bigint c k n = dec_bigint (get_int dec n)
  convert_decimal_as DataType.double c k n = (ok, set_u64 (double_bits (get_double dec n)))
  convert_decimal_as DataType.udouble c k n = (ok, set_u64 (double_bits (get_double dec n)))
  convert_decimal_as DataType.time c k n = (invalid, set_i64 (pos 0))
  convert_decimal_as DataType.datetime c k n = (invalid, set_i64 (pos 0))
  convert_decimal_as DataType.varchar c k n = fit_text c.width (str18 n)
  convert_decimal_as DataType.char c k n = fit_text c.width (str18 n)
  convert_decimal_as DataType.text c k n = fit_text c.width (str18 n)
  convert_decimal_as DataType.varbinary c k n = fit_text c.width (str18 n)
  convert_decimal_as DataType.clob c k n = fit_text c.width (str18 n)
  convert_decimal_as DataType.blob c k n = fit_text c.width (str18 n)
  convert_decimal_as DataType.utinyint c k n = dec_utinyint (get_int dec n)
  convert_decimal_as DataType.usmallint c k n = dec_usmallint (get_int dec n)
  convert_decimal_as DataType.umedint c k n = dec_umedint (get_int dec n)
  convert_decimal_as DataType.uint c k n = dec_uint (get_int dec n)
  convert_decimal_as DataType.ubigint c k n = dec_ubigint (get_int dec n)
  convert_decimal_as (DataType.unknown u) c k n = (ok, k)

  unfoldable pub convert_decimal : Column → Container → Number → Status × Container
  unfolding convert_decimal_as
  convert_decimal c k n = convert_decimal_as c.kind c k n
