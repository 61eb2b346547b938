-- ===== src/Convert/Double.antt =====
-- src/util_dataconvert.cpp, `ColumnStoreDataConvert::convert` from `double`. The arithmetic of the
-- machine is a parameter. Each case of the `switch` is a function of its own.
use mariadb_columnstore_api.Prelude.{◌-◌, ◌%◌, ◌^◌, pos, negsuc, ltb, ltb_ℤ, if◌then◌else◌}
use mariadb_columnstore_api.Types.{
  DataType, Status, Column, Container, ok, saturated, invalid, set_u8, set_u16, set_u32, set_u64,
  set_i32, set_i64,
}
use mariadb_columnstore_api.Std.{Floats}
use mariadb_columnstore_api.Convert.Uint.{fit_text, decimal_u}
use mariadb_columnstore_api.Convert.Int.{int_tinyint, int_smallint, int_medint, int_int, decimal_s}

module _ (fp : Floats) where
  open fp use {
    Double, of_int, mul, pow10, to_uint, to_int, float_of_double, float_bits, double_bits, to_u8,
    to_u16, to_u32, exceeds, below_zero, float_below_zero, to_text,
  }

  unfoldable pub double_bit : Double → Status × Container
  double_bit d =
      let v = to_u8 d % 2 ^ 8 in if ltb 1 v then (saturated, set_u8 1) else (ok, set_u8 v)

  unfoldable pub double_ufloat : Double → Status × Container
  double_ufloat d =
      if float_below_zero (float_of_double d)
      then (saturated, set_u32 (float_bits (float_of_double (of_int (pos 0)))))
      else (ok, set_u32 (float_bits (float_of_double d)))

  -- The upper test is on the double, the lower one on the cast value.
  unfoldable pub double_bigint : Double → Status × Container
  double_bigint d =
      if exceeds d (pos (2 ^ 63 - 1))
      then (saturated, set_i64 (pos (2 ^ 63 - 1)))
      else if ltb_ℤ (to_int d) (negsuc (2 ^ 63 - 1 - 2))
      then (saturated, set_i64 (negsuc (2 ^ 63 - 1 - 2)))
      else (ok, set_i64 (to_int d))

  unfoldable pub double_udouble : Double → Status × Container
  double_udouble d =
      if below_zero d
      then (saturated, set_u64 (double_bits (of_int (pos 0))))
      else (ok, set_u64 (double_bits d))

  unfoldable pub double_utinyint : Double → Status × Container
  double_utinyint d =
      if exceeds d (pos (255 - 2))
      then (saturated, set_u8 (255 - 2))
      else if below_zero d
      then (saturated, set_u8 0)
      else (ok, set_u8 (to_u8 d))

  unfoldable pub double_usmallint : Double → Status × Container
  double_usmallint d =
      if exceeds d (pos (65535 - 2))
      then (saturated, set_u16 65535)
      else if below_zero d
      then (saturated, set_u16 0)
      else (ok, set_u16 (to_u16 d))

  unfoldable pub double_umedint : Double → Status × Container
  double_umedint d =
      if exceeds d (pos (0xFFFFFF - 2))
      then (saturated, set_u32 (0xFFFFF - 2))
      else if below_zero d
      then (saturated, set_u32 0)
      else (ok, set_u32 (to_u32 d))

  unfoldable pub double_uint : Double → Status × Container
  double_uint d =
      if exceeds d (pos (0xFFFFFFFF - 2))
      then (saturated, set_u32 (0xFFFFFFFF - 2))
      else if below_zero d
      then (saturated, set_u32 0)
      else (ok, set_u32 (to_u32 d))

  unfoldable pub double_ubigint : Double → Status × Container
  double_ubigint d =
      if exceeds d (pos (2 ^ 63 - 1))
      then (saturated, set_u64 (2 ^ 63 - 1))
      else if below_zero d
      then (saturated, set_u64 0)
      else (ok, set_u64 (to_uint d))

  -- The `switch` on the type of the column. Where the source casts to `int64_t` first, the tests
  -- that follow are those of the conversion from `int64_t`.
  unfoldable pub convert_double_as : DataType → Column → Container → Double → Status × Container
  unfolding double_bit double_ufloat double_bigint double_udouble double_utinyint double_usmallint
      double_umedint double_uint double_ubigint fit_text decimal_u int_tinyint int_smallint
      int_medint int_int decimal_s
  convert_double_as DataType.bit c k d = double_bit d
  convert_double_as DataType.tinyint c k d = int_tinyint (to_int d)
  convert_double_as DataType.smallint c k d = int_smallint (to_int d)
  convert_double_as DataType.udecimal c k d = decimal_u c.width (to_uint (mul d (pow10 c.scale)))
  convert_double_as DataType.decimal c k d = decimal_s c.width (to_int (mul d (pow10 c.scale)))
  convert_double_as DataType.medint c k d = int_medint (to_int d)
  convert_double_as DataType.int c k d = int_int (to_int d)
  convert_double_as DataType.ufloat c k d = double_ufloat d
  convert_double_as DataType.float c k d = (ok, set_u32 (float_bits (float_of_double d)))
  convert_double_as DataType.date c k d = (invalid, set_i32 (pos 0))
  convert_double_as DataType.bigint c k d = double_bigint d
  convert_double_as DataType.double c k d = (ok, set_u64 (double_bits d))
  convert_double_as DataType.udouble c k d = double_udouble d
  convert_double_as DataType.time c k d = (invalid, set_i64 (pos 0))
  convert_double_as DataType.datetime c k d = (invalid, set_i64 (pos 0))
  convert_double_as DataType.varchar c k d = fit_text c.width (to_text d)
  convert_double_as DataType.char c k d = fit_text c.width (to_text d)
  convert_double_as DataType.text c k d = fit_text c.width (to_text d)
  convert_double_as DataType.varbinary c k d = fit_text c.width (to_text d)
  convert_double_as DataType.clob c k d = fit_text c.width (to_text d)
  convert_double_as DataType.blob c k d = fit_text c.width (to_text d)
  convert_double_as DataType.utinyint c k d = double_utinyint d
  convert_double_as DataType.usmallint c k d = double_usmallint d
  convert_double_as DataType.umedint c k d = double_umedint d
  convert_double_as DataType.uint c k d = double_uint d
  convert_double_as DataType.ubigint c k d = double_ubigint d
  convert_double_as (DataType.unknown n) c k d = (ok, k)

  unfoldable pub convert_double : Column → Container → Double → Status × Container
  unfolding convert_double_as
  convert_double c k d = convert_double_as c.kind c k d
