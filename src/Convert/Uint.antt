-- ===== src/Convert/Uint.antt =====
-- src/util_dataconvert.cpp, `ColumnStoreDataConvert::convert` from `uint64_t`. Each case of the
-- `switch` is a function of its own; the value is a number below 2 ^ 64.
use mariadb_columnstore_api.Prelude.{ℕ, ◌-◌, ◌^◌, List, ltb, ◌==◌, if◌then◌else◌, length, take}
use mariadb_columnstore_api.Prelude.Digits.{to_string}
use mariadb_columnstore_api.Types.{
  DataType, Status, Column, Container, ok, saturated, invalid, truncated, set_u8, set_u16, set_u32,
  set_u64, set_str,
}
use mariadb_columnstore_api.Std.{Floats}

unfoldable pub uint_bit : ℕ → Status × Container
uint_bit v = if ltb 1 v then (saturated, set_u8 1) else (ok, set_u8 v)

unfoldable pub uint_tinyint : ℕ → Status × Container
uint_tinyint v = if ltb 127 v then (saturated, set_u8 127) else (ok, set_u8 v)

unfoldable pub uint_smallint : ℕ → Status × Container
uint_smallint v = if ltb 32767 v then (saturated, set_u16 32767) else (ok, set_u16 v)

unfoldable pub uint_medint : ℕ → Status × Container
uint_medint v = if ltb 0xFFFFF v then (saturated, set_u32 0xFFFFF) else (ok, set_u32 v)

unfoldable pub uint_int : ℕ → Status × Container
uint_int v = if ltb 0x7FFFFFFF v then (saturated, set_u32 0x7FFFFFFF) else (ok, set_u32 v)

unfoldable pub uint_bigint : ℕ → Status × Container
uint_bigint v = if ltb (2 ^ 63 - 1) v then (saturated, set_u64 (2 ^ 63 - 1)) else (ok, set_u64 v)

unfoldable pub uint_utinyint : ℕ → Status × Container
uint_utinyint v = if ltb (255 - 2) v then (saturated, set_u8 (255 - 2)) else (ok, set_u8 v)

unfoldable pub uint_usmallint : ℕ → Status × Container
uint_usmallint v = if ltb (65535 - 2) v then (saturated, set_u16 65535) else (ok, set_u16 v)

unfoldable pub uint_umedint : ℕ → Status × Container
uint_umedint v =
    if ltb (0xFFFFFF - 2) v then (saturated, set_u32 (0xFFFFF - 2)) else (ok, set_u32 v)

unfoldable pub uint_uint : ℕ → Status × Container
uint_uint v =
    if ltb (0xFFFFFFFF - 2) v then (saturated, set_u32 (0xFFFFFFFF - 2)) else (ok, set_u32 v)

unfoldable pub uint_ubigint : ℕ → Status × Container
uint_ubigint v =
    if ltb (2 ^ 64 - 1 - 2) v then (saturated, set_u64 (2 ^ 64 - 1 - 2)) else (ok, set_u64 v)

-- The decimal cases, on the scaled value, by the width of the column.
unfoldable pub decimal_u : ℕ → ℕ → Status × Container
decimal_u width v =
    if width == 1
    then (if ltb 255 v then (saturated, set_u8 255) else (ok, set_u8 v))
    else if width == 2
    then (if ltb 65535 v then (saturated, set_u16 65535) else (ok, set_u16 v))
    else if width == 4
    then (if ltb 0xFFFFFFFF v then (saturated, set_u32 0xFFFFFFFF) else (ok, set_u32 v))
    else (ok, set_u64 v)

-- The string cases of every overload: cut to the width of the column.
unfoldable pub fit_text : ℕ → List ℕ → Status × Container
fit_text width s =
    if ltb width (length s) then (truncated, set_str (take width s)) else (ok, set_str s)

module _ (fp : Floats) where
  open fp use {of_uint, mul, pow10, to_uint, float_of_uint, float_bits, double_bits}

  -- The `switch` on the type of the column; the last argument but one is the cell it writes.
  unfoldable pub convert_uint_as : DataType → Column → Container → ℕ → Status × Container
  unfolding uint_bit uint_tinyint uint_smallint uint_medint uint_int uint_bigint uint_utinyint
      uint_usmallint uint_umedint uint_uint uint_ubigint decimal_u fit_text
  convert_uint_as DataType.bit c k v = uint_bit v
  convert_uint_as DataType.tinyint c k v = uint_tinyint v
  convert_uint_as DataType.smallint c k v = uint_smallint v
  convert_uint_as DataType.udecimal c k v =
      decimal_u c.width (to_uint (mul (of_uint v) (pow10 c.scale)))
  convert_uint_as DataType.decimal c k v =
      decimal_u c.width (to_uint (mul (of_uint v) (pow10 c.scale)))
  convert_uint_as DataType.medint c k v = uint_medint v
  convert_uint_as DataType.int c k v = uint_int v
  convert_uint_as DataType.ufloat c k v = (ok, set_u32 (float_bits (float_of_uint v)))
  convert_uint_as DataType.float c k v = (ok, set_u32 (float_bits (float_of_uint v)))
  convert_uint_as DataType.date c k v = (invalid, set_u32 0)
  convert_uint_as DataType.bigint c k v = uint_bigint v
  convert_uint_as DataType.double c k v = (ok, set_u64 (double_bits (of_uint v)))
  convert_uint_as DataType.udouble c k v = (ok, set_u64 (double_bits (of_uint v)))
  convert_uint_as DataType.time c k v = (invalid, set_u64 0)
  convert_uint_as DataType.datetime c k v = (invalid, set_u64 0)
  convert_uint_as DataType.varchar c k v = fit_text c.width (to_string v)
  convert_uint_as DataType.char c k v = fit_text c.width (to_string v)
  convert_uint_as DataType.text c k v = fit_text c.width (to_string v)
  convert_uint_as DataType.varbinary c k v = fit_text c.width (to_string v)
  convert_uint_as DataType.clob c k v = fit_text c.width (to_string v)
  convert_uint_as DataType.blob c k v = fit_text c.width (to_string v)
  convert_uint_as DataType.utinyint c k v = uint_utinyint v
  convert_uint_as DataType.usmallint c k v = uint_usmallint v
  convert_uint_as DataType.umedint c k v = uint_umedint v
  convert_uint_as DataType.uint c k v = uint_uint v
  convert_uint_as DataType.ubigint c k v = uint_ubigint v
  convert_uint_as (DataType.unknown n) c k v = (ok, k)

  unfoldable pub convert_uint : Column → Container → ℕ → Status × Container
  unfolding convert_uint_as
  convert_uint c k v = convert_uint_as c.kind c k v
