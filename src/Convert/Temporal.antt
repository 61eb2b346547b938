-- ===== src/Convert/Temporal.antt =====
-- src/util_dataconvert.cpp, `ColumnStoreDataConvert::convert` from `ColumnStoreDateTime` and from
-- `ColumnStoreTime`.
use mariadb_columnstore_api.Prelude.{pos}
use mariadb_columnstore_api.Types.{
  DataType, Status, Column, Container, ok, invalid, set_u8, set_u16, set_u32, set_u64, set_i8,
  set_i16, set_i32, set_i64,
}
use mariadb_columnstore_api.DateTime
use mariadb_columnstore_api.DateTime.{DateTime}
use mariadb_columnstore_api.Time
use mariadb_columnstore_api.Time.{Time}
use mariadb_columnstore_api.Convert.Uint.{fit_text}

-- The `switch` on the type of the column, from a date and time.
unfoldable pub convert_date_as : DataType → Column → Container → DateTime → Status × Container
unfolding fit_text
convert_date_as DataType.bit c k v = (invalid, set_i8 (pos 0))
convert_date_as DataType.tinyint c k v = (invalid, set_i8 (pos 0))
convert_date_as DataType.smallint c k v = (invalid, set_i16 (pos 0))
convert_date_as DataType.udecimal c k v = (invalid, set_i64 (pos 0))
convert_date_as DataType.decimal c k v = (invalid, set_i64 (pos 0))
convert_date_as DataType.medint c k v = (invalid, set_i32 (pos 0))
convert_date_as DataType.int c k v = (invalid, set_i32 (pos 0))
convert_date_as DataType.ufloat c k v = (invalid, set_i32 (pos 0))
convert_date_as DataType.float c k v = (invalid, set_i32 (pos 0))
convert_date_as DataType.date c k v = (ok, set_u32 (DateTime.get_date_int v))
convert_date_as DataType.bigint c k v = (invalid, set_i64 (pos 0))
convert_date_as DataType.double c k v = (invalid, set_i64 (pos 0))
convert_date_as DataType.udouble c k v = (invalid, set_i64 (pos 0))
convert_date_as DataType.time c k v = (ok, set_u64 (DateTime.get_time_int v))
convert_date_as DataType.datetime c k v = (ok, set_u64 (DateTime.get_date_time_int v))
convert_date_as DataType.varchar c k v = fit_text c.width (DateTime.get_date_time_str v)
convert_date_as DataType.char c k v = fit_text c.width (DateTime.get_date_time_str v)
convert_date_as DataType.text c k v = fit_text c.width (DateTime.get_date_time_str v)
convert_date_as DataType.varbinary c k v = fit_text c.width (DateTime.get_date_time_str v)
convert_date_as DataType.clob c k v = fit_text c.width (DateTime.get_date_time_str v)
convert_date_as DataType.blob c k v = fit_text c.width (DateTime.get_date_time_str v)
convert_date_as DataType.utinyint c k v = (invalid, set_u8 0)
convert_date_as DataType.usmallint c k v = (invalid, set_u16 0)
convert_date_as DataType.umedint c k v = (invalid, set_u32 0)
convert_date_as DataType.uint c k v = (invalid, set_u32 0)
convert_date_as DataType.ubigint c k v = (invalid, set_u64 0)
convert_date_as (DataType.unknown n) c k v = (ok, k)

unfoldable pub convert_date : Column → Container → DateTime → Status × Container
unfolding convert_date_as
convert_date c k v = convert_date_as c.kind c k v

-- The `switch` on the type of the column, from a time.
unfoldable pub convert_time_as : DataType → Column → Container → Time → Status × Container
unfolding fit_text
convert_time_as DataType.bit c k v = (invalid, set_i8 (pos 0))
convert_time_as DataType.tinyint c k v = (invalid, set_i8 (pos 0))
convert_time_as DataType.smallint c k v = (invalid, set_i16 (pos 0))
convert_time_as DataType.udecimal c k v = (invalid, set_i64 (pos 0))
convert_time_as DataType.decimal c k v = (invalid, set_i64 (pos 0))
convert_time_as DataType.medint c k v = (invalid, set_i32 (pos 0))
convert_time_as DataType.int c k v = (invalid, set_i32 (pos 0))
convert_time_as DataType.ufloat c k v = (invalid, set_i32 (pos 0))
convert_time_as DataType.float c k v = (invalid, set_i32 (pos 0))
convert_time_as DataType.date c k v = (invalid, set_i32 (pos 0))
convert_time_as DataType.bigint c k v = (invalid, set_i64 (pos 0))
convert_time_as DataType.double c k v = (invalid, set_i64 (pos 0))
convert_time_as DataType.udouble c k v = (invalid, set_i64 (pos 0))
convert_time_as DataType.time c k v = (ok, set_u64 (Time.get_time_int v))
convert_time_as DataType.datetime c k v = (ok, set_u64 (Time.get_date_time_int v))
convert_time_as DataType.varchar c k v = fit_text c.width (Time.get_time_str v)
convert_time_as DataType.char c k v = fit_text c.width (Time.get_time_str v)
convert_time_as DataType.text c k v = fit_text c.width (Time.get_time_str v)
convert_time_as DataType.varbinary c k v = fit_text c.width (Time.get_time_str v)
convert_time_as DataType.clob c k v = fit_text c.width (Time.get_time_str v)
convert_time_as DataType.blob c k v = fit_text c.width (Time.get_time_str v)
convert_time_as DataType.utinyint c k v = (invalid, set_u8 0)
convert_time_as DataType.usmallint c k v = (invalid, set_u16 0)
convert_time_as DataType.umedint c k v = (invalid, set_u32 0)
convert_time_as DataType.uint c k v = (invalid, set_u32 0)
convert_time_as DataType.ubigint c k v = (invalid, set_u64 0)
convert_time_as (DataType.unknown n) c k v = (ok, k)

unfoldable pub convert_time : Column → Container → Time → Status × Container
unfolding convert_time_as
convert_time c k v = convert_time_as c.kind c k v
