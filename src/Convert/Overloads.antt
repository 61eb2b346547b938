-- ===== src/Convert/Overloads.antt =====
-- The overloads of `ColumnStoreDataConvert::convert` under one name, as `setColumn` calls them.
use mariadb_columnstore_api.Prelude.{ℕ, ℤ}
use mariadb_columnstore_api.Types.{Status, Column, Container}
use mariadb_columnstore_api.Std.{Floats}
use mariadb_columnstore_api.Decimal.{Decimals}
use mariadb_columnstore_api.DateTime.{DateTime}
use mariadb_columnstore_api.Time.{Time}
use mariadb_columnstore_api.Convert.Uint.{convert_uint}
use mariadb_columnstore_api.Convert.Int.{convert_int}
use mariadb_columnstore_api.Convert.Double.{convert_double}
use mariadb_columnstore_api.Convert.Text.{StringRef, convert_text}
use mariadb_columnstore_api.Convert.Temporal.{convert_date, convert_time}
use mariadb_columnstore_api.Convert.Decimal.{convert_decimal}

-- The argument of `setColumn`, by its static type.
pub data Value (fp : Floats) (dec : Decimals fp) : Type 0 where
  from_uint : ℕ → Value fp dec
  from_int : ℤ → Value fp dec
  from_double : fp.Double → Value fp dec
  from_text : StringRef → Value fp dec
  from_date : DateTime → Value fp dec
  from_time : Time → Value fp dec
  from_decimal : dec.Number → Value fp dec

module _ {fp : Floats} {dec : Decimals fp} where
  unfoldable pub convert : Column → Container → Value fp dec → Status × Container
  convert c k (from_uint v) = convert_uint fp c k v
  convert c k (from_int v) = convert_int fp c k v
  convert c k (from_double d) = convert_double fp c k d
  convert c k (from_text r) = convert_text fp c k r
  convert c k (from_date d) = convert_date c k d
  convert c k (from_time t) = convert_time c k t
  convert c k (from_decimal n) = convert_decimal fp dec c k n
