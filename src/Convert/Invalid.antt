-- ===== src/Convert/Invalid.antt =====
-- What a conversion that answers INVALID leaves in the cell.
use mariadb_columnstore_api.Prelude.{ℕ, ℤ, ◌≡◌, [], arith}
use mariadb_columnstore_api.Types.{
  DataType, Column, Container, Payload, invalid, byte, duobyte, quadbyte, octbyte, varbyte,
}
use mariadb_columnstore_api.Std.{Floats}
use mariadb_columnstore_api.Decimal.{Decimals}
use mariadb_columnstore_api.DateTime.{DateTime}
use mariadb_columnstore_api.Time.{Time}
use mariadb_columnstore_api.Convert.Uint.{convert_uint_as, convert_uint}
use mariadb_columnstore_api.Convert.Int.{convert_int_as, convert_int}
use mariadb_columnstore_api.Convert.Double.{convert_double_as, convert_double}
use mariadb_columnstore_api.Convert.Text.{StringRef, convert_text_as, convert_text}
use mariadb_columnstore_api.Convert.Temporal.{
  convert_date_as, convert_date, convert_time_as, convert_time,
}
use mariadb_columnstore_api.Convert.Decimal.{convert_decimal_as, convert_decimal}
use mariadb_columnstore_api.Convert.Overloads.{
  Value, convert, from_uint, from_int, from_double, from_text, from_date, from_time, from_decimal,
}

-- Zero, or the empty string.
abbrev pub IsZero : Payload → Type 0
IsZero (byte v) = v ≡ 0
IsZero (duobyte v) = v ≡ 0
IsZero (quadbyte v) = v ≡ 0
IsZero (octbyte v) = v ≡ 0
IsZero (varbyte s) = s ≡ []

module _ (fp : Floats) where
  uint-IsZero :
      (t : DataType) (c : Column) (k : Container) (v : ℕ)
      → (convert_uint_as fp t c k v).0 ≡ invalid
      → IsZero (convert_uint_as fp t c k v).1.payload
  unfolding convert_uint_as
  uint-IsZero DataType.bit c k v e = ground arith
  uint-IsZero _ c k v e = ground arith

  int-IsZero :
      (t : DataType) (c : Column) (k : Container) (v : ℤ)
      → (convert_int_as fp t c k v).0 ≡ invalid
      → IsZero (convert_int_as fp t c k v).1.payload
  unfolding convert_int_as
  int-IsZero DataType.bit c k v e = ground arith
  int-IsZero _ c k v e = ground arith

  double-IsZero :
      (t : DataType) (c : Column) (k : Container) (d : fp.Double)
      → (convert_double_as fp t c k d).0 ≡ invalid
      → IsZero (convert_double_as fp t c k d).1.payload
  unfolding convert_double_as
  double-IsZero DataType.bit c k d e = ground arith
  double-IsZero _ c k d e = ground arith

  text-IsZero :
      (t : DataType) (c : Column) (k : Container) (r : StringRef)
      → (convert_text_as fp t c k r).0 ≡ invalid
      → IsZero (convert_text_as fp t c k r).1.payload
  unfolding convert_text_as
  text-IsZero DataType.bit c k r e = ground arith
  text-IsZero _ c k r e = ground arith

  decimal-IsZero :
      (dec : Decimals fp) (t : DataType) (c : Column) (k : Container) (n : dec.Number)
      → (convert_decimal_as fp dec t c k n).0 ≡ invalid
      → IsZero (convert_decimal_as fp dec t c k n).1.payload
  unfolding convert_decimal_as
  decimal-IsZero dec DataType.bit c k n e = ground arith
  decimal-IsZero dec _ c k n e = ground arith

date-IsZero :
    (t : DataType) (c : Column) (k : Container) (d : DateTime)
    → (convert_date_as t c k d).0 ≡ invalid
    → IsZero (convert_date_as t c k d).1.payload
unfolding convert_date_as
date-IsZero DataType.bit c k d e = ground arith
date-IsZero _ c k d e = ground arith

time-IsZero :
    (t : DataType) (c : Column) (k : Container) (d : Time)
    → (convert_time_as t c k d).0 ≡ invalid
    → IsZero (convert_time_as t c k d).1.payload
unfolding convert_time_as
time-IsZero DataType.bit c k d e = ground arith
time-IsZero _ c k d e = ground arith

-- Whatever the column and the overload, a conversion that answers INVALID leaves zero or the empty
-- string in the cell.
pub convert_invalid-IsZero :
    {fp : Floats} {dec : Decimals fp} (c : Column) (k : Container) (v : Value fp dec)
    → (convert c k v).0 ≡ invalid
    → IsZero (convert c k v).1.payload
unfolding convert convert_uint convert_int convert_double convert_text convert_date convert_time
    convert_decimal
convert_invalid-IsZero {fp} c k (from_uint v) e = uint-IsZero fp c.kind c k v e
convert_invalid-IsZero {fp} c k (from_int v) e = int-IsZero fp c.kind c k v e
convert_invalid-IsZero {fp} c k (from_double v) e = double-IsZero fp c.kind c k v e
convert_invalid-IsZero {fp} c k (from_text v) e = text-IsZero fp c.kind c k v e
convert_invalid-IsZero c k (from_date v) e = date-IsZero c.kind c k v e
convert_invalid-IsZero c k (from_time v) e = time-IsZero c.kind c k v e
convert_invalid-IsZero {fp} {dec} c k (from_decimal v) e = decimal-IsZero fp dec c.kind c k v e
