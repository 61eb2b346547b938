-- ===== src/Convert/Layout.antt =====
-- The cell that each column type takes on the wire, which carries no tag: the server reads as many
-- bytes as the type of the column says.
use mariadb_columnstore_api.Prelude.{
  ◌⊎◌, inl, inr, ℤ, ℕ, ◌<◌, ◌≡◌, refl, ◌^◌, ◌==◌, if◌then◌else◌, arith,
}
use mariadb_columnstore_api.Types.{
  DataType, Column, Container, Payload, byte, duobyte, quadbyte, octbyte, varbyte,
}
use mariadb_columnstore_api.Std.{Floats}
use mariadb_columnstore_api.Decimal.{Decimals}
use mariadb_columnstore_api.DateTime.{DateTime}
use mariadb_columnstore_api.Time.{Time}
use mariadb_columnstore_api.Convert.Uint.{convert_uint_as, convert_uint}
use mariadb_columnstore_api.Convert.Int.{convert_int_as, convert_int}
use mariadb_columnstore_api.Convert.Double.{convert_double_as, convert_double}
use mariadb_columnstore_api.Convert.Text.{StringRef, convert_text_as, convert_text}
use mariadb_columnstore_api.Convert.Temporal.{
  convert_date_as, convert_date, convert_time_as, convert_time,
}
use mariadb_columnstore_api.Convert.Decimal.{convert_decimal_as, convert_decimal}
use mariadb_columnstore_api.Convert.Overloads.{
  Value, convert, from_uint, from_int, from_double, from_text, from_date, from_time, from_decimal,
}

-- How many bytes a cell has; a text stands behind its length.
pub data Size : Type 0 where
  one two four eight text_size any_size : Size

pub size_of_decimal : ℕ → Size
size_of_decimal width =
    if width == 1 then one else if width == 2 then two else if width == 4 then four else eight

pub size_of : DataType → ℕ → Size
size_of DataType.bit w = one
size_of DataType.tinyint w = one
size_of DataType.utinyint w = one
size_of DataType.smallint w = two
size_of DataType.usmallint w = two
size_of DataType.medint w = four
size_of DataType.umedint w = four
size_of DataType.int w = four
size_of DataType.uint w = four
size_of DataType.float w = four
size_of DataType.ufloat w = four
size_of DataType.date w = four
size_of DataType.bigint w = eight
size_of DataType.ubigint w = eight
size_of DataType.double w = eight
size_of DataType.udouble w = eight
size_of DataType.time w = eight
size_of DataType.datetime w = eight
size_of DataType.decimal w = size_of_decimal w
size_of DataType.udecimal w = size_of_decimal w
size_of DataType.char w = text_size
size_of DataType.varchar w = text_size
size_of DataType.varbinary w = text_size
size_of DataType.clob w = text_size
size_of DataType.blob w = text_size
size_of DataType.text w = text_size
size_of (DataType.unknown n) w = any_size

-- The cell has the size, and its word fits it.
abbrev pub HasSize : Size → Payload → Type 0
HasSize one (byte v) = v < 2 ^ 8
HasSize two (duobyte v) = v < 2 ^ 16
HasSize four (quadbyte v) = v < 2 ^ 32
HasSize eight (octbyte v) = v < 2 ^ 64
HasSize text_size (varbyte s) = Unit {0}
HasSize any_size p = Unit {0}
HasSize s p = ⊥

-- A decimal column of one, two or four bytes.
abbrev pub IsNarrowDecimal : DataType → ℕ → Type 0
IsNarrowDecimal DataType.decimal w = (w ≡ 1) ⊎ (w ≡ 2) ⊎ (w ≡ 4)
IsNarrowDecimal DataType.udecimal w = (w ≡ 1) ⊎ (w ≡ 2) ⊎ (w ≡ 4)
IsNarrowDecimal t w = ⊥

module _ (fp : Floats) where
  uint_size :
      (t : DataType) (c : Column) (k : Container) (v : ℕ)
      → HasSize (size_of t c.width) (convert_uint_as fp t c k v).1.payload
  unfolding size_of size_of_decimal convert_uint_as
  uint_size DataType.bit c k v = ground arith
  uint_size _ c k v = ground arith

  int_size :
      (t : DataType) (c : Column) (k : Container) (v : ℤ)
      → HasSize (size_of t c.width) (convert_int_as fp t c k v).1.payload
  unfolding size_of size_of_decimal convert_int_as
  int_size DataType.bit c k v = ground arith
  int_size _ c k v = ground arith

  double_size :
      (t : DataType) (c : Column) (k : Container) (d : fp.Double)
      → HasSize (size_of t c.width) (convert_double_as fp t c k d).1.payload
  unfolding size_of size_of_decimal convert_double_as
  double_size DataType.bit c k d = ground arith
  double_size _ c k d = ground arith

  text_size_is :
      (t : DataType) (c : Column) (k : Container) (r : StringRef)
      → ¬ IsNarrowDecimal t c.width
      → HasSize (size_of t c.width) (convert_text_as fp t c k r).1.payload
  unfolding size_of size_of_decimal convert_text_as
  text_size_is DataType.bit c k r n = ground arith
  text_size_is _ c k r n = ground arith

  decimal_size :
      (dec : Decimals fp) (t : DataType) (c : Column) (k : Container) (n : dec.Number)
      → HasSize (size_of t c.width) (convert_decimal_as fp dec t c k n).1.payload
  unfolding size_of size_of_decimal convert_decimal_as
  decimal_size dec DataType.bit c k n = ground arith
  decimal_size dec _ c k n = ground arith

date_size :
    (t : DataType) (c : Column) (k : Container) (d : DateTime)
    → ¬ IsNarrowDecimal t c.width
    → HasSize (size_of t c.width) (convert_date_as t c k d).1.payload
unfolding size_of size_of_decimal convert_date_as
date_size DataType.bit c k d n = ground arith
date_size _ c k d n = ground arith

time_size :
    (t : DataType) (c : Column) (k : Container) (d : Time)
    → ¬ IsNarrowDecimal t c.width
    → HasSize (size_of t c.width) (convert_time_as t c k d).1.payload
unfolding size_of size_of_decimal convert_time_as
time_size DataType.bit c k d n = ground arith
time_size _ c k d n = ground arith

module _ {fp : Floats} {dec : Decimals fp} where
  -- The overloads from numbers.
  abbrev pub IsNumeric : Value fp dec → Type 0
  IsNumeric (from_uint v) = Unit {0}
  IsNumeric (from_int v) = Unit {0}
  IsNumeric (from_double v) = Unit {0}
  IsNumeric (from_decimal v) = Unit {0}
  IsNumeric (from_text v) = ⊥
  IsNumeric (from_date v) = ⊥
  IsNumeric (from_time v) = ⊥

  -- Every overload leaves a cell of the size that the column takes on the wire, with a word that
  -- fits it: from a number for every column, from a text, a date or a time for every column but a
  -- decimal one of one, two or four bytes.
  pub convert-HasSize :
      (c : Column) (k : Container) (v : Value fp dec)
      → IsNumeric v ⊎ ¬ IsNarrowDecimal c.kind c.width
      → HasSize (size_of c.kind c.width) (convert c k v).1.payload
  unfolding convert convert_uint convert_int convert_double convert_text convert_date convert_time
      convert_decimal
  convert-HasSize c k (from_uint v) h = uint_size fp c.kind c k v
  convert-HasSize c k (from_int v) h = int_size fp c.kind c k v
  convert-HasSize c k (from_double v) h = double_size fp c.kind c k v
  convert-HasSize c k (from_decimal v) h = decimal_size fp dec c.kind c k v
  convert-HasSize c k (from_text v) (inl n) = absurd n
  convert-HasSize c k (from_text v) (inr n) = text_size_is fp c.kind c k v n
  convert-HasSize c k (from_date v) (inl n) = absurd n
  convert-HasSize c k (from_date v) (inr n) = date_size c.kind c k v n
  convert-HasSize c k (from_time v) (inl n) = absurd n
  convert-HasSize c k (from_time v) (inr n) = time_size c.kind c k v n

narrow_date :
    (t : DataType) (c : Column) (k : Container) (d : DateTime)
    → IsNarrowDecimal t c.width
    → ((convert_date_as t c k d).1.payload ≡ octbyte 0)
      × (¬ HasSize (size_of t c.width) (convert_date_as t c k d).1.payload)
unfolding size_of size_of_decimal convert_date_as
narrow_date DataType.decimal c k d n = (refl, ground arith)
narrow_date DataType.udecimal c k d n = (refl, ground arith)
narrow_date _ c k d n = ground arith

-- A date written to a decimal column of one, two or four bytes leaves a cell of eight zero bytes,
-- which is not of the size that the column takes on the wire.
pub convert_date-narrow :
    (c : Column) (k : Container) (d : DateTime)
    → IsNarrowDecimal c.kind c.width
    → ((convert_date c k d).1.payload ≡ octbyte 0)
      × (¬ HasSize (size_of c.kind c.width) (convert_date c k d).1.payload)
unfolding convert_date
convert_date-narrow c k d = narrow_date c.kind c k d
