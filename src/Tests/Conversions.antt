-- ===== src/Tests/Conversions.antt =====
-- Runs of the conversions.
use mariadb_columnstore_api.Prelude.{
  ◌^◌, ◌-◌, ◌≡◌, ◌≢◌, refl, inl, inr, pos, negsuc, ◌≤ℤ◌, arith, some, ◌⊎◌, false, if◌then◌else◌,
  ltb_ℤ,
}
use mariadb_columnstore_api.Types.{
  Payload, DataType, Column, ok, saturated, invalid, byte, quadbyte, fresh,
}
use mariadb_columnstore_api.Convert.Overloads.{Value, convert}
use mariadb_columnstore_api.Convert.Uint.{convert_uint}
use mariadb_columnstore_api.Convert.Int.{convert_int}
use mariadb_columnstore_api.Convert.Temporal.{convert_date}
use mariadb_columnstore_api.Convert.Null.{get_null}
use mariadb_columnstore_api.Convert.Range.{Range, saturate, range_of}
use mariadb_columnstore_api.Convert.Layout.{HasSize, size_of, convert-HasSize, convert_date-narrow}
use mariadb_columnstore_api.Convert.Invalid.{IsZero, convert_invalid-IsZero}
use mariadb_columnstore_api.Convert.Saturation.{
  convert_uint-saturate, convert_int-saturate, convert_int-medint,
}
use mariadb_columnstore_api.Convert.Markers.{
  convert_uint-ne-get_null, convert_int-ne-get_null, convert_int-utinyint_null,
}
use mariadb_columnstore_api.DateTime.{DateTime}
use mariadb_columnstore_api.Tests.Fixtures.{whole, whole_decimals, column}

abbrev smallint : Column
smallint = column DataType.smallint 2

abbrev tinyint_range : Range
tinyint_range = record { lo = negsuc 125; hi = pos 127; modulus = 2 ^ 8; cell = byte }

abbrev leap_day : DateTime
leap_day = record {
  year = 2020;
  month = 2;
  day = 29;
  hour = 1;
  minute = 2;
  second = 3;
  microsecond = 4;
}

abbrev seventy : Value whole whole_decimals
seventy = Value.from_uint 70000

convert-HasSize_example :
    HasSize (size_of DataType.smallint 2) (convert smallint fresh seventy).1.payload
convert-HasSize_example = convert-HasSize smallint fresh seventy (inl record {})

convert_date-narrow_example :
    ((convert_date (column DataType.decimal 2) fresh leap_day).1.payload ≡ Payload.octbyte 0)
    × (¬ HasSize
        (size_of DataType.decimal 2)
        (convert_date (column DataType.decimal 2) fresh leap_day).1.payload)
convert_date-narrow_example =
    convert_date-narrow (column DataType.decimal 2) fresh leap_day (inr (inl refl))

abbrev to_date : Value whole whole_decimals
to_date = Value.from_uint 5

to_date_invalid : (convert (column DataType.date 4) fresh to_date).0 ≡ invalid
unfolding convert convert_uint
to_date_invalid = refl

convert_invalid-IsZero_example : IsZero (convert (column DataType.date 4) fresh to_date).1.payload
convert_invalid-IsZero_example =
    convert_invalid-IsZero (column DataType.date 4) fresh to_date to_date_invalid

tinyint_range_is : range_of DataType.tinyint ≡ some tinyint_range
unfolding range_of
tinyint_range_is = refl

convert_uint-saturate_example :
    convert_uint whole (column DataType.tinyint 1) fresh 200 ≡ saturate tinyint_range (pos 200)
convert_uint-saturate_example =
    convert_uint-saturate whole (column DataType.tinyint 1) fresh 200 (omega arith) tinyint_range_is
      (λ e. e)

abbrev tinyint : Column
tinyint = column DataType.tinyint 1

minus_200_is_int64 : (negsuc (2 ^ 63 - 1) ≤ℤ negsuc 199) × (negsuc 199 ≤ℤ pos (2 ^ 63 - 1))
minus_200_is_int64 = ground arith

convert_int-saturate_example :
    convert_int whole tinyint fresh (negsuc 199) ≡ saturate tinyint_range (negsuc 199)
convert_int-saturate_example =
    convert_int-saturate whole tinyint fresh (negsuc 199) minus_200_is_int64 tinyint_range_is
      (λ e. e) (λ e. e)

convert_int-medint_example : convert_int whole (column DataType.medint 4) fresh (pos 5) ≡ (
  saturated,
  record {
    payload = quadbyte (if ltb_ℤ (pos 0xFFFFF) (pos 5) then 0xFFFFF else 0xFFFFFD);
    is_null = false;
  },
)
convert_int-medint_example = convert_int-medint whole (column DataType.medint 4) fresh (pos 5) refl

uint_of_100_is_ok : (convert_uint whole tinyint fresh 100).0 ≡ ok
unfolding convert_uint
uint_of_100_is_ok = refl

int_of_minus_100_is_ok : (convert_int whole tinyint fresh (negsuc 99)).0 ≡ ok
unfolding convert_int
int_of_minus_100_is_ok = refl

minus_100_is_int64 : (negsuc (2 ^ 63 - 1) ≤ℤ negsuc 99) × (negsuc 99 ≤ℤ pos (2 ^ 63 - 1))
minus_100_is_int64 = ground arith

tinyint-ne-bit : DataType.tinyint ≢ DataType.bit
tinyint-ne-bit = ground arith

takes_null : ((tinyint.nullable ≢ 0) ⊎ (tinyint.autoincrement ≢ 0))
takes_null = ground arith

convert_uint-ne-get_null_example :
    (convert_uint whole tinyint fresh 128).1.payload ≢ (get_null tinyint fresh).1.payload
convert_uint-ne-get_null_example =
    convert_uint-ne-get_null whole tinyint fresh fresh 128 (omega arith) tinyint_range_is takes_null

minus_128_is_int64 : (negsuc (2 ^ 63 - 1) ≤ℤ negsuc 127) × (negsuc 127 ≤ℤ pos (2 ^ 63 - 1))
minus_128_is_int64 = ground arith

convert_int-ne-get_null_example :
    (convert_int whole tinyint fresh (negsuc 127)).1.payload ≢ (get_null tinyint fresh).1.payload
convert_int-ne-get_null_example =
    convert_int-ne-get_null whole tinyint fresh fresh (negsuc 127) minus_128_is_int64
      tinyint_range_is (λ e. e) takes_null

convert_int-utinyint_null_example :
    (convert_int whole (column DataType.utinyint 1) fresh (negsuc 1)).1.payload
    ≡ (get_null (column DataType.utinyint 1) fresh).1.payload
convert_int-utinyint_null_example =
    convert_int-utinyint_null whole (column DataType.utinyint 1) fresh fresh (negsuc 1) refl refl
      takes_null
