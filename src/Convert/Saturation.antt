-- ===== src/Convert/Saturation.antt =====
-- The conversions of src/util_dataconvert.cpp from integers to integer columns, as clamping.
use mariadb_columnstore_api.Prelude.{
  ℕ, ◌^◌, ◌<◌, ◌≡◌, ℤ, pos, ltb_ℤ, some, if◌then◌else◌, arith, false,
}
use mariadb_columnstore_api.Types.{DataType, Column, Container, saturated, quadbyte}
use mariadb_columnstore_api.Std.{Floats}
use mariadb_columnstore_api.Convert.Uint.{convert_uint_as, convert_uint}
use mariadb_columnstore_api.Convert.Int.{int_medint, convert_int_as, convert_int}
use mariadb_columnstore_api.Convert.Range.{
  Range, saturate, range_of, IsMisclamped, IsUnclamped, IsInt64,
}

module _ (fp : Floats) where
  uint_saturates :
      (t : DataType) (c : Column) (k : Container) (v : ℕ) {r : Range}
      → v < 2 ^ 64
      → range_of t ≡ some r
      → ¬ IsMisclamped t
      → convert_uint_as fp t c k v ≡ saturate r (pos v)
  unfolding range_of convert_uint_as
  uint_saturates DataType.bit c k v h e n = ground arith
  uint_saturates _ c k v h e n = ground arith

  int_saturates :
      (t : DataType) (c : Column) (k : Container) (v : ℤ) {r : Range}
      → IsInt64 v
      → range_of t ≡ some r
      → ¬ IsMisclamped t
      → ¬ IsUnclamped t
      → convert_int_as fp t c k v ≡ saturate r v
  unfolding range_of convert_int_as
  int_saturates DataType.bit c k v h e n m = ground arith
  int_saturates _ c k v h e n m = ground arith

  -- From `uint64_t`, every integer type but MEDINT, USMALLINT and UMEDINT is clamped to its range:
  -- the cell holds the nearest value of the range, and the status is SATURATED when that is another
  -- one and NONE otherwise.
  pub convert_uint-saturate :
      (c : Column) (k : Container) (v : ℕ) {r : Range}
      → v < 2 ^ 64
      → range_of c.kind ≡ some r
      → ¬ IsMisclamped c.kind
      → convert_uint fp c k v ≡ saturate r (pos v)
  unfolding convert_uint
  convert_uint-saturate c k v = uint_saturates c.kind c k v

  -- From `int64_t`, every integer type but BIT, UTINYINT, USMALLINT, MEDINT and UMEDINT is clamped
  -- to its range: the cell holds the word of the nearest value of the range, and the status is
  -- SATURATED when that is another one and NONE otherwise.
  pub convert_int-saturate :
      (c : Column) (k : Container) (v : ℤ) {r : Range}
      → IsInt64 v
      → range_of c.kind ≡ some r
      → ¬ IsMisclamped c.kind
      → ¬ IsUnclamped c.kind
      → convert_int fp c k v ≡ saturate r v
  unfolding convert_int
  convert_int-saturate c k v = int_saturates c.kind c k v

  medint_saturates :
      (v : ℤ)
      → int_medint v ≡ (
        saturated,
        record {
          payload = quadbyte (if ltb_ℤ (pos 0xFFFFF) v then 0xFFFFF else 0xFFFFFD);
          is_null = false;
        },
      )
  unfolding int_medint
  medint_saturates v = ground arith

  -- From `int64_t`, no value at all is stored in a MEDINT column: each one is answered SATURATED, and
  -- 0xFFFFF is written for a larger one and 0xFFFFFD for any other.
  pub convert_int-medint :
      (c : Column) (k : Container) (v : ℤ)
      → c.kind ≡ DataType.medint
      → convert_int fp c k v ≡ (
        saturated,
        record {
          payload = quadbyte (if ltb_ℤ (pos 0xFFFFF) v then 0xFFFFF else 0xFFFFFD);
          is_null = false;
        },
      )
  unfolding convert_int
  convert_int-medint c k v e = rw e (medint_saturates v)
