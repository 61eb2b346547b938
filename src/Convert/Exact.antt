-- ===== src/Convert/Exact.antt =====
-- The conversions of src/util_dataconvert.cpp from integers, where they answer NONE.
use mariadb_columnstore_api.Prelude.{
  ℕ, ◌^◌, ◌<◌, ◌≡◌, ◌≢◌, ℤ, pos, ◌≤ℤ◌, to_word, some, arith, refl,
}
use mariadb_columnstore_api.Types.{DataType, Column, Container, ok}
use mariadb_columnstore_api.Std.{Floats}
use mariadb_columnstore_api.Convert.Uint.{convert_uint_as, convert_uint}
use mariadb_columnstore_api.Convert.Int.{convert_int_as, convert_int}
use mariadb_columnstore_api.Convert.Range.{Range, range_of, IsInt64}

module _ (fp : Floats) where
  uint_exact :
      (t : DataType) (c : Column) (k : Container) (v : ℕ) {r : Range}
      → v < 2 ^ 64
      → range_of t ≡ some r
      → (convert_uint_as fp t c k v).0 ≡ ok
      → (pos v ≤ℤ r.hi) × ((convert_uint_as fp t c k v).1.payload ≡ r.cell v)
  unfolding range_of convert_uint_as
  uint_exact DataType.bit c k v h e s = ground arith
  uint_exact _ c k v h e s = ground arith

  int_exact :
      (t : DataType) (c : Column) (k : Container) (v : ℤ) {r : Range}
      → IsInt64 v
      → range_of t ≡ some r
      → t ≢ DataType.bit
      → (convert_int_as fp t c k v).0 ≡ ok
      → (r.lo ≤ℤ v)
        × (v ≤ℤ r.hi)
        × ((convert_int_as fp t c k v).1.payload ≡ r.cell (to_word r.modulus v))
  unfolding range_of convert_int_as
  int_exact DataType.bit c k v h e n s = absurd (n refl)
  int_exact _ c k v h e n s = ground arith

  -- Where the conversion from `uint64_t` answers NONE for an integer type other than MEDINT, the
  -- value is at most the maximum of the type and the cell holds it.
  pub convert_uint-exact :
      (c : Column) (k : Container) (v : ℕ) {r : Range}
      → v < 2 ^ 64
      → range_of c.kind ≡ some r
      → (convert_uint fp c k v).0 ≡ ok
      → (pos v ≤ℤ r.hi) × ((convert_uint fp c k v).1.payload ≡ r.cell v)
  unfolding convert_uint
  convert_uint-exact c k v = uint_exact c.kind c k v

  -- Where the conversion from `int64_t` answers NONE for an integer type other than BIT and MEDINT,
  -- the value is within the range of the type and the cell holds its word.
  pub convert_int-exact :
      (c : Column) (k : Container) (v : ℤ) {r : Range}
      → IsInt64 v
      → range_of c.kind ≡ some r
      → c.kind ≢ DataType.bit
      → (convert_int fp c k v).0 ≡ ok
      → (r.lo ≤ℤ v)
        × (v ≤ℤ r.hi)
        × ((convert_int fp c k v).1.payload ≡ r.cell (to_word r.modulus v))
  unfolding convert_int
  convert_int-exact c k v = int_exact c.kind c k v
