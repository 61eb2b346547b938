-- ===== src/Convert/Markers.antt =====
-- The NULL markers of `getNull` and the cells that the conversions write.
use mariadb_columnstore_api.Prelude.{ℕ, ◌^◌, ◌<◌, ◌≡◌, ◌≢◌, ◌⊎◌, ℤ, to_word, true, arith, some}
use mariadb_columnstore_api.Types.{DataType, Column, Container}
use mariadb_columnstore_api.Std.{Floats}
use mariadb_columnstore_api.Convert.Uint.{convert_uint_as, convert_uint}
use mariadb_columnstore_api.Convert.Int.{convert_int_as, convert_int}
use mariadb_columnstore_api.Convert.Null.{get_null, null_marker}
use mariadb_columnstore_api.Convert.Range.{Range, range_of, IsInt64, IsUnclamped}

-- A column that takes NULL, or fills itself in.
abbrev pub TakesNull : Column → Type 0
TakesNull c = (c.nullable ≢ 0) ⊎ (c.autoincrement ≢ 0)

module _ (fp : Floats) where
  uint_marker :
      (t : DataType) (c : Column) (w : ℕ) (k k' : Container) (v : ℕ) {r : Range}
      → v < 2 ^ 64
      → range_of t ≡ some r
      → (convert_uint_as fp t c k v).1.payload ≢ (null_marker t w k').payload
  unfolding range_of convert_uint_as null_marker
  uint_marker DataType.bit c w k k' v h e = ground arith
  uint_marker _ c w k k' v h e = ground arith

  int_marker :
      (t : DataType) (c : Column) (w : ℕ) (k k' : Container) (v : ℤ) {r : Range}
      → IsInt64 v
      → range_of t ≡ some r
      → ¬ IsUnclamped t
      → (convert_int_as fp t c k v).1.payload ≢ (null_marker t w k').payload
  unfolding range_of convert_int_as null_marker
  int_marker DataType.bit c w k k' v h e n = ground arith
  int_marker _ c w k k' v h e n = ground arith

  -- No `uint64_t` value is written to an integer column as the NULL marker of the column, where the
  -- column takes NULL or fills itself in and its type is not MEDINT.
  pub convert_uint-ne-get_null :
      (c : Column) (k k' : Container) (v : ℕ) {r : Range}
      → v < 2 ^ 64
      → range_of c.kind ≡ some r
      → TakesNull c
      → (convert_uint fp c k v).1.payload ≢ (get_null c k').1.payload
  unfolding convert_uint get_null
  convert_uint-ne-get_null c k k' v h e n =
      ground (arith, uint_marker c.kind c c.width k (record k' { is_null = true }) v h e)

  -- No `int64_t` value is written to an integer column as the NULL marker of the column, where the
  -- column takes NULL or fills itself in and its type is neither MEDINT nor one of BIT and
  -- UTINYINT, for which negative values are not clamped.
  pub convert_int-ne-get_null :
      (c : Column) (k k' : Container) (v : ℤ) {r : Range}
      → IsInt64 v
      → range_of c.kind ≡ some r
      → ¬ IsUnclamped c.kind
      → TakesNull c
      → (convert_int fp c k v).1.payload ≢ (get_null c k').1.payload
  unfolding convert_int get_null
  convert_int-ne-get_null c k k' v h e u n =
      ground (arith, int_marker c.kind c c.width k (record k' { is_null = true }) v h e u)

  -- The byte that `int64_t` values equal to 254 modulo 256 leave in an UTINYINT column is its NULL
  -- marker, for lack of a clamp.
  pub convert_int-utinyint_null :
      (c : Column) (k k' : Container) (v : ℤ)
      → c.kind ≡ DataType.utinyint
      → to_word (2 ^ 8) v ≡ 254
      → TakesNull c
      → (convert_int fp c k v).1.payload ≡ (get_null c k').1.payload
  unfolding convert_int convert_int_as get_null null_marker
  convert_int-utinyint_null c k k' v e h n = rw e (ground arith)
