-- ===== src/Convert/Range.antt =====
-- The ranges of the integer columns that the server documents: two words of each type are reserved,
-- for NULL and for an empty cell. They are what src/util_dataconvert.cpp is held against.
use mariadb_columnstore_api.Prelude.{
  ℕ, ◌-◌, ◌^◌, ℤ, pos, negsuc, ◌≤ℤ◌, ltb_ℤ, to_word, Option, none, some, if◌then◌else◌, false,
}
use mariadb_columnstore_api.Types.{
  DataType, Status, Container, Payload, ok, saturated, byte, duobyte, quadbyte, octbyte,
}

-- The values that a column type takes, and the cell that holds one.
pub record Range : Type 0 where
  pub lo : ℤ
  pub hi : ℤ
  pub modulus : ℕ
  pub cell : ℕ → Payload

abbrev range : ℤ → ℤ → ℕ → (ℕ → Payload) → Option Range
range lo hi m cell = some (record { lo = lo; hi = hi; modulus = m; cell = cell })

-- Clamping to the range: the reference that the conversions are held against.
abbrev pub saturate : Range → ℤ → Status × Container
saturate r v =
    if ltb_ℤ r.hi v
    then (saturated, record { payload = r.cell (to_word r.modulus r.hi); is_null = false })
    else if ltb_ℤ v r.lo
    then (saturated, record { payload = r.cell (to_word r.modulus r.lo); is_null = false })
    else (ok, record { payload = r.cell (to_word r.modulus v); is_null = false })

-- The integer types, but for MEDINT, of which the source's own bounds disagree.
unfoldable pub range_of : DataType → Option Range
range_of DataType.bit = range (pos 0) (pos 1) (2 ^ 8) byte
range_of DataType.tinyint = range (negsuc 125) (pos 127) (2 ^ 8) byte
range_of DataType.smallint = range (negsuc 32765) (pos 32767) (2 ^ 16) duobyte
range_of DataType.int = range (negsuc (2 ^ 31 - 3)) (pos (2 ^ 31 - 1)) (2 ^ 32) quadbyte
range_of DataType.bigint = range (negsuc (2 ^ 63 - 3)) (pos (2 ^ 63 - 1)) (2 ^ 64) octbyte
range_of DataType.utinyint = range (pos 0) (pos 253) (2 ^ 8) byte
range_of DataType.usmallint = range (pos 0) (pos 65533) (2 ^ 16) duobyte
range_of DataType.umedint = range (pos 0) (pos (2 ^ 24 - 3)) (2 ^ 32) quadbyte
range_of DataType.uint = range (pos 0) (pos (2 ^ 32 - 3)) (2 ^ 32) quadbyte
range_of DataType.ubigint = range (pos 0) (pos (2 ^ 64 - 3)) (2 ^ 64) octbyte
range_of t = none

-- The types whose upper clamp is not the maximum.
abbrev pub IsMisclamped : DataType → Type 0
IsMisclamped DataType.usmallint = Unit {0}
IsMisclamped DataType.umedint = Unit {0}
IsMisclamped t = ⊥

-- The types whose lower clamp the conversion from `int64_t` lacks.
abbrev pub IsUnclamped : DataType → Type 0
IsUnclamped DataType.bit = Unit {0}
IsUnclamped DataType.utinyint = Unit {0}
IsUnclamped t = ⊥

abbrev pub IsInt64 : ℤ → Type 0
IsInt64 v = (negsuc (2 ^ 63 - 1) ≤ℤ v) × (v ≤ℤ pos (2 ^ 63 - 1))
