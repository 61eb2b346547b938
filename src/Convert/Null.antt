-- ===== src/Convert/Null.antt =====
-- src/util_dataconvert.cpp, `ColumnStoreDataConvert::getNull`.
use mariadb_columnstore_api.Prelude.{ℕ, [], true, ◌==◌, ◌&&◌, if◌then◌else◌}
use mariadb_columnstore_api.Types.{
  DataType, Status, Column, Container, ok, invalid, set_u8, set_u16, set_u32, set_u64, set_str,
}

-- The `switch` for a column that takes no NULL: zero or the empty string.
unfoldable pub null_refused : DataType → Container → Container
null_refused DataType.bit k = set_u8 0
null_refused DataType.tinyint k = set_u8 0
null_refused DataType.smallint k = set_u16 0
null_refused DataType.bigint k = set_u64 0
null_refused DataType.decimal k = set_u64 0
null_refused DataType.ubigint k = set_u64 0
null_refused DataType.udecimal k = set_u64 0
null_refused DataType.int k = set_u32 0
null_refused DataType.medint k = set_u32 0
null_refused DataType.ufloat k = set_u32 0
null_refused DataType.float k = set_u32 0
null_refused DataType.uint k = set_u32 0
null_refused DataType.umedint k = set_u32 0
null_refused DataType.date k = set_u32 0
null_refused DataType.double k = set_u64 0
null_refused DataType.udouble k = set_u64 0
null_refused DataType.time k = set_u64 0
null_refused DataType.datetime k = set_u64 0
null_refused DataType.varchar k = set_str []
null_refused DataType.char k = set_str []
null_refused DataType.text k = set_str []
null_refused DataType.varbinary k = set_str []
null_refused DataType.clob k = set_str []
null_refused DataType.blob k = set_str []
null_refused DataType.utinyint k = set_u8 0
null_refused DataType.usmallint k = set_u16 0
null_refused (DataType.unknown n) k = k

-- The inner `switch` on the width of a decimal column has no default.
unfoldable pub null_decimal : ℕ → Container → Container
null_decimal width k =
    if width == 1
    then set_u8 0x80
    else if width == 2
    then set_u16 0x8000
    else if width == 4
    then set_u32 0x80000000
    else if width == 8
    then set_u64 0x8000000000000000
    else k

unfoldable pub null_udecimal : ℕ → Container → Container
null_udecimal width k =
    if width == 1
    then set_u8 0xFE
    else if width == 2
    then set_u16 0xFFFE
    else if width == 4
    then set_u32 0xFFFFFFFE
    else if width == 8
    then set_u64 0xFFFFFFFFFFFFFFFE
    else k

-- The `switch` for a column that takes NULL: the marker of the type.
unfoldable pub null_marker : DataType → ℕ → Container → Container
unfolding null_decimal null_udecimal
null_marker DataType.bit width k = set_u8 0xFE
null_marker DataType.tinyint width k = set_u8 0x80
null_marker DataType.smallint width k = set_u16 0x8000
null_marker DataType.bigint width k = set_u64 0x8000000000000000
null_marker DataType.decimal width k = null_decimal width k
null_marker DataType.udecimal width k = null_udecimal width k
null_marker DataType.ubigint width k = set_u64 0xFFFFFFFFFFFFFFFE
null_marker DataType.int width k = set_u32 0x80000000
null_marker DataType.medint width k = set_u32 0x80000000
null_marker DataType.ufloat width k = set_u32 0xFFAAAAAA
null_marker DataType.float width k = set_u32 0xFFAAAAAA
null_marker DataType.uint width k = set_u32 0xFFFFFFFE
null_marker DataType.umedint width k = set_u32 0xFFFFFFFE
null_marker DataType.date width k = set_u32 0xFFFFFFFE
null_marker DataType.double width k = set_u64 0xFFFAAAAAAAAAAAAA
null_marker DataType.udouble width k = set_u64 0xFFFAAAAAAAAAAAAA
null_marker DataType.time width k = set_u64 0xFFFFFFFFFFFFFFFE
null_marker DataType.datetime width k = set_u64 0xFFFFFFFFFFFFFFFE
null_marker DataType.varchar width k = set_str []
null_marker DataType.char width k = set_str []
null_marker DataType.text width k = set_str []
null_marker DataType.varbinary width k = set_str []
null_marker DataType.clob width k = set_str []
null_marker DataType.blob width k = set_str []
null_marker DataType.utinyint width k = set_u8 0xFE
null_marker DataType.usmallint width k = set_u16 0xFFFE
null_marker (DataType.unknown n) width k = k

-- `isNull` is set before the marker, and `setData` clears it again.
unfoldable pub get_null : Column → Container → Status × Container
unfolding null_refused null_marker
get_null c k =
    if (c.nullable == 0) && (c.autoincrement == 0)
    then (invalid, null_refused c.kind k)
    else (ok, null_marker c.kind c.width (record k { is_null = true }))
