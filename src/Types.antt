-- ===== src/Types.antt =====
-- The data that the parts of the library share: the enumerations and the catalogue column of
-- libmcsapi/mcsapi_types.h and src/mcsapi_types_impl.h, and the cell of src/util_structures.h.
-- A C++ string is the list of its bytes.
use mariadb_columnstore_api.Prelude.{ℕ, ◌%◌, ◌^◌, ℤ, List, Bool, false, to_word}

-- columnstore_data_types_t. The catalogue reader casts any byte of the wire to the enumeration;
-- `unknown` is a value that is none of the enumerators, which every `switch` falls through.
pub data DataType : Type 0 where
  bit tinyint char smallint decimal medint int float date bigint double datetime : DataType
  varchar varbinary clob blob utinyint usmallint udecimal umedint uint ufloat ubigint : DataType
  udouble text time : DataType
  unknown : ℕ → DataType

-- columnstore_data_convert_status_t
pub data Status : Type 0 where
  ok saturated invalid truncated : Status

-- ColumnStoreSystemCatalogColumnImpl
pub record Column : Type 0 where
  pub oid : ℕ
  pub name : List ℕ
  pub dict_oid : ℕ
  pub kind : DataType
  pub width : ℕ
  pub position : ℕ
  pub default_val : List ℕ
  pub autoincrement : ℕ
  pub precision : ℕ
  pub scale : ℕ
  pub nullable : ℕ
  pub compression : ℕ

-- The tag of a cell with the storage that the tag selects. The members of the union are read back
-- as unsigned words whatever the sign they were written with, so a word is its bit pattern.
pub data Payload : Type 0 where
  byte duobyte quadbyte octbyte : ℕ → Payload
  varbyte : List ℕ → Payload

-- ColumnStoreDataContainer
pub record Container : Type 0 where
  pub payload : Payload
  pub is_null : Bool

-- What `std::map::operator[]` puts at a key that is not there.
abbrev pub fresh : Container
fresh = record { payload = byte 0; is_null = false }

-- The overloads of `setData`: each stores the value, sets the tag and clears `isNull`.
abbrev pub set_u8 : ℕ → Container
set_u8 v = record { payload = byte (v % 2 ^ 8); is_null = false }

abbrev pub set_u16 : ℕ → Container
set_u16 v = record { payload = duobyte (v % 2 ^ 16); is_null = false }

abbrev pub set_u32 : ℕ → Container
set_u32 v = record { payload = quadbyte (v % 2 ^ 32); is_null = false }

abbrev pub set_u64 : ℕ → Container
set_u64 v = record { payload = octbyte (v % 2 ^ 64); is_null = false }

abbrev pub set_i8 : ℤ → Container
set_i8 v = record { payload = byte (to_word (2 ^ 8) v); is_null = false }

abbrev pub set_i16 : ℤ → Container
set_i16 v = record { payload = duobyte (to_word (2 ^ 16) v); is_null = false }

abbrev pub set_i32 : ℤ → Container
set_i32 v = record { payload = quadbyte (to_word (2 ^ 32) v); is_null = false }

abbrev pub set_i64 : ℤ → Container
set_i64 v = record { payload = octbyte (to_word (2 ^ 64) v); is_null = false }

abbrev pub set_str : List ℕ → Container
set_str s = record { payload = varbyte s; is_null = false }
