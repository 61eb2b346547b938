-- ===== src/Commands/Tables.antt =====
-- The commands of src/util_commands.cpp that read the system catalogue and the table locks.
use mariadb_columnstore_api.Prelude.{
  ℕ, List, [], ◌∷◌, ◌++◌, if◌then◌else◌, ◌==◌, none, some, get_elem?,
}
use mariadb_columnstore_api.Types.{Column, DataType}
use mariadb_columnstore_api.Messaging.Encode.{Item}
use mariadb_columnstore_api.Commands.Reader.{
  Reader, Command, ServerText, pure, ◌>>=◌, ◌>>◌, and_do, read_word, read_u8, read_u32, read_u64,
  read_str, read_many, delete_message, refuse,
}
use mariadb_columnstore_api.Commands.Brm.{expect_ok}
use Item.{u8, u64}
use ServerText.{getting_system_catalog, getting_lock_info, getting_all_locks, no_lock_found}
use DataType.{
  bit, tinyint, char, smallint, decimal, medint, int, float, date, bigint, double, datetime,
  varchar, varbinary, clob, blob, utinyint, usmallint, udecimal, umedint, uint, ufloat, ubigint,
  udouble, text, time,
}

-- ColumnStoreSystemCatalogTableImpl
pub record Table : Type 0 where
  pub oid : ℕ
  pub schema : List ℕ
  pub table : List ℕ
  pub columns : List Column

-- The enumerators of columnstore_data_types_t, numbered in this order.
abbrev pub enumerators : List DataType
enumerators =
    bit ∷ tinyint ∷ char ∷ smallint ∷ decimal ∷ medint ∷ int ∷ float ∷ date ∷ bigint ∷ double
    ∷ datetime ∷ varchar ∷ varbinary ∷ clob ∷ blob ∷ utinyint ∷ usmallint ∷ udecimal ∷ umedint
    ∷ uint ∷ ufloat ∷ ubigint ∷ udouble ∷ text ∷ time ∷ []

-- `(columnstore_data_types_t) column_type`
unfoldable pub data_type_of : ℕ → DataType
data_type_of n = elim (get_elem? enumerators n) [ none ↦ DataType.unknown n | some t ↦ t ]

-- The inner loop of brmGetSystemCatalog.
unfoldable pub read_column : Reader Column
unfolding and_do read_word read_str data_type_of
read_column = do
  oid ← read_u32
  column ← read_str
  dict_oid ← read_u32
  column_type ← read_u8
  width ← read_u32
  position ← read_u32
  default_val ← read_str
  autoincrement ← read_u8
  precision ← read_u32
  scale ← read_u32
  null ← read_u8
  compression ← read_u8
  pure record {
    oid = oid;
    name = column;
    dict_oid = dict_oid;
    kind = data_type_of column_type;
    width = width;
    position = position;
    default_val = default_val;
    autoincrement = autoincrement;
    precision = precision;
    scale = scale;
    nullable = null;
    compression = compression;
  }

-- The outer loop.
unfoldable pub read_table : Reader Table
unfolding and_do read_word read_str read_many read_column
read_table = do
  oid ← read_u32
  schema ← read_str
  table ← read_str
  column_count ← read_u32
  columns ← read_many read_column column_count
  pure record { oid = oid; schema = schema; table = table; columns = columns }

-- brmGetSystemCatalog
unfoldable pub brm_get_system_catalog : Command (List Table)
unfolding and_do expect_ok read_many read_table
brm_get_system_catalog = record {
  request = u8 0x65 ∷ [];
  reply = do
    expect_ok getting_system_catalog
    table_count ← read_u32
    tables ← read_many read_table table_count
    delete_message
    pure tables;
}

-- TableLockInfo; `state` is the byte of the wire, which is cast to columnstore_lock_types_t.
pub record TableLockInfo : Type 0 where
  pub id : ℕ
  pub table_oid : ℕ
  pub owner_name : List ℕ
  pub owner_pid : ℕ
  pub owner_session_id : ℕ
  pub owner_txn_id : ℕ
  pub state : ℕ
  pub creation_time : ℕ
  pub dbroot_list : List ℕ

-- The fields of a lock, in the order of the wire.
unfoldable pub read_lock : Reader TableLockInfo
unfolding and_do read_word read_str read_many
read_lock = do
  id ← read_u64
  table_oid ← read_u32
  owner_name ← read_str
  owner_pid ← read_u32
  owner_session_id ← read_u32
  owner_txn_id ← read_u32
  state ← read_u8
  creation_time ← read_u64
  count ← read_u64
  dbroot_list ← read_many read_u32 count
  pure record {
    id = id;
    table_oid = table_oid;
    owner_name = owner_name;
    owner_pid = owner_pid;
    owner_session_id = owner_session_id;
    owner_txn_id = owner_txn_id;
    state = state;
    creation_time = creation_time;
    dbroot_list = dbroot_list;
  }

-- brmGetTableLockInfo
unfoldable pub brm_get_table_lock_info : ℕ → Command TableLockInfo
unfolding and_do expect_ok read_lock refuse
brm_get_table_lock_info lock_id = record {
  request = u8 0x4C ∷ u64 lock_id ∷ [];
  reply = do
    expect_ok getting_lock_info
    found ← read_u8
    if found == 0 then refuse (no_lock_found lock_id) else pure tt
    lock ← read_lock
    delete_message
    pure lock;
}

-- brmGetAllTableLocks: the locks go behind those that the vector holds.
unfoldable pub brm_get_all_table_locks : List TableLockInfo → Command (List TableLockInfo)
unfolding and_do expect_ok read_many read_lock
brm_get_all_table_locks table_locks = record {
  request = u8 0x4A ∷ [];
  reply = do
    expect_ok getting_all_locks
    count ← read_u64
    more ← read_many read_lock count
    delete_message
    pure (table_locks ++ more);
}
