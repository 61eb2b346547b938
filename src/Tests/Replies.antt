-- ===== src/Tests/Replies.antt =====
-- Runs of the commands on replies.
use mariadb_columnstore_api.Prelude.{
  ℕ, ◌+◌, ◌≡◌, refl, List, [], ◌∷◌, ◌++◌, length, replicate, arith, some, All,
}
use mathlib.Core.List.{append-nil}
use mariadb_columnstore_api.Types.{DataType}
use mariadb_columnstore_api.Messaging.{skip_header}
use mariadb_columnstore_api.Messaging.Encode.{Item, encode_all}
use mariadb_columnstore_api.Messaging.Decode.{FitsType}
use mariadb_columnstore_api.Network.{Network, Raised}
use mariadb_columnstore_api.Commands.Brm.{brm_get_unique_id}
use mariadb_columnstore_api.Bulk.Calls.{Call, Hwm}
use mariadb_columnstore_api.Commands.Reader.{Result}
use mariadb_columnstore_api.Commands.Gives.{Gave, Stands}
use mariadb_columnstore_api.Commands.Tables.{
  Table, TableLockInfo, brm_get_system_catalog, brm_get_all_table_locks, brm_get_table_lock_info,
}
use mariadb_columnstore_api.Commands.Catalog.{
  IsTable, IsCast, catalog_items, column_items, code_of, brm_get_system_catalog-Gave,
}
use mariadb_columnstore_api.Commands.Locks.{
  IsLock, IsInfo, locks_items, info_items, info_result, brm_get_all_table_locks-Gave,
  brm_get_table_lock_info-Gave,
}
use mariadb_columnstore_api.Commands.Version.{proc_mon_check_version}
use mariadb_columnstore_api.Prelude.Digits.{to_string}
use mariadb_columnstore_api.Std.Scan.{starts_digit}
use mariadb_columnstore_api.Std.Spelled.{Stops}
use mariadb_columnstore_api.Prelude.{none, ◌+◌, leb, ◌==◌, ◌&&◌}
use mariadb_columnstore_api.Commands.Versions.{
  version_items, version_text, proc_mon_check_version-accepts,
}
use mariadb_columnstore_api.Commands.WriteEngine.{add_hwms}
use mariadb_columnstore_api.Commands.Marks.{IsDistinct, height, add_hwms-highest}
use mariadb_columnstore_api.Commands.Loops.{Turn}
use mariadb_columnstore_api.Commands.Answers.{Context, Wire, reply_items, granted_items}
use mariadb_columnstore_api.Tests.Fixtures.{column}
use mariadb_columnstore_api.Tests.Transport.{local}
use mariadb_columnstore_api.Tests.Inserts.{willing}

-- A connection whose message holds values and has not been read.
abbrev holding : List Item → Network
holding is = record local {
  message_out = record {
    lengths = [];
    network_data = replicate 8 0 ++ encode_all is;
    position = 0;
    buffer_used = 8 + length (encode_all is);
  };
}

holding-Stands :
    (is : List Item) → Stands (holding is).message_out (replicate 8 0) (encode_all is ++ []) []
unfolding skip_header
holding-Stands is = record {
  data_is = rw (append-nil (encode_all is), append-nil (encode_all is)) refl;
  position_is = refl;
  used_is = rw (append-nil (encode_all is)) refl;
  behind_header = omega arith;
}

abbrev tables : List Table
tables =
    record {
      oid = 3001;
      schema = 116 ∷ [];
      table = 116 ∷ 49 ∷ [];
      columns = column DataType.decimal 4 ∷ [];
    }
    ∷ []

tables_fit : All IsTable tables
unfolding column_items code_of IsCast
tables_fit = (
  record {
    oid_fits = omega arith;
    schema_fits = omega arith;
    table_fits = omega arith;
    count_fits = omega arith;
    columns_fit = (record { is_cast = tt; fits = ground arith }, tt);
  },
  tt,
)

brm_get_system_catalog-Gave_example :
    Gave brm_get_system_catalog.reply
      (holding (catalog_items tables))
      (replicate 8 0)
      []
      []
      (catalog_items tables)
      (Result.ok tables)
brm_get_system_catalog-Gave_example =
    brm_get_system_catalog-Gave tables tables_fit (omega arith) (holding (catalog_items tables))
      (replicate 8 0) [] [] (holding-Stands (catalog_items tables))

abbrev lock : TableLockInfo
lock = record {
  id = 12;
  table_oid = 3001;
  owner_name = 109 ∷ [];
  owner_pid = 4711;
  owner_session_id = 70000;
  owner_txn_id = 9;
  state = 0;
  creation_time = 1500000000;
  dbroot_list = 1 ∷ 2 ∷ [];
}

lock-IsLock : IsLock lock
lock-IsLock = record {
  id_fits = omega arith;
  table_oid_fits = omega arith;
  owner_name_fits = omega arith;
  owner_pid_fits = omega arith;
  owner_session_id_fits = omega arith;
  owner_txn_id_fits = omega arith;
  state_fits = omega arith;
  creation_time_fits = omega arith;
  count_fits = omega arith;
  dbroots_fit = ground arith;
}

brm_get_all_table_locks-Gave_example :
    Gave
      (brm_get_all_table_locks []).reply
      (holding (locks_items (lock ∷ [])))
      (replicate 8 0)
      []
      []
      (locks_items (lock ∷ []))
      (Result.ok ([] ++ (lock ∷ [])))
brm_get_all_table_locks-Gave_example =
    brm_get_all_table_locks-Gave [] (lock ∷ []) (lock-IsLock, tt) (omega arith)
      (holding (locks_items (lock ∷ []))) (replicate 8 0) [] []
      (holding-Stands (locks_items (lock ∷ [])))

lock-IsInfo : IsInfo (some lock)
unfolding IsInfo
lock-IsInfo = lock-IsLock

brm_get_table_lock_info-Gave_example :
    Gave
      (brm_get_table_lock_info 12).reply
      (holding (info_items (some lock)))
      (replicate 8 0)
      []
      []
      (info_items (some lock))
      (info_result 12 (some lock))
brm_get_table_lock_info-Gave_example =
    brm_get_table_lock_info-Gave 12 (some lock) lock-IsInfo (holding (info_items (some lock)))
      (replicate 8 0) [] [] (holding-Stands (info_items (some lock)))

abbrev version : List ℕ
version = version_text 1 2 (b'.' ∷ b'0' ∷ [])

version_fit : All FitsType (version_items 1 0x0E version)
unfolding to_string
version_fit = ground arith

version-Stops : Stops (b'.' ∷ b'0' ∷ [])
unfolding starts_digit
version-Stops = refl

proc_mon_check_version-accepts_example :
    ((proc_mon_check_version 0 0).reply (holding (version_items 1 0x0E version))).1
    ≡ Result.ok ((1 == 1) && (0x0E == 0x0E) && (leb 1 1 && leb 1 2))
proc_mon_check_version-accepts_example =
    proc_mon_check_version-accepts 0 0 1 0x0E 1 2 (b'.' ∷ b'0' ∷ []) (replicate 8 0) [] []
      (holding (version_items 1 0x0E version)) (omega arith) (omega arith) version-Stops version_fit
      (holding-Stands (version_items 1 0x0E version))

-- Two marks of one segment and one of another.
abbrev marks : List Hwm
marks =
    record { oid = 1; part_num = 0; seg_num = 0; hwm = 5 }
    ∷ record { oid = 2; part_num = 0; seg_num = 0; hwm = 1 }
    ∷ record { oid = 1; part_num = 0; seg_num = 0; hwm = 9 }
    ∷ []

none-IsDistinct : IsDistinct []
unfolding IsDistinct
none-IsDistinct = tt

add_hwms-highest_example :
    IsDistinct (add_hwms [] marks)
    × ((g : Hwm) → height g (add_hwms [] marks) ≡ height g ([] ++ marks))
add_hwms-highest_example = add_hwms-highest [] marks none-IsDistinct

abbrev context : Context
context = record {
  pid = 1;
  now = 2;
  stale_major = 0;
  stale_minor = 0;
  table = record { table_name = []; table_schema = []; columns = [] };
}

abbrev wire : Wire
wire = record {
  code = 3;
  text = [];
  second_text = none;
  echo = 4;
  filler = 5;
  owner_pid = 6;
  owner_name = [];
  owner_session_id = 7;
  owner_txn_id = 8;
}

abbrev quiet : Turn
quiet n = (n, Raised.returned)

abbrev reply_chunks : List (ℕ × List ℕ)
reply_chunks =
    (64, 0x37 ∷ 0xC1 ∷ 0xFB ∷ 0x14 ∷ 9 ∷ 0 ∷ 0 ∷ 0 ∷ 0 ∷ 17 ∷ 0 ∷ 0 ∷ 0 ∷ 0 ∷ 0 ∷ 0 ∷ 0 ∷ []) ∷ []

id_fits : All FitsType (reply_items wire willing [] Call.brm_get_unique_id)
unfolding reply_items granted_items
id_fits = ground arith
