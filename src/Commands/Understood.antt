-- ===== src/Commands/Understood.antt =====
-- The servers understand the requests of src/util_commands.cpp as the calls that they stand for.
use mariadb_columnstore_api.Prelude.{ℕ, ◌≡◌, refl, ◌∙◌, List, [], ◌∷◌, Bool, length, some}
use mariadb_columnstore_api.Types.{Payload}
use mariadb_columnstore_api.Messaging.Encode.{Item}
use mariadb_columnstore_api.Bulk.Rows.{Row}
use mariadb_columnstore_api.Bulk.Calls.{Call}
use mariadb_columnstore_api.Commands.Brm.{
  u32_items, u64_items, hwm_items, extent_items, brm_get_txn_id, brm_get_table_lock,
  brm_get_unique_id, brm_set_hwm_and_cp, brm_rollback, brm_committed, brm_rolledback,
  brm_take_snapshot, brm_change_state, brm_release_table_lock,
}
use mariadb_columnstore_api.Commands.Version.{proc_mon_check_version}
use mariadb_columnstore_api.Commands.WriteEngine.{
  TableName, column_items, data_items, we_bulk_rollback, we_bulk_commit, we_get_written_lbids,
  we_keep_alive, we_bulk_insert, we_bulk_insert_end, we_rollback_blocks, we_remove_meta,
}
use mariadb_columnstore_api.Commands.Answers.{Context}
use mariadb_columnstore_api.Commands.Requests.{request_of}
use mariadb_columnstore_api.Commands.Protocol.{
  Asked, plain, locking, inserting, Port, write_engine, controller, process_monitor, many, checked,
  part_u32, part_u64, part_hwm, part_extent, part_column, part_cell, ended,
}
use mariadb_columnstore_api.Commands.Servers.{
  keep_alive, rollback_blocks, insert_end, batch_commit, batch_rollback, remove_meta, written_lbids,
  close, insert_rows, batch_insert, get_txn_id, valid_txn, change_state, release_lock, vb_rollback,
  get_lock, set_end, set_extents, set_hwm_and_cp, by_code, understood,
}
use mariadb_columnstore_api.Commands.Vectors.{
  u32_items-Reads, u64_items-Reads, hwm_items-Reads, extent_items-Reads, column_items-Reads,
  table_cells, data_items-Reads, with_part-Reads, with_part-ended,
}
use Item.{u32, u64}

-- The server that a call goes to, and what it is meant to understand: an insert is the cells of each
-- column of the table in each of the rows.
unfoldable pub port_of : Call → Port
port_of Call.proc_mon_check_version = process_monitor
port_of (Call.we_keep_alive pm) = write_engine pm
port_of (Call.we_close pm) = write_engine pm
port_of (Call.we_bulk_insert pm id session_id txn_id rows) = write_engine pm
port_of (Call.we_bulk_insert_end pm id txn_id oid err) = write_engine pm
port_of (Call.we_get_written_lbids pm id txn_id) = write_engine pm
port_of (Call.we_remove_meta pm id oid) = write_engine pm
port_of (Call.we_bulk_commit pm id session_id txn_id oid) = write_engine pm
port_of (Call.we_rollback_blocks pm id session_id txn_id) = write_engine pm
port_of (Call.we_bulk_rollback pm id session_id lock oid) = write_engine pm
port_of _ = controller

-- "mcsapi"
abbrev mcsapi : List ℕ
mcsapi = b'm' ∷ b'c' ∷ b's' ∷ b'a' ∷ b'p' ∷ b'i' ∷ []

unfoldable pub asked_of : Context → Call → Asked
unfolding table_cells
asked_of x (Call.brm_get_table_lock oid session_id txn_id roots) =
    locking oid session_id txn_id roots mcsapi x.pid x.now
asked_of x (Call.we_bulk_insert pm id session_id txn_id rows) =
    inserting pm id session_id txn_id x.table (length rows)
      (table_cells 0 (length x.table.columns) rows)
asked_of x c = plain c

-- The rows of an insert behind its columns.
insert_rows-asked :
    (f : TableName → ℕ → List (List (Bool × Payload)) → Asked) (table : TableName) (rows : List Row)
    → insert_rows f table.table_name table.table_schema table.columns
        (u32 (length rows) ∷ data_items 0 (length table.columns) rows)
      ≡ some (f table (length rows) (table_cells 0 (length table.columns) rows))
unfolding insert_rows
insert_rows-asked f table rows =
    with_part-ended (many (many part_cell (length rows)) (length table.columns))
      (data_items 0 (length table.columns) rows) (table_cells 0 (length table.columns) rows)
      (f table (length rows)) (data_items-Reads 0 (length table.columns) rows)

-- The server of a call understands the request of it as that call with all its arguments.
pub understood-request_of :
    (x : Context) (c : Call) → understood (port_of c) (request_of x c) ≡ some (asked_of x c)
unfolding understood by_code port_of request_of asked_of keep_alive rollback_blocks insert_end
    batch_commit batch_rollback remove_meta written_lbids close batch_insert get_txn_id valid_txn
    change_state release_lock vb_rollback get_lock set_end set_extents set_hwm_and_cp checked ended
    brm_get_txn_id brm_get_table_lock brm_get_unique_id brm_set_hwm_and_cp brm_rollback
    brm_committed brm_rolledback brm_take_snapshot brm_change_state brm_release_table_lock
    proc_mon_check_version we_bulk_rollback we_bulk_commit we_get_written_lbids we_keep_alive
    we_bulk_insert we_bulk_insert_end we_rollback_blocks we_remove_meta
understood-request_of x Call.proc_mon_check_version = refl
understood-request_of x Call.brm_get_unique_id = refl
understood-request_of x Call.brm_take_snapshot = refl
understood-request_of x (Call.brm_get_txn_id session_id) = refl
understood-request_of x (Call.brm_committed txn_id) = refl
understood-request_of x (Call.brm_rolledback txn_id) = refl
understood-request_of x (Call.brm_change_state lock) = refl
understood-request_of x (Call.brm_release_table_lock lock) = refl
understood-request_of x (Call.we_keep_alive pm) = refl
understood-request_of x (Call.we_close pm) = refl
understood-request_of x (Call.we_bulk_insert_end pm id txn_id oid err) = refl
understood-request_of x (Call.we_get_written_lbids pm id txn_id) = refl
understood-request_of x (Call.we_remove_meta pm id oid) = refl
understood-request_of x (Call.we_bulk_commit pm id session_id txn_id oid) = refl
understood-request_of x (Call.we_rollback_blocks pm id session_id txn_id) = refl
understood-request_of x (Call.we_bulk_rollback pm id session_id lock oid) = refl
understood-request_of x (Call.brm_get_table_lock oid session_id txn_id roots) =
    with_part-ended (many part_u32 (length roots)) (u32_items roots) roots
      (λ rs. locking oid session_id txn_id rs mcsapi x.pid x.now) (u32_items-Reads roots)
understood-request_of x (Call.brm_rollback lbids txn_id) =
    with_part-ended (many part_u64 (length lbids)) (u64_items lbids) lbids
      (λ ls. plain (Call.brm_rollback ls txn_id)) (u64_items-Reads lbids)
understood-request_of x (Call.brm_set_hwm_and_cp hwms lbids txn_id) =
    with_part-Reads (many part_hwm (length hwms)) (hwm_items hwms) _ hwms
      (λ hs. set_extents (Call.brm_set_hwm_and_cp hs)) (hwm_items-Reads hwms)
    ∙ with_part-Reads (many part_extent (length lbids)) (extent_items lbids)
        (u64 0 ∷ u32 txn_id ∷ []) lbids (λ ls. set_end (Call.brm_set_hwm_and_cp hwms ls))
        (extent_items-Reads lbids)
understood-request_of x (Call.we_bulk_insert pm id session_id txn_id rows) =
    with_part-Reads (many part_column (length x.table.columns)) (column_items x.table.columns)
      (u32 (length rows) ∷ data_items 0 (length x.table.columns) rows) x.table.columns
      (insert_rows (inserting pm id session_id txn_id) x.table.table_name x.table.table_schema)
      (column_items-Reads x.table.columns)
    ∙ insert_rows-asked (inserting pm id session_id txn_id) x.table rows
