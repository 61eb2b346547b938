-- ===== src/Commands/Requests.antt =====
-- The messages of the calls of a bulk insert, of src/util_commands.cpp.
use mariadb_columnstore_api.Prelude.{List, []}
use mariadb_columnstore_api.Messaging.Encode.{Item}
use mariadb_columnstore_api.Bulk.Calls.{Call}
use mariadb_columnstore_api.Commands.Reader.{Command}
use mariadb_columnstore_api.Commands.Answers.{Context, Value, reader_of}
use mariadb_columnstore_api.Commands.Brm.{
  brm_get_txn_id, brm_get_table_lock, brm_get_unique_id, brm_set_hwm_and_cp, brm_rollback,
  brm_committed, brm_rolledback, brm_take_snapshot, brm_change_state, brm_release_table_lock,
}
use mariadb_columnstore_api.Commands.Version.{proc_mon_check_version}
use mariadb_columnstore_api.Commands.WriteEngine.{
  we_bulk_rollback, we_bulk_commit, we_get_written_lbids, we_keep_alive, we_close, we_bulk_insert,
  we_bulk_insert_end, we_rollback_blocks, we_remove_meta,
}

unfoldable pub request_of : Context → Call → List Item
request_of x Call.proc_mon_check_version =
    (proc_mon_check_version x.stale_major x.stale_minor).request
request_of x Call.brm_get_unique_id = brm_get_unique_id.request
request_of x Call.brm_take_snapshot = brm_take_snapshot.request
request_of x (Call.brm_get_txn_id session_id) = (brm_get_txn_id session_id).request
request_of x (Call.brm_committed txn_id) = (brm_committed txn_id).request
request_of x (Call.brm_rolledback txn_id) = (brm_rolledback txn_id).request
request_of x (Call.brm_change_state lock) = (brm_change_state lock).request
request_of x (Call.brm_release_table_lock lock) = (brm_release_table_lock lock).request
request_of x (Call.we_keep_alive pm) = we_keep_alive.request
request_of x (Call.we_close pm) = we_close
request_of x (Call.brm_get_table_lock oid session_id txn_id roots) =
    (brm_get_table_lock x.pid x.now oid session_id txn_id roots).request
request_of x (Call.we_bulk_insert pm id session_id txn_id rows) =
    (we_bulk_insert pm id session_id txn_id x.table rows).request
request_of x (Call.we_bulk_insert_end pm id txn_id oid err) =
    (we_bulk_insert_end id txn_id oid err).request
request_of x (Call.we_get_written_lbids pm id txn_id) = (we_get_written_lbids id txn_id []).request
request_of x (Call.we_remove_meta pm id oid) = (we_remove_meta id oid).request
request_of x (Call.we_bulk_commit pm id session_id txn_id oid) =
    (we_bulk_commit id session_id txn_id oid []).request
request_of x (Call.we_rollback_blocks pm id session_id txn_id) =
    (we_rollback_blocks id session_id txn_id).request
request_of x (Call.we_bulk_rollback pm id session_id lock oid) =
    (we_bulk_rollback id session_id lock oid).request
request_of x (Call.brm_set_hwm_and_cp hwms lbids txn_id) =
    (brm_set_hwm_and_cp hwms lbids txn_id).request
request_of x (Call.brm_rollback lbids txn_id) = (brm_rollback lbids txn_id).request

-- The command of a call.
unfoldable pub command_of : Context → Call → Command Value
unfolding request_of reader_of
command_of x c = record { request = request_of x c; reply = reader_of x c }
