-- ===== src/Driver/Trace.antt =====
-- The calls that clearTableLock of src/mcsapi_driver.cpp is meant to make, in order.
use mariadb_columnstore_api.Prelude.{ℕ, List, [], ◌∷◌, ◌++◌}
use mathlib.Core.List.{flatten, map}
use mariadb_columnstore_api.Bulk.Calls.{Server, Call}
use mariadb_columnstore_api.Commands.Tables.{TableLockInfo}
use Call.{
  proc_mon_check_version, we_keep_alive, brm_get_unique_id, we_get_written_lbids,
  we_rollback_blocks, brm_rollback, we_bulk_rollback, brm_change_state, we_remove_meta, we_close,
  brm_rolledback, brm_release_table_lock,
}

-- The calls that undo the writes of a lock's transaction on one PM, whose write engine answers that
-- it has written the blocks `lbids`.
unfoldable pub undo_calls : ℕ → TableLockInfo → ℕ → List ℕ → List Call
undo_calls id lock pm lbids =
    we_get_written_lbids pm id lock.owner_txn_id
    ∷ we_rollback_blocks pm id lock.owner_session_id lock.owner_txn_id
    ∷ brm_rollback lbids lock.owner_txn_id
    ∷ we_bulk_rollback pm id lock.owner_session_id lock.id lock.table_oid
    ∷ []

-- The same on each of a list of PMs, behind the calls of `log`.
unfoldable pub undo_all_calls : Server → ℕ → TableLockInfo → List ℕ → List Call → List Call
unfolding undo_calls
undo_all_calls srv id lock [] log = []
undo_all_calls srv id lock (pm ∷ pms) log =
    let cs = undo_calls id lock pm (srv.lbids log (we_get_written_lbids pm id lock.owner_txn_id)) in
    cs ++ undo_all_calls srv id lock pms (log ++ cs)

-- The calls that end the work with one PM.
unfoldable pub leave_calls : ℕ → TableLockInfo → ℕ → List Call
leave_calls id lock pm = we_remove_meta pm id lock.table_oid ∷ we_close pm ∷ []

-- The calls in front of the unique id.
unfoldable pub greeting_calls : List ℕ → List Call
greeting_calls pms = proc_mon_check_version ∷ map we_keep_alive pms

-- The calls behind the unique id.
unfoldable pub clearing_calls : Server → ℕ → TableLockInfo → List ℕ → List Call → List Call
unfolding undo_all_calls leave_calls
clearing_calls srv id lock pms log =
    undo_all_calls srv id lock pms log
    ++ ((brm_change_state lock.id ∷ [])
        ++ (flatten (map (leave_calls id lock) pms)
            ++ (brm_rolledback lock.owner_txn_id ∷ brm_release_table_lock lock.id ∷ [])))

-- All the calls, in order.
unfoldable pub clear_calls : Server → TableLockInfo → List ℕ → List Call → List Call
unfolding greeting_calls clearing_calls
clear_calls srv lock pms log =
    let greeted = log ++ greeting_calls pms in
    let id = srv.number greeted brm_get_unique_id in
    let asked = brm_get_unique_id ∷ [] in
    greeting_calls pms ++ (asked ++ clearing_calls srv id lock pms (greeted ++ asked))
