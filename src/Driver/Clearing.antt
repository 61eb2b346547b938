-- ===== src/Driver/Clearing.antt =====
-- clearTableLock, of src/mcsapi_driver.cpp. The state is the series of calls that were made.
use mariadb_columnstore_api.Prelude.{ℕ, ◌%◌, ◌^◌, List, [], ◌∷◌, ◌++◌, ◌==◌, if◌then◌else◌, length}
use mathlib.Core.List.{flatten, map}
use mariadb_columnstore_api.Bulk.{Exit, Error}
use mariadb_columnstore_api.Bulk.Calls.{Server, Call}
use mariadb_columnstore_api.Bulk.Connecting.{Cluster, one_to}
use mariadb_columnstore_api.Commands.Tables.{TableLockInfo}
use Exit.{done, raised}
use Error.{refused, no_pms, no_db_roots, incompatible_version}
use Call.{
  proc_mon_check_version, we_keep_alive, brm_get_unique_id, we_get_written_lbids,
  we_rollback_blocks, brm_rollback, we_bulk_rollback, brm_change_state, we_remove_meta, we_close,
  brm_rolledback, brm_release_table_lock,
}

abbrev pub Step : Type 0
Step = List Call → List Call × Exit

-- A step behind another: an exception of the first one ends both.
unfoldable pub and_then : List Call × Exit → Step → List Call × Exit
and_then (log, done) f = f log
and_then (log, raised e) f = (log, raised e)

-- A call.
unfoldable pub ask : Server → Call → Step
ask srv c log =
    if srv.accepts log c then (log ++ (c ∷ []), done) else (log ++ (c ∷ []), raised refused)

-- `for (auto& pmit : pmList)`
unfoldable pub each_pm : (ℕ → Step) → List ℕ → Step
unfolding and_then
each_pm f [] log = (log, done)
each_pm f (pm ∷ pms) log = and_then (f pm log) (each_pm f pms)

-- The PMs of the configuration, in `uint16_t`.
unfoldable pub pm_list : Cluster → List ℕ
unfolding one_to
pm_list cluster = map (λ pm. pm % 2 ^ 16) (one_to cluster.pm_count)

-- `procMonCheckVersion`
unfoldable pub require_version : Server → Step
unfolding and_then ask
require_version srv log = and_then (ask srv proc_mon_check_version log) (λ log'.
    if srv.holds log proc_mon_check_version
    then (log', done)
    else (log', raised incompatible_version))

-- The writes of the lock's transaction on one PM are undone.
unfoldable pub undo_pm : Server → ℕ → TableLockInfo → ℕ → Step
unfolding and_then ask
undo_pm srv unique_id lock pm log =
    let read_lbids = we_get_written_lbids pm unique_id lock.owner_txn_id in
    let lbids = srv.lbids log read_lbids in
    and_then (ask srv read_lbids log) (λ log.
      and_then
        (ask srv (we_rollback_blocks pm unique_id lock.owner_session_id lock.owner_txn_id) log)
        (λ log.
          and_then (ask srv (brm_rollback lbids lock.owner_txn_id) log)
            (ask srv (we_bulk_rollback pm unique_id lock.owner_session_id lock.id lock.table_oid))))

-- The metadata of one PM is removed and its connection closed.
unfoldable pub leave_pm : Server → ℕ → TableLockInfo → ℕ → Step
unfolding and_then ask
leave_pm srv unique_id lock pm log =
    and_then (ask srv (we_remove_meta pm unique_id lock.table_oid) log) (ask srv (we_close pm))

-- The part behind the checks and the unique id.
unfoldable pub clear_pms : Server → ℕ → TableLockInfo → List ℕ → Step
unfolding and_then ask each_pm undo_pm leave_pm
clear_pms srv unique_id lock pms log =
    and_then (each_pm (undo_pm srv unique_id lock) pms log) (λ log.
      and_then (ask srv (brm_change_state lock.id) log) (λ log.
        and_then (each_pm (leave_pm srv unique_id lock) pms log) (λ log.
          and_then (ask srv (brm_rolledback lock.owner_txn_id) log)
            (ask srv (brm_release_table_lock lock.id)))))

-- The part behind the checks of the configuration.
unfoldable pub clear_all : Server → TableLockInfo → List ℕ → Step
unfolding and_then ask each_pm require_version clear_pms
clear_all srv lock pms log = and_then (require_version srv log) (λ log.
    and_then (each_pm (λ pm. ask srv (we_keep_alive pm)) pms log) (λ log.
      and_then (ask srv brm_get_unique_id log)
        (clear_pms srv (srv.number log brm_get_unique_id) lock pms)))

-- clearTableLock of a lock.
unfoldable pub clear_table_lock : Server → Cluster → TableLockInfo → Step
unfolding clear_all pm_list
clear_table_lock srv cluster lock log =
    let pms = pm_list cluster in
    let db_roots = flatten (map cluster.db_roots_for_pm (one_to cluster.pm_count)) in
    if length pms == 0
    then (log, raised no_pms)
    else (if length db_roots == 0 then (log, raised no_db_roots) else clear_all srv lock pms log)

-- clearTableLock by the name of a table, behind getTable and listTableLocks.
unfoldable pub clear_table_locks : Server → Cluster → ℕ → List TableLockInfo → Step
unfolding and_then clear_table_lock
clear_table_locks srv cluster oid [] log = (log, done)
clear_table_locks srv cluster oid (lock ∷ locks) log =
    let now = clear_table_lock srv cluster lock log in
    if lock.table_oid == oid
    then and_then now (clear_table_locks srv cluster oid locks)
    else clear_table_locks srv cluster oid locks log
