-- ===== src/Bulk/Closing.antt =====
-- commit and rollback of ColumnStoreBulkInsert, of src/mcsapi_bulk.cpp.
use mariadb_columnstore_api.Prelude.{ℕ, [], true, false, ltb, if◌then◌else◌, ◌≡◌, ap}
use mariadb_columnstore_api.Bulk.{BulkInsert, Exit, Error, then_do, call, for_each, send_rows}
use mariadb_columnstore_api.Bulk.Calls.{Server, Call}
use mariadb_columnstore_api.Commands.WriteEngine.{add_hwms}
use Exit.{done, raised}
use Error.{closed}
use Call.{
  brm_get_unique_id, we_bulk_insert_end, we_get_written_lbids, we_bulk_commit, brm_set_hwm_and_cp,
  brm_committed, brm_take_snapshot, brm_change_state, we_remove_meta, we_close,
  brm_release_table_lock, we_rollback_blocks, brm_rollback, we_bulk_rollback, brm_rolledback,
}

-- The part of commit for one PM that writes its data out. The marks of the reply of weBulkCommit go
-- into a new vector, in which those of one segment are merged.
unfoldable pub commit_pm : Server → ℕ → BulkInsert → BulkInsert × Exit
unfolding call then_do add_hwms
commit_pm srv pm b =
    then_do (call srv (we_bulk_insert_end pm b.unique_id b.txn_id b.table_oid 0) b) (λ b1.
      let read_lbids = we_get_written_lbids pm b1.unique_id b1.txn_id in
      let lbids = srv.lbids b1.log read_lbids in
      then_do (call srv read_lbids b1) (λ b2.
        let write_hwms = we_bulk_commit pm b2.unique_id b2.session_id b2.txn_id b2.table_oid in
        let hwms = srv.hwms b2.log write_hwms in
        then_do (call srv write_hwms b2)
          (call srv (brm_set_hwm_and_cp (add_hwms [] hwms) lbids b.txn_id))))

-- The part of commit and rollback that ends the work with one PM.
unfoldable pub close_pm : Server → ℕ → BulkInsert → BulkInsert × Exit
unfolding call then_do
close_pm srv pm b =
    then_do (call srv (we_remove_meta pm b.unique_id b.table_oid) b) (call srv (we_close pm))

-- `uniqueId = commands->brmGetUniqueId()`
unfoldable pub renew_unique_id : Server → BulkInsert → BulkInsert × Exit
unfolding call then_do
renew_unique_id srv b =
    then_do (call srv brm_get_unique_id b)
      (λ b'. (record b' { unique_id = srv.number b.log brm_get_unique_id }, done))

-- The last statements of commit and rollback.
unfoldable pub close_transaction : BulkInsert → BulkInsert × Exit
close_transaction b = (record b { auto_rollback = false; transaction_closed = true }, done)

-- The rows that are not sent yet.
unfoldable pub flush : Server → BulkInsert → BulkInsert × Exit
unfolding send_rows
flush srv b = if ltb 0 b.row_number then send_rows srv b else (b, done)

-- commit behind its check.
unfoldable pub commit_all : Server → BulkInsert → BulkInsert × Exit
unfolding flush renew_unique_id for_each commit_pm close_pm close_transaction call then_do
commit_all srv b0 = then_do (flush srv b0) (λ b. then_do (renew_unique_id srv b) (λ b.
    then_do (for_each b.pm_list (commit_pm srv) b) (λ b.
      then_do (call srv (brm_committed b.txn_id) b) (λ b.
        then_do (call srv brm_take_snapshot b) (λ b.
          then_do (call srv (brm_change_state b.tbl_lock) b) (λ b.
            then_do (for_each b.pm_list (close_pm srv) b) (λ b.
              then_do (call srv (brm_release_table_lock b.tbl_lock) b) close_transaction)))))))

-- commit
unfoldable pub commit : Server → BulkInsert → BulkInsert × Exit
unfolding commit_all
commit srv b = if b.transaction_closed then (b, raised closed) else commit_all srv b

-- The part of rollback for one PM that undoes its writes.
unfoldable pub rollback_pm : Server → ℕ → BulkInsert → BulkInsert × Exit
unfolding call then_do
rollback_pm srv pm b =
    let read_lbids = we_get_written_lbids pm b.unique_id b.txn_id in
    let lbids = srv.lbids b.log read_lbids in
    then_do (call srv read_lbids b) (λ b.
      then_do (call srv (we_rollback_blocks pm b.unique_id b.session_id b.txn_id) b) (λ b.
        then_do (call srv (brm_rollback lbids b.txn_id) b)
          (λ b. call srv (we_bulk_rollback pm b.unique_id b.session_id b.tbl_lock b.table_oid) b)))

-- rollback behind its check.
unfoldable pub rollback_all : Server → BulkInsert → BulkInsert × Exit
unfolding for_each rollback_pm close_pm close_transaction call then_do
rollback_all srv b = then_do (for_each b.pm_list (rollback_pm srv) b) (λ b.
    then_do (call srv (brm_change_state b.tbl_lock) b) (λ b.
      then_do (for_each b.pm_list (close_pm srv) b) (λ b.
        then_do (call srv (brm_rolledback b.txn_id) b)
          (λ b. then_do (call srv (brm_release_table_lock b.tbl_lock) b) close_transaction))))

-- rollback
unfoldable pub rollback : Server → BulkInsert → BulkInsert × Exit
unfolding rollback_all
rollback srv b = if b.transaction_closed then (b, done) else rollback_all srv b

-- The check of an open bulk insert passes.
pub commit-open :
    (srv : Server) (b : BulkInsert) → b.transaction_closed ≡ false → commit srv b ≡ commit_all srv b
unfolding commit
commit-open srv b h = ap (λ x. if x then (b, raised closed) else commit_all srv b) h

pub rollback-open :
    (srv : Server) (b : BulkInsert)
    → b.transaction_closed ≡ false
    → rollback srv b ≡ rollback_all srv b
unfolding rollback
rollback-open srv b h = ap (λ x. if x then (b, done) else rollback_all srv b) h
