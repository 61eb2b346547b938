-- ===== src/Bulk/Calls.antt =====
-- The commands that src/mcsapi_bulk.cpp sends by ColumnStoreCommands, and what they answer.
use mariadb_columnstore_api.Prelude.{ℕ, List, Bool}
use mariadb_columnstore_api.Bulk.Rows.{Row}

-- ColumnStoreHWM, of src/util_structures.h.
pub record Hwm : Type 0 where
  pub oid : ℕ
  pub part_num : ℕ
  pub seg_num : ℕ
  pub hwm : ℕ

-- A call of ColumnStoreCommands with its arguments, in the order of the source.
pub data Call : Type 0 where
  proc_mon_check_version brm_get_unique_id brm_take_snapshot : Call
  brm_get_txn_id brm_committed brm_rolledback brm_change_state brm_release_table_lock : ℕ → Call
  we_keep_alive we_close : ℕ → Call
  brm_get_table_lock : ℕ → ℕ → ℕ → List ℕ → Call
  we_bulk_insert : ℕ → ℕ → ℕ → ℕ → List Row → Call
  we_bulk_insert_end : ℕ → ℕ → ℕ → ℕ → ℕ → Call
  we_get_written_lbids we_remove_meta : ℕ → ℕ → ℕ → Call
  we_bulk_commit : ℕ → ℕ → ℕ → ℕ → ℕ → Call
  we_rollback_blocks : ℕ → ℕ → ℕ → ℕ → Call
  we_bulk_rollback : ℕ → ℕ → ℕ → ℕ → ℕ → Call
  brm_set_hwm_and_cp : List Hwm → List ℕ → ℕ → Call
  brm_rollback : List ℕ → ℕ → Call

-- What a call does, by the calls before it: whether it returns or throws a ColumnStoreError, and
-- the number, the truth value and the block ids that it gives back, or the high water marks that the
-- reply of weBulkCommit has.
pub record Server : Type 0 where
  pub accepts : List Call → Call → Bool
  pub number : List Call → Call → ℕ
  pub holds : List Call → Call → Bool
  pub lbids : List Call → Call → List ℕ
  pub hwms : List Call → Call → List Hwm
