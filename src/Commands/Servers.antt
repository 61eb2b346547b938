-- ===== src/Commands/Servers.antt =====
-- The requests that each server reads, behind their codes: those of columnstore_commands_t in
-- src/util_commands.h.
use mariadb_columnstore_api.Prelude.{
  ℕ, List, [], ◌∷◌, Bool, ◌&&◌, ◌==◌, if◌then◌else◌, length, Option, none, some,
}
use mariadb_columnstore_api.Types.{Payload}
use mariadb_columnstore_api.Messaging.Encode.{Item}
use mariadb_columnstore_api.Bulk.Calls.{Call}
use mariadb_columnstore_api.Commands.WriteEngine.{TableName}
use mariadb_columnstore_api.Commands.Protocol.{
  Asked, plain, locking, inserting, Port, write_engine, controller, process_monitor, with_part,
  many, checked, part_u32, part_u64, part_hwm, part_extent, part_column, part_cell, ended,
}
use Item.{u8, u32, u64, str}

-- The requests of the write engine of a PM, behind their code.
unfoldable pub keep_alive : ℕ → List Item → Option Asked
unfolding checked
keep_alive pm (u64 module_id ∷ []) = checked (module_id == 1) (plain (Call.we_keep_alive pm))
keep_alive pm _ = none

unfoldable pub rollback_blocks : ℕ → List Item → Option Asked
rollback_blocks pm (u64 id ∷ u32 session_id ∷ u32 txn_id ∷ []) =
    some (plain (Call.we_rollback_blocks pm id session_id txn_id))
rollback_blocks pm _ = none

unfoldable pub insert_end : ℕ → List Item → Option Asked
unfolding checked
insert_end pm (u64 id ∷ u32 txn_id ∷ u8 auto_commit ∷ u32 oid ∷ u8 err ∷ []) =
    checked (auto_commit == 1) (plain (Call.we_bulk_insert_end pm id txn_id oid err))
insert_end pm _ = none

unfoldable pub batch_commit : ℕ → List Item → Option Asked
batch_commit pm (u64 id ∷ u32 txn_id ∷ u32 oid ∷ u32 session_id ∷ []) =
    some (plain (Call.we_bulk_commit pm id session_id txn_id oid))
batch_commit pm _ = none

unfoldable pub batch_rollback : ℕ → List Item → Option Asked
batch_rollback pm (u64 id ∷ u32 session_id ∷ u64 lock ∷ u32 oid ∷ []) =
    some (plain (Call.we_bulk_rollback pm id session_id lock oid))
batch_rollback pm _ = none

unfoldable pub remove_meta : ℕ → List Item → Option Asked
remove_meta pm (u64 id ∷ u32 oid ∷ []) = some (plain (Call.we_remove_meta pm id oid))
remove_meta pm _ = none

unfoldable pub written_lbids : ℕ → List Item → Option Asked
written_lbids pm (u64 id ∷ u32 txn_id ∷ []) = some (plain (Call.we_get_written_lbids pm id txn_id))
written_lbids pm _ = none

unfoldable pub close : ℕ → List Item → Option Asked
unfolding ended
close pm = ended (plain (Call.we_close pm))

-- The columns and the cells of an insert.
unfoldable pub insert_rows :
    (TableName → ℕ → List (List (Bool × Payload)) → Asked)
    → List ℕ
    → List ℕ
    → List (ℕ × List ℕ)
    → List Item
    → Option Asked
unfolding many part_cell with_part ended
insert_rows f name schema columns (u32 rows ∷ is) =
    with_part (many (many part_cell rows) (length columns) is) (λ cells.
      ended (f (record { table_name = name; table_schema = schema; columns = columns }) rows cells))
insert_rows f name schema columns _ = none

unfoldable pub batch_insert : List Item → Option Asked
unfolding many part_column with_part insert_rows
batch_insert
      (u64 id
        ∷ u32 txn_id
        ∷ u32 pm
        ∷ u32 session_id
        ∷ u8 auto_commit
        ∷ u8 insert_select
        ∷ str name
        ∷ str schema
        ∷ u32 columns
        ∷ is) =
    if (auto_commit == 1) && (insert_select == 1)
    then with_part (many part_column columns is)
        (insert_rows (inserting pm id session_id txn_id) name schema)
    else none
batch_insert _ = none

-- The requests of the DBRM controller.
unfoldable pub get_txn_id : List Item → Option Asked
unfolding checked
get_txn_id (u32 session_id ∷ u8 block ∷ u8 is_ddl ∷ []) =
    checked ((block == 1) && (is_ddl == 0)) (plain (Call.brm_get_txn_id session_id))
get_txn_id _ = none

-- A transaction with a byte that says that it is valid.
unfoldable pub valid_txn : (ℕ → Call) → List Item → Option Asked
unfolding checked
valid_txn f (u32 txn_id ∷ u8 is_valid ∷ []) = checked (is_valid == 1) (plain (f txn_id))
valid_txn f _ = none

unfoldable pub change_state : List Item → Option Asked
unfolding checked
change_state (u64 lock ∷ u32 state ∷ []) = checked (state == 1) (plain (Call.brm_change_state lock))
change_state _ = none

unfoldable pub release_lock : List Item → Option Asked
release_lock (u64 lock ∷ []) = some (plain (Call.brm_release_table_lock lock))
release_lock _ = none

unfoldable pub vb_rollback : List Item → Option Asked
unfolding many part_u64 with_part ended
vb_rollback (u32 txn_id ∷ u64 count ∷ is) =
    with_part (many part_u64 count is) (λ lbids. ended (plain (Call.brm_rollback lbids txn_id)))
vb_rollback _ = none

unfoldable pub get_lock : List Item → Option Asked
unfolding many part_u32 with_part ended
get_lock
      (u64 id
        ∷ u32 oid
        ∷ str owner
        ∷ u32 pid
        ∷ u32 session_id
        ∷ u32 txn_id
        ∷ u8 state
        ∷ u64 now
        ∷ u64 count
        ∷ is) =
    if (id == 0) && (state == 0)
    then with_part (many part_u32 count is)
        (λ roots. ended (locking oid session_id txn_id roots owner pid now))
    else none
get_lock _ = none

-- The unused vector and the transaction behind the marks and the blocks.
unfoldable pub set_end : (ℕ → Call) → List Item → Option Asked
unfolding checked
set_end f (u64 unused ∷ u32 txn_id ∷ []) = checked (unused == 0) (plain (f txn_id))
set_end f _ = none

unfoldable pub set_extents : (List ℕ → ℕ → Call) → List Item → Option Asked
unfolding many part_extent with_part set_end
set_extents f (u64 count ∷ is) = with_part (many part_extent count is) (λ lbids. set_end (f lbids))
set_extents f _ = none

unfoldable pub set_hwm_and_cp : List Item → Option Asked
unfolding many part_hwm with_part set_extents
set_hwm_and_cp (u64 count ∷ is) =
    with_part (many part_hwm count is) (λ hwms. set_extents (Call.brm_set_hwm_and_cp hwms))
set_hwm_and_cp _ = none

-- The request of a code.
unfoldable pub by_code : List (ℕ × (List Item → Option Asked)) → List Item → Option Asked
by_code ((code, p) ∷ ps) (u8 c ∷ is) =
    let rest = by_code ps (u8 c ∷ is) in if c == code then p is else rest
by_code _ _ = none

-- What a server understands.
unfoldable pub understood : Port → List Item → Option Asked
unfolding by_code keep_alive rollback_blocks insert_end batch_commit batch_rollback remove_meta
    written_lbids close batch_insert get_txn_id valid_txn change_state release_lock vb_rollback
    get_lock set_hwm_and_cp ended
understood (write_engine pm) = by_code (
    (0x02, keep_alive pm)
    ∷ (0x08, rollback_blocks pm)
    ∷ (0x37, batch_insert)
    ∷ (0x1C, insert_end pm)
    ∷ (0x1D, batch_commit pm)
    ∷ (0x1E, batch_rollback pm)
    ∷ (0x21, remove_meta pm)
    ∷ (0x30, close pm)
    ∷ (0x38, written_lbids pm)
    ∷ [])
understood controller = by_code (
    (0x07, vb_rollback)
    ∷ (0x1F, ended (plain Call.brm_take_snapshot))
    ∷ (0x28, set_hwm_and_cp)
    ∷ (0x2E, get_txn_id)
    ∷ (0x2F, valid_txn Call.brm_committed)
    ∷ (0x30, valid_txn Call.brm_rolledback)
    ∷ (0x38, ended (plain Call.brm_get_unique_id))
    ∷ (0x46, get_lock)
    ∷ (0x47, release_lock)
    ∷ (0x48, change_state)
    ∷ [])
understood process_monitor = by_code ((0x0E, ended (plain Call.proc_mon_check_version)) ∷ [])
