-- ===== src/Bulk.antt =====
-- ColumnStoreBulkInsert and ColumnStoreBulkInsertImpl, of src/mcsapi_bulk.cpp, with the table data of
-- src/util_structures.h and the summary of src/mcsapi_types.cpp. An operation gives the state behind
-- it and how it ends. The clock of the summary is left out.
pub mod Rows
pub mod Calls
pub mod Closing
pub mod Refusals
pub mod Ending
pub mod Outcome
pub mod Progress
pub mod Filling
pub mod Overfull
pub mod Runs
pub mod Connecting
pub mod Connected
pub mod Keeping
pub mod Connects
pub mod Unsent
pub mod Batches
pub mod Sent
pub mod Journal
use mariadb_columnstore_api.Prelude.{
  ℕ, zero, suc, ◌+◌, ◌-◌, ◌%◌, ◌^◌, List, [], ◌∷◌, ◌++◌, Bool, true, false, not, ltb, leb, ◌==◌,
  if◌then◌else◌, Option, none, some, length, get_elem?,
}
use mariadb_columnstore_api.Types.{Status, Column, Container}
use mariadb_columnstore_api.Std.{Floats}
use mariadb_columnstore_api.Decimal.{Decimals}
use mariadb_columnstore_api.Convert.Overloads.{Value, convert}
use mariadb_columnstore_api.Convert.Null.{get_null}
use Rows.{Row, cell_at, set_cell}
use Calls.{Server, Call, Hwm}
use Call.{we_bulk_insert}

-- The exceptions, by the checks that throw them.
pub data Error : Type 0 where
  closed no_columns_filled no_pms no_db_roots incompatible_version refused : Error
  table_not_found : Error
  column_not_valid column_not_found column_truncated : ℕ → Error
  pm_out_of_range : Error

pub data Exit : Type 0 where
  done : Exit
  raised : Error → Exit

-- ColumnStoreSummaryImpl
pub record Summary : Type 0 where
  pub invalid_count : ℕ
  pub truncated_count : ℕ
  pub inserted_count : ℕ
  pub saturated_count : ℕ

-- ColumnStoreBulkInsertImpl with its table data: `row` is the index of the row that it points to.
-- `log` holds the calls that were made.
pub record BulkInsert : Type 0 where
  pub columns : List Column
  pub table_oid : ℕ
  pub unique_id : ℕ
  pub tbl_lock : ℕ
  pub txn_id : ℕ
  pub session_id : ℕ
  pub rows : ℕ → Row
  pub row_number : ℕ
  pub row : ℕ
  pub batch_size : ℕ
  pub auto_rollback : Bool
  pub transaction_closed : Bool
  pub truncate_is_error : Bool
  pub pm_list : List ℕ
  pub current_pm : ℕ
  pub summary : Summary
  pub log : List Call

-- getColumnCount, a `uint16_t`.
abbrev pub column_count : BulkInsert → ℕ
column_count b = length b.columns % 2 ^ 16

-- The number of rows that the table data has room for.
abbrev pub max_rows : ℕ
max_rows = 100000

-- A step behind another: an exception of the first one ends both.
unfoldable pub then_do : BulkInsert × Exit → (BulkInsert → BulkInsert × Exit) → BulkInsert × Exit
then_do (b, done) f = f b
then_do (b, raised e) f = (b, raised e)

-- A call whose answer is not used.
unfoldable pub call : Server → Call → BulkInsert → BulkInsert × Exit
call srv c b =
    let b' = record b { log = b.log ++ (c ∷ []) } in
    if srv.accepts b.log c then (b', done) else (b', raised refused)

-- `for (auto& pmit: pmList)`
unfoldable pub for_each :
    List ℕ → (ℕ → BulkInsert → BulkInsert × Exit) → BulkInsert → BulkInsert × Exit
unfolding then_do
for_each [] f b = (b, done)
for_each (pm ∷ pms) f b = then_do (f pm b) (for_each pms f)

-- setStatus
unfoldable pub set_status : Summary → Status → Summary
set_status s Status.ok = s
set_status s Status.invalid = record s { invalid_count = s.invalid_count + 1 }
set_status s Status.saturated = record s { saturated_count = s.saturated_count + 1 }
set_status s Status.truncated = record s { truncated_count = s.truncated_count + 1 }

-- runChecks
unfoldable pub run_checks : BulkInsert → ℕ → BulkInsert × Exit
run_checks b n =
    if b.transaction_closed
    then (b, raised closed)
    else (if ltb (column_count b) n then (b, raised (column_not_valid n)) else (b, done))

-- `(*mImpl->row)[n]` is given a new value.
unfoldable pub put_cell : BulkInsert → ℕ → Container → BulkInsert
unfolding set_cell
put_cell b n c = record b { rows = λ i. if i == b.row then set_cell (b.rows i) n c else b.rows i }

unfoldable is_truncated : Status → Bool
is_truncated Status.truncated = true
is_truncated _ = false

-- The cell and the status of a conversion are kept; `strict` says that a truncation throws.
unfoldable pub keep_cell : Bool → ℕ → Status × Container → BulkInsert → BulkInsert × Exit
unfolding put_cell set_status is_truncated
keep_cell strict n (status, cell) b =
    let b' = record (put_cell b n cell) { summary = set_status b.summary status } in
    if strict
    then (if is_truncated status then (b', raised (column_truncated n)) else (b', done))
    else (b', done)

-- The part of setColumn and setNull behind the checks.
unfoldable pub convert_cell :
    (Column → Container → Status × Container) → Bool → ℕ → BulkInsert → BulkInsert × Exit
unfolding keep_cell cell_at
convert_cell conv strict n b = elim (get_elem? b.columns n) [
  | none ↦ (b, raised (column_not_found n))
  | some column ↦ keep_cell strict n (conv column (cell_at (b.rows b.row) n)) b
]

-- setColumn, in all its overloads, and setCharColumn.
unfoldable pub set_column :
    {fp : Floats} → {dec : Decimals fp} → BulkInsert → ℕ → Value fp dec → BulkInsert × Exit
unfolding run_checks convert_cell then_do convert
set_column b n v =
    then_do (run_checks b n)
      (convert_cell (λ column cell. convert column cell v) b.truncate_is_error n)

-- setNull
unfoldable pub set_null : BulkInsert → ℕ → BulkInsert × Exit
unfolding run_checks convert_cell then_do get_null
set_null b n = then_do (run_checks b n) (convert_cell get_null false n)

-- resetRow
unfoldable pub reset_row : BulkInsert → BulkInsert × Exit
reset_row b =
    if b.transaction_closed
    then (b, raised closed)
    else (record b { rows = λ i. if i == b.row then [] else b.rows i }, done)

-- The first rows of the table data.
unfoldable pub rows_up_to : ℕ → (ℕ → Row) → List Row
rows_up_to zero rows = []
rows_up_to (suc n) rows = rows_up_to n rows ++ (rows n ∷ [])

-- weBulkInsert on a PM; there is none where an index is beyond the end of `pmList`.
unfoldable pub send_to : Server → BulkInsert → Option ℕ → BulkInsert × Exit
unfolding call rows_up_to
send_to srv b none = (b, raised pm_out_of_range)
send_to srv b (some pm) =
    call srv (we_bulk_insert pm b.unique_id b.session_id b.txn_id (rows_up_to b.row_number b.rows))
      b

-- weBulkInsert on the PM whose turn it is.
unfoldable pub send_rows : Server → BulkInsert → BulkInsert × Exit
unfolding send_to
send_rows srv b = send_to srv b (get_elem? b.pm_list b.current_pm)

-- The turn of the next PM, with the rows counted from the start again.
unfoldable pub next_pm : BulkInsert → BulkInsert
next_pm b = record b {
  row_number = 0;
  current_pm = if leb (length b.pm_list) (b.current_pm + 1) then 0 else b.current_pm + 1;
}

-- `row = tableData.getRow()`
unfoldable pub get_row : BulkInsert → BulkInsert
get_row b = record b { row = b.row_number }

-- `tableData.nextRow()` and `insertedCount++`
unfoldable pub next_row : BulkInsert → BulkInsert
next_row b = record b {
  row_number = b.row_number + 1;
  summary = record b.summary { inserted_count = b.summary.inserted_count + 1 };
}

-- writeRow behind its checks.
unfoldable pub store_row : Server → BulkInsert → BulkInsert × Exit
unfolding send_rows next_pm get_row next_row then_do
store_row srv b =
    if leb max_rows (b.row_number + 1)
    then then_do (send_rows srv (next_row b)) (λ b'. (get_row (next_pm b'), done))
    else (get_row (next_row b), done)

-- writeRow
unfoldable pub write_row : Server → BulkInsert → BulkInsert × Exit
unfolding store_row
write_row srv b =
    if b.transaction_closed
    then (b, raised closed)
    else (if length (b.rows b.row) == column_count b
        then store_row srv b
        else (b, raised no_columns_filled))
