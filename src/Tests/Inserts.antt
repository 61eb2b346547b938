-- ===== src/Tests/Inserts.antt =====
-- Runs of a bulk insert.
use mariadb_columnstore_api.Prelude.{
  ◌≡◌, ◌≢◌, ◌<◌, refl, List, [], ◌∷◌, ◌++◌, length, arith, true, false,
}
use mariadb_columnstore_api.Types.{DataType, fresh}
use mariadb_columnstore_api.Convert.Overloads.{Value}
use mariadb_columnstore_api.Bulk.{
  BulkInsert, Exit, Error, max_rows, set_column, write_row, store_row, send_rows, send_to, next_row,
  get_row, then_do, call,
}
use mariadb_columnstore_api.Bulk.Calls.{Server}
use mariadb_columnstore_api.Bulk.Closing.{commit, rollback}
use mariadb_columnstore_api.Bulk.Outcome.{Ended, commit-Ended, rollback-Ended}
use mariadb_columnstore_api.Bulk.Progress.{IsWilling, commit-returns, rollback-returns}
use mariadb_columnstore_api.Bulk.Filling.{IsReady}
use mariadb_columnstore_api.Bulk.Overfull.{write_row-refused}
use mariadb_columnstore_api.Bulk.Runs.{Action, act, Runs, Runs-IsReady}
use mariadb_columnstore_api.Bulk.Rows.{Row}
use mariadb_columnstore_api.Bulk.Batches.{sent_rows, all_rows}
use mariadb_columnstore_api.Bulk.Journal.{row_written, Writes, Writes-commit}
use mariadb_columnstore_api.Tests.Fixtures.{whole, whole_decimals, column}
use Exit.{done, raised}
use Error.{refused}

-- A server that takes every call, and one that takes none.
abbrev pub willing : Server
willing = record {
  accepts = λ log c. true;
  number = λ log c. 17;
  holds = λ log c. true;
  lbids = λ log c. 5 ∷ [];
  hwms = λ log c. [];
}

abbrev unwilling : Server
unwilling = record willing { accepts = λ log c. false }

pub willing-IsWilling : IsWilling willing
willing-IsWilling log c = refl

abbrev ready : BulkInsert
ready = record {
  columns = column DataType.int 4 ∷ [];
  table_oid = 3000;
  unique_id = 1;
  tbl_lock = 2;
  txn_id = 3;
  session_id = 70000;
  rows = λ i. [];
  row_number = 0;
  row = 0;
  batch_size = 10000;
  auto_rollback = true;
  transaction_closed = false;
  truncate_is_error = false;
  pm_list = 1 ∷ 2 ∷ [];
  current_pm = 0;
  summary = record {
    invalid_count = 0;
    truncated_count = 0;
    inserted_count = 0;
    saturated_count = 0;
  };
  log = [];
}

abbrev shut : BulkInsert
shut = record ready { transaction_closed = true; auto_rollback = false }

abbrev five : Value whole whole_decimals
five = Value.from_uint 5

ready-IsReady : IsReady ready
ready-IsReady = record { has_room = omega arith; row_is = refl; has_pm = omega arith }

commit-Ended_example : Ended ready (1 ∷ 2 ∷ []) [] (commit willing ready)
commit-Ended_example = commit-Ended willing ready refl

rollback-Ended_example : Ended ready [] (1 ∷ 2 ∷ []) (rollback willing ready)
rollback-Ended_example = rollback-Ended willing ready refl

commit-returns_example : (commit willing ready).1 ≡ done
commit-returns_example = commit-returns willing willing-IsWilling ready refl (ready-IsReady.has_pm)

rollback-returns_example : (rollback willing ready).1 ≡ done
rollback-returns_example = rollback-returns willing willing-IsWilling ready

-- The last row that there is room for is filled.
abbrev almost_full : BulkInsert
almost_full = record ready { rows = λ i. (0, fresh) ∷ []; row_number = 99999; row = 99999 }

almost_full-IsReady : IsReady almost_full
almost_full-IsReady = record { has_room = omega arith; row_is = refl; has_pm = omega arith }

is_refused : (write_row unwilling almost_full).1 ≡ raised refused
unfolding write_row store_row send_rows send_to call next_row then_do
is_refused = refl

write_row-refused_example : ((write_row unwilling almost_full).0).row_number ≡ max_rows
write_row-refused_example = write_row-refused unwilling almost_full almost_full-IsReady is_refused

abbrev set_five : Action whole whole_decimals
set_five = Action.do_set_column 0 five

abbrev filled : BulkInsert
unfolding act
filled = (act whole whole_decimals willing ready set_five).0

set_five_accepted : (act whole whole_decimals willing ready set_five).1 ≢ raised refused
unfolding act set_column
set_five_accepted = ground arith

write_accepted :
    (act whole whole_decimals willing
      ((act whole whole_decimals willing ready set_five).0)
      Action.do_write_row).1
    ≢ raised refused
unfolding act set_column write_row store_row next_row
write_accepted = ground arith

Runs-IsReady_example : IsReady (
    (act whole whole_decimals willing
      ((act whole whole_decimals willing ready set_five).0)
      Action.do_write_row).0)
Runs-IsReady_example =
    Runs-IsReady whole whole_decimals willing ready
      ((act whole whole_decimals willing ((act whole whole_decimals willing ready set_five).0)
        Action.do_write_row).0)
      ready-IsReady
      (Runs.next (Runs.next Runs.start set_five set_five_accepted) Action.do_write_row
        write_accepted)

-- The row that is filled and written.
unfoldable set_once : BulkInsert
unfolding act
set_once = (act whole whole_decimals willing ready set_five).0

unfoldable written : BulkInsert
unfolding act set_once
written = (act whole whole_decimals willing set_once Action.do_write_row).0

unfoldable written_rows : List Row
unfolding row_written set_once
written_rows =
    ([] ++ row_written whole whole_decimals willing ready set_five)
    ++ row_written whole whole_decimals willing set_once Action.do_write_row

written-Writes : Writes whole whole_decimals willing ready written written_rows
unfolding set_once written written_rows
written-Writes =
    Writes.next (Writes.next Writes.start set_five set_five_accepted) Action.do_write_row
      write_accepted

written_open : written.transaction_closed ≡ false
unfolding written set_once act set_column write_row store_row next_row get_row
written_open = refl

written_turn : written.current_pm < length written.pm_list
unfolding written set_once act set_column write_row store_row next_row get_row
written_turn = omega arith

written_commits : (commit willing written).1 ≡ done
written_commits = commit-returns willing willing-IsWilling written written_open written_turn

Writes-commit_example : sent_rows ((commit willing written).0).log ≡ all_rows ready ++ written_rows
Writes-commit_example =
    Writes-commit whole whole_decimals willing ready written written_rows ready-IsReady
      written-Writes written_commits
