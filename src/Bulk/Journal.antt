-- ===== src/Bulk/Journal.antt =====
-- The rows of a series of calls on a bulk insert, from the first row to the commit.
use mariadb_columnstore_api.Prelude.{◌≡◌, ◌≢◌, sym, ap, ◌∙◌, List, [], ◌++◌, false}
use mathlib.Core.List.{append_assoc, append-nil}
use mariadb_columnstore_api.Std.{Floats}
use mariadb_columnstore_api.Decimal.{Decimals}
use mariadb_columnstore_api.Convert.Overloads.{convert}
use mariadb_columnstore_api.Convert.Null.{get_null}
use mariadb_columnstore_api.Bulk.{
  BulkInsert, Exit, Error, set_column, set_null, write_row, run_checks, convert_cell,
}
use mariadb_columnstore_api.Bulk.Rows.{Row}
use mariadb_columnstore_api.Bulk.Calls.{Server}
use mariadb_columnstore_api.Bulk.Closing.{commit}
use mariadb_columnstore_api.Bulk.Filling.{IsReady}
use mariadb_columnstore_api.Bulk.Runs.{Action, act, act-IsReady, set_truncate_is_error}
use mariadb_columnstore_api.Bulk.Unsent.{
  SameRows, convert_cell-SameRows, run_checks-SameRows, then_do-SameRows, reset_row-SameRows,
}
use mariadb_columnstore_api.Bulk.Batches.{
  all_rows, row_of, Adds, write_row-Adds, SameRows-all_rows, sent_rows,
}
use mariadb_columnstore_api.Bulk.Sent.{Sends-done, commit-Sends}
use Exit.{done, raised}
use Error.{refused}

module _ (fp : Floats) (dec : Decimals fp) where
  -- The row that a call writes.
  unfoldable pub row_written : Server → BulkInsert → Action fp dec → List Row
  unfolding row_of write_row
  row_written srv b Action.do_write_row = row_of b (write_row srv b)
  row_written srv b _ = []

  -- The states that a series of calls leads to, with the rows that it writes, in order. A caller may
  -- go on after an exception, but not after one that comes from the server.
  pub data Writes (srv : Server) (b : BulkInsert) : BulkInsert → List Row → Type 0 where
    start : Writes srv b b []
    next :
        {b' : BulkInsert} {rows : List Row}
        → Writes srv b b' rows
        → (a : Action fp dec) → (act fp dec srv b' a).1 ≢ raised refused
        → Writes srv b ((act fp dec srv b' a).0) (rows ++ row_written srv b' a)

  setter-all_rows : (b b' : BulkInsert) → SameRows b b' → IsReady b → all_rows b' ≡ all_rows b ++ []
  setter-all_rows b b' h r = SameRows-all_rows b b' h r.row_is ∙ sym (append-nil (all_rows b))

  act-all_rows :
      (srv : Server) (b : BulkInsert) (a : Action fp dec)
      → IsReady b
      → (act fp dec srv b a).1 ≢ raised refused
      → all_rows ((act fp dec srv b a).0) ≡ all_rows b ++ row_written srv b a
  unfolding act row_written Adds set_truncate_is_error set_column set_null all_rows
  act-all_rows srv b (Action.do_set_column n v) r accepted =
      setter-all_rows b _
        (then_do-SameRows b (run_checks b n)
          (convert_cell (λ column cell. convert column cell v) b.truncate_is_error n)
          (run_checks-SameRows b n)
          (convert_cell-SameRows (λ column cell. convert column cell v) b.truncate_is_error n))
        r
  act-all_rows srv b (Action.do_set_null n) r accepted =
      setter-all_rows b _
        (then_do-SameRows b (run_checks b n) (convert_cell get_null false n)
          (run_checks-SameRows b n) (convert_cell-SameRows get_null false n))
        r
  act-all_rows srv b Action.do_reset_row r accepted = setter-all_rows b _ (reset_row-SameRows b) r
  act-all_rows srv b Action.do_write_row r accepted = write_row-Adds srv b r accepted
  act-all_rows srv b (Action.do_set_truncate_is_error set) r accepted =
      sym (append-nil (all_rows b))

  -- A series of calls on a bulk insert that is ready leaves it ready, and the rows that it was given
  -- are those before with those of the series behind them.
  Writes-all_rows :
      (srv : Server) (b b' : BulkInsert) (rows : List Row)
      → IsReady b
      → Writes srv b b' rows
      → IsReady b' × (all_rows b' ≡ all_rows b ++ rows)
  Writes-all_rows srv b b2 rows r start = (r, sym (append-nil (all_rows b)))
  Writes-all_rows srv b b2 after r (next {b'} {rows} run a accepted) =
      let (ready, so_far) = Writes-all_rows srv b b' rows r run in
      (
        act-IsReady fp dec srv b' a ready accepted,
        act-all_rows srv b' a ready accepted
            ∙ ap (λ rs. rs ++ row_written srv b' a) so_far
            ∙ append_assoc (all_rows b) rows (row_written srv b' a),
      )

  -- When a commit returns behind a series of setColumn, setNull, resetRow, writeRow and
  -- setTruncateIsError on a bulk insert that was ready, in which no call was refused by the server,
  -- the calls of weBulkInsert have carried exactly the rows that were sent or waiting before the
  -- series, and behind them, in order and once each, the rows of the writeRow calls that returned,
  -- whatever the batches were.
  pub Writes-commit :
      (srv : Server) (b b' : BulkInsert) (rows : List Row)
      → IsReady b
      → Writes srv b b' rows
      → (commit srv b').1 ≡ done
      → sent_rows ((commit srv b').0).log ≡ all_rows b ++ rows
  Writes-commit srv b b' rows r run returns =
      let (ready, given) = Writes-all_rows srv b b' rows r run in
      Sends-done (all_rows b') (commit srv b') (commit-Sends srv b') returns ∙ given
