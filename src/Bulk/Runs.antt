-- ===== src/Bulk/Runs.antt =====
-- Series of calls on a bulk insert, between its construction and its end.
use mariadb_columnstore_api.Prelude.{ℕ, ◌≢◌, Bool}
use mariadb_columnstore_api.Std.{Floats}
use mariadb_columnstore_api.Decimal.{Decimals}
use mariadb_columnstore_api.Convert.Overloads.{Value, convert}
use mariadb_columnstore_api.Convert.Null.{get_null}
use mariadb_columnstore_api.Bulk.{
  BulkInsert, Exit, Error, set_column, set_null, reset_row, write_row,
}
use mariadb_columnstore_api.Bulk.Calls.{Server}
use mariadb_columnstore_api.Bulk.Filling.{
  IsReady, Good, write_row-Good, setter-IsReady, reset_row-IsReady,
}
use Exit.{raised}
use Error.{refused}

-- One call of the interface that fills and writes rows.
pub data Action (fp : Floats) (dec : Decimals fp) : Type 0 where
  do_set_column : ℕ → Value fp dec → Action fp dec
  do_set_null : ℕ → Action fp dec
  do_reset_row do_write_row : Action fp dec
  do_set_truncate_is_error : Bool → Action fp dec

-- setTruncateIsError
unfoldable pub set_truncate_is_error : BulkInsert → Bool → BulkInsert
set_truncate_is_error b set = record b { truncate_is_error = set }

module _ (fp : Floats) (dec : Decimals fp) where
  unfoldable pub act : Server → BulkInsert → Action fp dec → BulkInsert × Exit
  unfolding set_column set_null reset_row write_row set_truncate_is_error
  act srv b (do_set_column n v) = set_column b n v
  act srv b (do_set_null n) = set_null b n
  act srv b do_reset_row = reset_row b
  act srv b do_write_row = write_row srv b
  act srv b (do_set_truncate_is_error set) = (set_truncate_is_error b set, Exit.done)

  -- The states that a series of calls leads to. A caller may go on after an exception, but not
  -- after one that comes from the server.
  pub data Runs (srv : Server) (b : BulkInsert) : BulkInsert → Type 0 where
    start : Runs srv b b
    next :
        {b' : BulkInsert}
        → Runs srv b b'
        → (a : Action fp dec) → (act srv b' a).1 ≢ raised refused
        → Runs srv b ((act srv b' a).0)

  pub act-IsReady :
      (srv : Server) (b : BulkInsert) (a : Action fp dec)
      → IsReady b
      → (act srv b a).1 ≢ raised refused
      → IsReady ((act srv b a).0)
  unfolding act Good set_truncate_is_error set_column set_null
  act-IsReady srv b (do_set_column n v) r accepted =
      setter-IsReady (λ column cell. convert column cell v) b.truncate_is_error b n r
  act-IsReady srv b (do_set_null n) r accepted = setter-IsReady get_null Bool.false b n r
  act-IsReady srv b do_reset_row r accepted = reset_row-IsReady b r
  act-IsReady srv b do_write_row r accepted = write_row-Good srv b r accepted
  act-IsReady srv b (do_set_truncate_is_error set) r accepted = record {
    has_room = r.has_room;
    row_is = r.row_is;
    has_pm = r.has_pm;
  }

  -- Any series of setColumn, setNull, resetRow, writeRow and setTruncateIsError, in which the
  -- caller may go on after an exception unless it comes from the server, leaves a bulk insert that
  -- was ready with room for a row, the row pointer at that row and the turn at a PM of the list.
  pub Runs-IsReady : (srv : Server) (b b' : BulkInsert) → IsReady b → Runs srv b b' → IsReady b'
  Runs-IsReady srv b b2 r start = r
  Runs-IsReady srv b b2 r (next {b'} run a accepted) =
      act-IsReady srv b' a (Runs-IsReady srv b b' r run) accepted
