-- ===== src/Bulk/Refusals.antt =====
-- What a bulk insert does once it was committed or rolled back.
use mariadb_columnstore_api.Prelude.{ℕ, true, ◌≡◌, refl}
use mariadb_columnstore_api.Std.{Floats}
use mariadb_columnstore_api.Decimal.{Decimals}
use mariadb_columnstore_api.Convert.Overloads.{Value}
use mariadb_columnstore_api.Bulk.{
  BulkInsert, Exit, Error, then_do, run_checks, set_column, set_null, reset_row, write_row,
}
use mariadb_columnstore_api.Bulk.Calls.{Server}
use mariadb_columnstore_api.Bulk.Closing.{commit, rollback}
use Exit.{done, raised}
use Error.{closed}

-- Once a bulk insert was committed or rolled back, setColumn, setNull, resetRow, writeRow and
-- commit throw and change nothing, and rollback returns and changes nothing.
pub closed-refuses :
    {fp : Floats} {dec : Decimals fp} (srv : Server) (b : BulkInsert) (n : ℕ) (v : Value fp dec)
    → b.transaction_closed ≡ true
    → (set_column b n v ≡ (b, raised closed))
      × (set_null b n ≡ (b, raised closed))
      × (reset_row b ≡ (b, raised closed))
      × (write_row srv b ≡ (b, raised closed))
      × (commit srv b ≡ (b, raised closed))
      × (rollback srv b ≡ (b, done))
unfolding set_column set_null run_checks then_do reset_row write_row commit rollback
closed-refuses srv b n v h = (rw h refl, rw h refl, rw h refl, rw h refl, rw h refl, rw h refl)
