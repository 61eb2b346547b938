-- ===== src/Bulk/Overfull.antt =====
-- What a writeRow leaves when the server refuses its rows.
use mariadb_columnstore_api.Prelude.{
  ◌+◌, ◌≡◌, sym, ◌∙◌, true, false, leb, get_elem?, length, arith, Bool-cases, inl, inr,
  if◌then◌else◌, ◌==◌,
}
use mathlib.Core.Path.{subst}
use mariadb_columnstore_api.Bulk.{
  BulkInsert, column_count, Exit, Error, max_rows, then_do, send_rows, next_row, store_row,
  write_row,
}
use mariadb_columnstore_api.Bulk.Progress.{get_elem?-some}
use mariadb_columnstore_api.Bulk.Calls.{Server}
use Exit.{done, raised}
use Error.{refused}
use mariadb_columnstore_api.Bulk.Filling.{
  IsReady, turned, store_row-full, store_row-room, send_to-outcome,
}

-- What a writeRow that the server refused leaves.
unfoldable Overfull : BulkInsert × Exit → Type 0
Overfull r = r.1 ≡ raised refused → (r.0).row_number ≡ max_rows

turned-Overfull : (r : BulkInsert × Exit) → (r.0).row_number ≡ max_rows → Overfull (turned r)
unfolding turned then_do Overfull
turned-Overfull (b, done) full refused_is = ground arith
turned-Overfull (b, raised x) full refused_is = full

store_row-Overfull : (srv : Server) (b : BulkInsert) → IsReady b → Overfull (store_row srv b)
unfolding Overfull next_row send_rows
store_row-Overfull srv b r = elim (Bool-cases (leb max_rows (b.row_number + 1))) [
  | inl full ↦
      let has_pm = get_elem?-some b.pm_list b.current_pm r.has_pm in
      let sent = send_to-outcome srv (next_row b) (get_elem? b.pm_list b.current_pm) has_pm in
      subst Overfull (sym (store_row-full srv b full)) (
        turned-Overfull (send_rows srv (next_row b))
          ((sent.0).row_number_is ∙ ground (arith, full, r.has_room)))
  | inr room ↦ subst Overfull (sym (store_row-room srv b room)) (λ refused_is. ground arith)
]

-- When weBulkInsert throws in a writeRow of a bulk insert that had room, the number of its row is
-- the number of rows that there is room for: it points behind the last row.
pub write_row-refused :
    (srv : Server) (b : BulkInsert)
    → IsReady b
    → (write_row srv b).1 ≡ raised refused
    → ((write_row srv b).0).row_number ≡ max_rows
unfolding write_row Overfull
write_row-refused srv b r =
    elim b.transaction_closed
      as (λ x. Overfull (
        if x
        then (b, raised Error.closed)
        else (if length (b.rows b.row) == column_count b
            then store_row srv b
            else (b, raised Error.no_columns_filled)))) [
              | true ↦ λ e. ground arith
              | false ↦
                  elim (length (b.rows b.row) == column_count b)
                    as (λ x.
                      Overfull
                        (if x then store_row srv b else (b, raised Error.no_columns_filled))) [
                          | true ↦ store_row-Overfull srv b r
                          | false ↦ λ e. ground arith
                        ]
            ]
