-- ===== src/Bulk/Batches.antt =====
-- Which rows the calls of weBulkInsert carry, by src/mcsapi_bulk.cpp.
use mariadb_columnstore_api.Prelude.{
  ℕ, suc, ◌+◌, ◌≡◌, ◌≢◌, refl, sym, ap, ◌∙◌, List, [], ◌∷◌, ◌++◌, true, false, leb, Option, none,
  some, get_elem?, length, arith, Bool-cases, inl, inr, if◌then◌else◌, ◌==◌,
}
use mathlib.Core.List.{append_assoc, append-nil}
use mathlib.Core.Path.{subst}
use mariadb_columnstore_api.Bulk.{
  BulkInsert, column_count, Exit, Error, max_rows, then_do, call, send_to, send_rows, next_pm,
  get_row, next_row, store_row, write_row, rows_up_to,
}
use mariadb_columnstore_api.Bulk.Rows.{Row}
use mariadb_columnstore_api.Bulk.Calls.{Server, Call}
use mariadb_columnstore_api.Bulk.Filling.{IsReady, turned, store_row-full, store_row-room}
use mariadb_columnstore_api.Bulk.Progress.{get_elem?-some}
use mariadb_columnstore_api.Bulk.Unsent.{SameRows}
use Exit.{done, raised}
use Error.{refused}
use Call.{we_bulk_insert}

-- The rows that the calls of weBulkInsert carry, in order.
unfoldable pub sent_rows : List Call → List Row
sent_rows [] = []
sent_rows (we_bulk_insert pm u s t rows ∷ cs) = rows ++ sent_rows cs
sent_rows (_ ∷ cs) = sent_rows cs

pub sent_rows-append : (xs ys : List Call) → sent_rows (xs ++ ys) ≡ sent_rows xs ++ sent_rows ys
unfolding sent_rows
sent_rows-append [] ys = refl
sent_rows-append (we_bulk_insert pm u s t rows ∷ xs) ys =
    ap (λ l. rows ++ l) (sent_rows-append xs ys)
    ∙ sym (append_assoc rows (sent_rows xs) (sent_rows ys))
sent_rows-append (_ ∷ xs) ys = sent_rows-append xs ys

-- The rows that a bulk insert was given: those that were sent and those that wait.
unfoldable pub all_rows : BulkInsert → List Row
unfolding sent_rows rows_up_to
all_rows b = sent_rows b.log ++ rows_up_to b.row_number b.rows

-- The rows that were given are the same.
pub SameRows-all_rows :
    (b b' : BulkInsert) → SameRows b b' → b.row ≡ b.row_number → all_rows b' ≡ all_rows b
unfolding all_rows
SameRows-all_rows b b' h at =
    ap (λ l. sent_rows l ++ rows_up_to b'.row_number b'.rows) h.log_is
    ∙ ap (λ n. sent_rows b.log ++ rows_up_to n b'.rows) h.number_is
    ∙ ap (λ rs. sent_rows b.log ++ rs) (h.below b.row_number (omega (arith, at)))

-- The row that a call of writeRow adds.
unfoldable pub row_of : BulkInsert → BulkInsert × Exit → List Row
row_of b (b', done) = b.rows b.row ∷ []
row_of b (b', raised e) = []

-- A call of writeRow that puts its row behind those that were given before, where it returns, and
-- leaves them as they were where it throws, unless the server refused a call.
unfoldable pub Adds : BulkInsert → BulkInsert × Exit → Type 0
unfolding all_rows row_of
Adds b r = r.1 ≢ raised refused → all_rows (r.0) ≡ all_rows b ++ row_of b r

unchanged-Adds : (b : BulkInsert) (e : Error) → Adds b (b, raised e)
unfolding Adds row_of
unchanged-Adds b e accepted = sym (append-nil (all_rows b))

rows_up_to-next :
    (n : ℕ) (rows : ℕ → Row) → rows_up_to (n + 1) rows ≡ rows_up_to n rows ++ (rows n ∷ [])
unfolding rows_up_to
rows_up_to-next n rows = let e : n + 1 ≡ suc n = omega arith in ap (λ k. rows_up_to k rows) e

-- The rows with the current one.
with_current :
    (b : BulkInsert)
    → b.row ≡ b.row_number
    → sent_rows b.log ++ rows_up_to (b.row_number + 1) b.rows ≡ all_rows b ++ (b.rows b.row ∷ [])
unfolding all_rows
with_current b at =
    let sent = sent_rows b.log in
    let waiting = rows_up_to b.row_number b.rows in
    ap (λ rs. sent ++ rs) (rows_up_to-next b.row_number b.rows)
    ∙ sym (append_assoc sent waiting (b.rows b.row_number ∷ []))
    ∙ ap (λ n. (sent ++ waiting) ++ (b.rows n ∷ [])) (sym at)

-- The table data has room: the row waits.
waits-Adds : (b : BulkInsert) → b.row ≡ b.row_number → Adds b (get_row (next_row b), done)
unfolding Adds all_rows row_of get_row next_row
waits-Adds b at accepted = with_current b at

-- The table data is full: all its rows go to a PM, the new one with them.
sent-Adds :
    (b : BulkInsert) (pm u s t : ℕ) (b' : BulkInsert)
    → b.row ≡ b.row_number
    → b'.log ≡ b.log ++ (we_bulk_insert pm u s t (rows_up_to (b.row_number + 1) b.rows) ∷ [])
    → b'.row_number ≡ 0
    → all_rows b' ≡ all_rows b ++ (b.rows b.row ∷ [])
unfolding all_rows sent_rows rows_up_to
sent-Adds b pm u s t b' at log_is empty =
    let rows = rows_up_to (b.row_number + 1) b.rows in
    ap (λ l. sent_rows l ++ rows_up_to b'.row_number b'.rows) log_is
    ∙ ap (λ n. sent_rows (b.log ++ (we_bulk_insert pm u s t rows ∷ [])) ++ rows_up_to n b'.rows)
        empty
    ∙ append-nil _
    ∙ sent_rows-append b.log _
    ∙ ap (λ rs. sent_rows b.log ++ rs) (append-nil rows)
    ∙ with_current b at

sent_to-Adds :
    (srv : Server) (b : BulkInsert) (o : Option ℕ)
    → b.row ≡ b.row_number
    → o ≢ none
    → Adds b (turned (send_to srv (next_row b) o))
unfolding send_to call turned then_do next_pm get_row next_row Adds row_of
sent_to-Adds srv b none at h = ground (arith, h)
sent_to-Adds srv b (some pm) at h =
    let c =
      we_bulk_insert pm b.unique_id b.session_id b.txn_id (rows_up_to (b.row_number + 1) b.rows) in
    let b' = record (next_row b) { log = b.log ++ (c ∷ []) } in
    elim (srv.accepts b.log c)
      as (λ x. Adds b (turned (if x then (b', done) else (b', raised refused)))) [
        | true ↦ λ accepted.
            sent-Adds b pm b.unique_id b.session_id b.txn_id (get_row (next_pm b')) at refl refl
        | false ↦ λ accepted. ground (arith, accepted)
      ]

store_row-Adds : (srv : Server) (b : BulkInsert) → IsReady b → Adds b (store_row srv b)
unfolding send_rows next_row
store_row-Adds srv b r = elim (Bool-cases (leb max_rows (b.row_number + 1))) [
  | inl full ↦ subst (Adds b) (sym (store_row-full srv b full)) (
      sent_to-Adds srv b (get_elem? b.pm_list b.current_pm) r.row_is
        (get_elem?-some b.pm_list b.current_pm r.has_pm))
  | inr room ↦ subst (Adds b) (sym (store_row-room srv b room)) (waits-Adds b r.row_is)
]

-- A writeRow on a bulk insert that is ready, in which no call is refused, puts the current row
-- behind the rows that were given before, those that were sent and those that wait, when it returns,
-- and leaves them as they were when it throws.
pub write_row-Adds : (srv : Server) (b : BulkInsert) → IsReady b → Adds b (write_row srv b)
unfolding write_row
write_row-Adds srv b r =
    elim b.transaction_closed
      as (λ x. Adds b (
        if x
        then (b, raised Error.closed)
        else (if length (b.rows b.row) == column_count b
            then store_row srv b
            else (b, raised Error.no_columns_filled)))) [
              | true ↦ unchanged-Adds b Error.closed
              | false ↦
                  elim (length (b.rows b.row) == column_count b)
                    as (λ x.
                      Adds b (if x then store_row srv b else (b, raised Error.no_columns_filled))) [
                        | true ↦ store_row-Adds srv b r
                        | false ↦ unchanged-Adds b Error.no_columns_filled
                      ]
            ]
