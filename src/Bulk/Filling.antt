-- ===== src/Bulk/Filling.antt =====
-- The table data of a bulk insert stays within its bounds, whatever is called on it.
use mariadb_columnstore_api.Prelude.{
  ℕ, ◌+◌, ◌<◌, ◌≡◌, ◌≢◌, refl, sym, ap, ◌∙◌, Bool, true, false, leb, Option, none, some, get_elem?,
  length, arith, Bool-cases, inl, inr, ◌⊎◌, if◌then◌else◌, ◌==◌,
}
use mathlib.Core.Path.{subst}
use mariadb_columnstore_api.Types.{Status, Column, Container}
use mariadb_columnstore_api.Bulk.{
  BulkInsert, column_count, Exit, Error, max_rows, then_do, call, send_to, send_rows, next_pm,
  get_row, next_row, store_row, write_row, run_checks, convert_cell, keep_cell, put_cell, reset_row,
}
use mariadb_columnstore_api.Bulk.Progress.{get_elem?-some}
use mariadb_columnstore_api.Bulk.Calls.{Server, Call}
use Exit.{done, raised}
use Error.{refused}

-- There is a row to fill, `row` points to it, and it is the turn of a PM of the list.
pub record IsReady (b : BulkInsert) : Type 0 where
  pub has_room : b.row_number < max_rows
  pub row_is : b.row ≡ b.row_number
  pub has_pm : b.current_pm < length b.pm_list

-- What a setter, resetRow and a refused call leave.
pub record SameBounds (b b' : BulkInsert) : Type 0 where
  pub row_number_is : b'.row_number ≡ b.row_number
  pub row_is : b'.row ≡ b.row
  pub pm_list_is : b'.pm_list ≡ b.pm_list
  pub current_pm_is : b'.current_pm ≡ b.current_pm

SameBounds-IsReady : (b b' : BulkInsert) → SameBounds b b' → IsReady b → IsReady b'
SameBounds-IsReady b b' s r = record {
  has_room = omega (arith, s.row_number_is, r.has_room);
  row_is = s.row_is ∙ r.row_is ∙ sym s.row_number_is;
  has_pm = omega (arith, s.current_pm_is, ap length s.pm_list_is, r.has_pm);
}

same : (b : BulkInsert) → SameBounds b b
same b = record { row_number_is = refl; row_is = refl; pm_list_is = refl; current_pm_is = refl }

convert_cell-SameBounds :
    (conv : Column → Container → Status × Container) (strict : Bool) (n : ℕ) (b : BulkInsert)
    → SameBounds b ((convert_cell conv strict n b).0)
unfolding convert_cell keep_cell put_cell
convert_cell-SameBounds conv strict n b = record {
  row_number_is = ground arith;
  row_is = ground arith;
  pm_list_is = ground arith;
  current_pm_is = ground arith;
}

run_checks-SameBounds : (b : BulkInsert) (n : ℕ) → SameBounds b ((run_checks b n).0)
unfolding run_checks
run_checks-SameBounds b n = record {
  row_number_is = ground arith;
  row_is = ground arith;
  pm_list_is = ground arith;
  current_pm_is = ground arith;
}

SameBounds-trans : (a b c : BulkInsert) → SameBounds a b → SameBounds b c → SameBounds a c
SameBounds-trans a b c s t = record {
  row_number_is = t.row_number_is ∙ s.row_number_is;
  row_is = t.row_is ∙ s.row_is;
  pm_list_is = t.pm_list_is ∙ s.pm_list_is;
  current_pm_is = t.current_pm_is ∙ s.current_pm_is;
}

then_do-SameBounds :
    (b : BulkInsert) (r : BulkInsert × Exit) (f : BulkInsert → BulkInsert × Exit)
    → SameBounds b (r.0)
    → ((b' : BulkInsert) → SameBounds b' ((f b').0))
    → SameBounds b ((then_do r f).0)
unfolding then_do
then_do-SameBounds b (b', done) f s next = SameBounds-trans b b' ((f b').0) s (next b')
then_do-SameBounds b (b', raised e) f s next = s

reset_row-SameBounds : (b : BulkInsert) → SameBounds b ((reset_row b).0)
unfolding reset_row
reset_row-SameBounds b = record {
  row_number_is = ground arith;
  row_is = ground arith;
  pm_list_is = ground arith;
  current_pm_is = ground arith;
}

call-SameBounds : (srv : Server) (c : Call) (b : BulkInsert) → SameBounds b ((call srv c b).0)
unfolding call
call-SameBounds srv c b = record {
  row_number_is = ground arith;
  row_is = ground arith;
  pm_list_is = ground arith;
  current_pm_is = ground arith;
}

-- The turn of the next PM is one of the list.
next_pm-IsReady : (b : BulkInsert) → 0 < length b.pm_list → IsReady (get_row (next_pm b))
unfolding next_pm get_row
next_pm-IsReady b some_pm = record { has_room = omega arith; row_is = refl; has_pm = ground arith }

-- What writeRow makes of the outcome of weBulkInsert.
unfoldable pub turned : BulkInsert × Exit → BulkInsert × Exit
unfolding then_do next_pm get_row
turned r = then_do r (λ b. (get_row (next_pm b), done))

turned-IsReady :
    (r : BulkInsert × Exit)
    → 0 < length (r.0).pm_list
    → (r.1 ≡ done) ⊎ (r.1 ≡ raised refused)
    → (turned r).1 ≢ raised refused
    → IsReady ((turned r).0)
unfolding turned then_do
turned-IsReady (b, done) some_pm e accepted = next_pm-IsReady b some_pm
turned-IsReady (b, raised x) some_pm e accepted = ground arith

-- weBulkInsert on a PM of the list returns, or throws what the server throws.
pub send_to-outcome :
    (srv : Server) (b : BulkInsert) (o : Option ℕ)
    → o ≢ none
    → SameBounds b ((send_to srv b o).0)
      × ((send_to srv b o).1 ≡ done ⊎ (send_to srv b o).1 ≡ raised refused)
unfolding send_to call
send_to-outcome srv b none h = ground arith
send_to-outcome srv b (some pm) h = (call-SameBounds srv _ b, ground arith)

pub store_row-full :
    (srv : Server) (b : BulkInsert)
    → leb max_rows (b.row_number + 1) ≡ true
    → store_row srv b ≡ turned (send_rows srv (next_row b))
unfolding store_row turned
store_row-full srv b h =
    ap (λ x. if x then turned (send_rows srv (next_row b)) else (get_row (next_row b), done)) h

pub store_row-room :
    (srv : Server) (b : BulkInsert)
    → leb max_rows (b.row_number + 1) ≡ false
    → store_row srv b ≡ (get_row (next_row b), done)
unfolding store_row turned
store_row-room srv b h =
    ap (λ x. if x then turned (send_rows srv (next_row b)) else (get_row (next_row b), done)) h

-- A result that leaves the bulk insert ready, unless the server threw.
unfoldable pub Good : BulkInsert × Exit → Type 0
Good r = r.1 ≢ raised refused → IsReady (r.0)

store_row-Good : (srv : Server) (b : BulkInsert) → IsReady b → Good (store_row srv b)
unfolding Good next_row send_rows get_row
store_row-Good srv b r = elim (Bool-cases (leb max_rows (b.row_number + 1))) [
  | inl full ↦
      let has_pm = get_elem?-some b.pm_list b.current_pm r.has_pm in
      let sent = send_to-outcome srv (next_row b) (get_elem? b.pm_list b.current_pm) has_pm in
      let some_pm : 0 < length ((send_rows srv (next_row b)).0).pm_list =
        omega (arith, ap length (sent.0).pm_list_is, r.has_pm) in
      subst Good (sym (store_row-full srv b full))
        (turned-IsReady (send_rows srv (next_row b)) some_pm (sent.1))
  | inr room ↦ subst Good (sym (store_row-room srv b room)) (λ accepted. record {
    has_room = ground (arith, room, r.has_room);
    row_is = refl;
    has_pm = r.has_pm;
  })
]

pub write_row-Good : (srv : Server) (b : BulkInsert) → IsReady b → Good (write_row srv b)
unfolding write_row Good
write_row-Good srv b r =
    elim b.transaction_closed
      as (λ x. Good (
        if x
        then (b, raised Error.closed)
        else (if length (b.rows b.row) == column_count b
            then store_row srv b
            else (b, raised Error.no_columns_filled)))) [
              | true ↦ λ accepted. r
              | false ↦
                  elim (length (b.rows b.row) == column_count b)
                    as (λ x.
                      Good (if x then store_row srv b else (b, raised Error.no_columns_filled))) [
                        | true ↦ store_row-Good srv b r
                        | false ↦ λ accepted. r
                      ]
            ]

-- The setters and resetRow leave a bulk insert ready.
pub setter-IsReady :
    (conv : Column → Container → Status × Container) (strict : Bool) (b : BulkInsert) (n : ℕ)
    → IsReady b
    → IsReady ((then_do (run_checks b n) (convert_cell conv strict n)).0)
setter-IsReady conv strict b n =
    SameBounds-IsReady b ((then_do (run_checks b n) (convert_cell conv strict n)).0) (
      then_do-SameBounds b (run_checks b n) (convert_cell conv strict n) (run_checks-SameBounds b n)
        (convert_cell-SameBounds conv strict n))

pub reset_row-IsReady : (b : BulkInsert) → IsReady b → IsReady ((reset_row b).0)
reset_row-IsReady b = SameBounds-IsReady b ((reset_row b).0) (reset_row-SameBounds b)
