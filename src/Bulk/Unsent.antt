-- ===== src/Bulk/Unsent.antt =====
-- The setters and resetRow, of src/mcsapi_bulk.cpp, touch the current row only.
use mariadb_columnstore_api.Prelude.{
  ℕ, zero, suc, ◌≤◌, ◌≡◌, refl, ap, ◌∙◌, [], ◌∷◌, ◌++◌, Bool, true, false, none, some, get_elem?,
  arith, if◌then◌else◌, ◌==◌,
}
use mariadb_columnstore_api.Types.{Status, Column, Container}
use mariadb_columnstore_api.Bulk.{
  BulkInsert, Exit, Error, then_do, run_checks, convert_cell, put_cell, reset_row, rows_up_to,
  keep_cell, set_status,
}
use mariadb_columnstore_api.Bulk.Rows.{Row, set_cell, cell_at}
use Exit.{done, raised}

-- What a setter and resetRow leave: at most the current row is changed.
pub record SameRows (b b' : BulkInsert) : Type 0 where
  pub log_is : b'.log ≡ b.log
  pub number_is : b'.row_number ≡ b.row_number
  pub row_is : b'.row ≡ b.row
  pub below : (k : ℕ) → k ≤ b.row → rows_up_to k b'.rows ≡ rows_up_to k b.rows

SameRows-trans : (a b c : BulkInsert) → SameRows a b → SameRows b c → SameRows a c
SameRows-trans a b c h k = record {
  log_is = k.log_is ∙ h.log_is;
  number_is = k.number_is ∙ h.number_is;
  row_is = k.row_is ∙ h.row_is;
  below = λ n le. k.below n (omega (arith, le, h.row_is)) ∙ h.below n le;
}

-- A change of the row `j` is not seen below it.
changed-below :
    (rows new : ℕ → Row) (j k : ℕ)
    → k ≤ j
    → rows_up_to k (λ i. if i == j then new i else rows i) ≡ rows_up_to k rows
unfolding rows_up_to
changed-below rows new j zero le = refl
changed-below rows new j (suc k) le =
    let other : (k == j) ≡ false = ground (arith, le) in
    ap (λ rs. rs ++ ((if k == j then new k else rows k) ∷ []))
      (changed-below rows new j k (omega (arith, le)))
    ∙ ap (λ b. rows_up_to k rows ++ ((if b then new k else rows k) ∷ [])) other

changed-SameRows :
    (b b' : BulkInsert) (new : ℕ → Row)
    → b'.log ≡ b.log
    → b'.row_number ≡ b.row_number
    → b'.row ≡ b.row
    → b'.rows ≡ (λ i. if i == b.row then new i else b.rows i)
    → SameRows b b'
changed-SameRows b b' new l n r e = record {
  log_is = l;
  number_is = n;
  row_is = r;
  below = λ k le. ap (rows_up_to k) e ∙ changed-below b.rows new b.row k le;
}

same_rows : (b : BulkInsert) → SameRows b b
same_rows b = record { log_is = refl; number_is = refl; row_is = refl; below = λ k le. refl }

-- Either of two results.
choose-SameRows :
    (b : BulkInsert) (c : Bool) (r s : BulkInsert × Exit)
    → SameRows b (r.0)
    → SameRows b (s.0)
    → SameRows b ((if c then r else s).0)
choose-SameRows b true r s h k = h
choose-SameRows b false r s h k = k

keep_cell-SameRows :
    (strict : Bool) (n : ℕ) (c : Status × Container) (b : BulkInsert)
    → SameRows b ((keep_cell strict n c b).0)
unfolding keep_cell put_cell
keep_cell-SameRows strict n (status, cell) b =
    let b' : BulkInsert = record (put_cell b n cell) { summary = set_status b.summary status } in
    let put : SameRows b b' =
      changed-SameRows b b' (λ i. set_cell (b.rows i) n cell) refl refl refl refl in
    choose-SameRows b strict _ (b', done) (choose-SameRows b _ (b', _) (b', done) put put) put

pub convert_cell-SameRows :
    (conv : Column → Container → Status × Container) (strict : Bool) (n : ℕ) (b : BulkInsert)
    → SameRows b ((convert_cell conv strict n b).0)
unfolding convert_cell
convert_cell-SameRows conv strict n b =
    elim (get_elem? b.columns n)
      as (λ o. SameRows b (
        (elim o as (λ _. BulkInsert × Exit) [
          | none ↦ (b, raised (Error.column_not_found n))
          | some column ↦ keep_cell strict n (conv column (cell_at (b.rows b.row) n)) b
        ]).0)) [
          | none ↦ same_rows b
          | some column ↦ keep_cell-SameRows strict n (conv column (cell_at (b.rows b.row) n)) b
        ]

pub run_checks-SameRows : (b : BulkInsert) (n : ℕ) → SameRows b ((run_checks b n).0)
unfolding run_checks
run_checks-SameRows b n =
    choose-SameRows b b.transaction_closed (b, _) _ (same_rows b)
      (choose-SameRows b _ (b, _) (b, done) (same_rows b) (same_rows b))

pub then_do-SameRows :
    (b : BulkInsert) (r : BulkInsert × Exit) (f : BulkInsert → BulkInsert × Exit)
    → SameRows b (r.0)
    → ((b' : BulkInsert) → SameRows b' ((f b').0))
    → SameRows b ((then_do r f).0)
unfolding then_do
then_do-SameRows b (b', done) f h next = SameRows-trans b b' ((f b').0) h (next b')
then_do-SameRows b (b', raised e) f h next = h

pub reset_row-SameRows : (b : BulkInsert) → SameRows b ((reset_row b).0)
unfolding reset_row
reset_row-SameRows b =
    choose-SameRows b b.transaction_closed (b, _) (_, done) (same_rows b)
      (changed-SameRows b _ (λ i. []) refl refl refl refl)
