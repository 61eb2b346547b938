-- ===== src/Bulk/Keeping.antt =====
-- What the steps of connect leave as it is.
use mariadb_columnstore_api.Prelude.{
  ℕ, ◌≡◌, refl, ◌∙◌, List, [], ◌∷◌, Bool, true, false, none, some, if◌then◌else◌,
}
use mariadb_columnstore_api.Bulk.{BulkInsert, Exit, Error, then_do, call, for_each, get_row}
use mariadb_columnstore_api.Bulk.Calls.{Server, Call}
use mariadb_columnstore_api.Bulk.Connecting.{
  Cluster, check_version, find_table, start_transaction, give_up, lock_table, connect_to,
}
use Exit.{done, raised}
use Call.{proc_mon_check_version, brm_get_txn_id, brm_get_table_lock, we_keep_alive}

-- What a step of connect does not touch.
pub record Kept (b b' : BulkInsert) : Type 0 where
  pub rows_kept : b'.row_number ≡ b.row_number
  pub turn_kept : b'.current_pm ≡ b.current_pm
  pub pms_kept : b'.pm_list ≡ b.pm_list
  pub open_kept : b'.transaction_closed ≡ b.transaction_closed
  pub undo_kept : b'.auto_rollback ≡ b.auto_rollback

Kept-trans : (a b c : BulkInsert) → Kept a b → Kept b c → Kept a c
Kept-trans a b c h k = record {
  rows_kept = k.rows_kept ∙ h.rows_kept;
  turn_kept = k.turn_kept ∙ h.turn_kept;
  pms_kept = k.pms_kept ∙ h.pms_kept;
  open_kept = k.open_kept ∙ h.open_kept;
  undo_kept = k.undo_kept ∙ h.undo_kept;
}

-- A step that touches nothing of it, where it returns.
unfoldable pub Steady : BulkInsert → BulkInsert × Exit → Type 0
Steady b (b', done) = Kept b b'
Steady b (b', raised e) = Unit

then_do-Steady :
    (b : BulkInsert) (r : BulkInsert × Exit) (f : BulkInsert → BulkInsert × Exit)
    → Steady b r
    → ((b' : BulkInsert) → Steady b' (f b'))
    → Steady b (then_do r f)
unfolding then_do Steady
then_do-Steady b (b', raised e) f h next = tt
then_do-Steady b (b', done) f h next = behind (f b') (next b')
  where
    behind : (r : BulkInsert × Exit) → Steady b' r → Steady b r
    behind (b2, done) k = Kept-trans b b' b2 h k
    behind (b2, raised e) k = tt

abbrev kept : (b : BulkInsert) → Kept b b
kept b = record {
  rows_kept = refl;
  turn_kept = refl;
  pms_kept = refl;
  open_kept = refl;
  undo_kept = refl;
}

-- A choice between two steps.
choose-Steady :
    (b : BulkInsert) (c : Bool) (r s : BulkInsert × Exit)
    → Steady b r
    → Steady b s
    → Steady b (if c then r else s)
choose-Steady b true r s h k = h
choose-Steady b false r s h k = k

call-Steady : (srv : Server) (c : Call) (b : BulkInsert) → Steady b (call srv c b)
unfolding call Steady
call-Steady srv c b =
    choose-Steady b (srv.accepts b.log c) _ _
      record {
        rows_kept = refl;
        turn_kept = refl;
        pms_kept = refl;
        open_kept = refl;
        undo_kept = refl;
      }
      tt

for_each-Steady :
    (f : ℕ → BulkInsert → BulkInsert × Exit)
    → ((pm : ℕ) (b : BulkInsert) → Steady b (f pm b))
    → (pms : List ℕ) (b : BulkInsert) → Steady b (for_each pms f b)
unfolding for_each Steady
for_each-Steady f each [] b = kept b
for_each-Steady f each (pm ∷ pms) b =
    then_do-Steady b (f pm b) (for_each pms f) (each pm b) (for_each-Steady f each pms)

check_version-Steady : (srv : Server) (b : BulkInsert) → Steady b (check_version srv b)
unfolding check_version Steady
check_version-Steady srv b =
    then_do-Steady b (call srv proc_mon_check_version b) _
      (call-Steady srv proc_mon_check_version b)
      (λ b'. choose-Steady b' (srv.holds b.log proc_mon_check_version) _ _ (kept b') tt)

find_table-Steady : (cluster : Cluster) (b : BulkInsert) → Steady b (find_table cluster b)
unfolding find_table Steady
find_table-Steady cluster b =
    elim cluster.get_table
      as (λ o. Steady b (elim o [
        | none ↦ (b, raised Error.table_not_found)
        | some t ↦ (record b { columns = t.0; table_oid = t.1 }, done)
      ])) [
        | none ↦ tt
        | some t ↦ record {
          rows_kept = refl;
          turn_kept = refl;
          pms_kept = refl;
          open_kept = refl;
          undo_kept = refl;
        }
      ]

start_transaction-Steady : (srv : Server) (b : BulkInsert) → Steady b (start_transaction srv b)
unfolding start_transaction Steady
start_transaction-Steady srv b = then_do-Steady b _ _ (call-Steady srv _ b) (λ b1.
    let b2 = record b1 { txn_id = srv.number b.log (brm_get_txn_id b.session_id) } in
    from_record b1 _ (
      then_do-Steady b2 _ _ (call-Steady srv _ b2) (λ b3. record {
        rows_kept = refl;
        turn_kept = refl;
        pms_kept = refl;
        open_kept = refl;
        undo_kept = refl;
      })))
  where
    from_record :
        (b1 : BulkInsert) (r : BulkInsert × Exit)
        → Steady (record b1 { txn_id = srv.number b.log (brm_get_txn_id b.session_id) }) r
        → Steady b1 r
    from_record b1 (b', done) h = record {
      rows_kept = h.rows_kept;
      turn_kept = h.turn_kept;
      pms_kept = h.pms_kept;
      open_kept = h.open_kept;
      undo_kept = h.undo_kept;
    }
    from_record b1 (b', raised e) h = tt

-- A step that never returns.
raising-Steady :
    (b : BulkInsert) (r : BulkInsert × Exit) (g : BulkInsert → BulkInsert) (e : Error)
    → Steady b (then_do r (λ b'. (g b', raised e)))
unfolding then_do Steady
raising-Steady b (b', done) g e = tt
raising-Steady b (b', raised x) g e = tt

lock_table-Steady :
    (srv : Server) (roots : List ℕ) (b : BulkInsert) → Steady b (lock_table srv roots b)
unfolding lock_table give_up Steady
lock_table-Steady srv roots b =
    choose-Steady b (srv.accepts b.log (brm_get_table_lock b.table_oid b.session_id b.txn_id roots))
      _ _
      record {
        rows_kept = refl;
        turn_kept = refl;
        pms_kept = refl;
        open_kept = refl;
        undo_kept = refl;
      }
      (raising-Steady b _ _ Error.refused)

pub connect_to-Steady :
    (srv : Server) (cluster : Cluster) (roots : List ℕ) (b : BulkInsert)
    → Steady b (connect_to srv cluster roots b)
unfolding connect_to get_row Steady
connect_to-Steady srv cluster roots b = then_do-Steady b _ _ (check_version-Steady srv b) (λ b1.
    then_do-Steady b1 _ _ (find_table-Steady cluster b1) (λ b2.
      then_do-Steady b2 _ _ (start_transaction-Steady srv b2) (λ b3.
        then_do-Steady b3 _ _ (lock_table-Steady srv roots b3) (λ b4.
          then_do-Steady b4 _ _
            (for_each-Steady (λ pm. call srv (we_keep_alive pm))
              (λ pm b'. call-Steady srv (we_keep_alive pm) b') b4.pm_list b4)
            (λ b5. record {
              rows_kept = refl;
              turn_kept = refl;
              pms_kept = refl;
              open_kept = refl;
              undo_kept = refl;
            })))))

-- The row pointer is at the current row, where a step returns.
unfoldable pub AtRow : BulkInsert × Exit → Type 0
AtRow (b, done) = b.row ≡ b.row_number
AtRow (b, raised e) = Unit

then_do-AtRow :
    (r : BulkInsert × Exit) (f : BulkInsert → BulkInsert × Exit)
    → ((b : BulkInsert) → AtRow (f b))
    → AtRow (then_do r f)
unfolding then_do AtRow
then_do-AtRow (b, done) f next = next b
then_do-AtRow (b, raised e) f next = tt

get_row-AtRow : (b : BulkInsert) → AtRow (get_row b, done)
unfolding get_row AtRow
get_row-AtRow b = refl

pub connect_to-AtRow :
    (srv : Server) (cluster : Cluster) (roots : List ℕ) (b : BulkInsert)
    → AtRow (connect_to srv cluster roots b)
unfolding connect_to
connect_to-AtRow srv cluster roots b = then_do-AtRow (check_version srv b) _ (λ b1.
    then_do-AtRow (find_table cluster b1) _ (λ b2. then_do-AtRow (start_transaction srv b2) _ (λ b3.
      then_do-AtRow (lock_table srv roots b3) _ (λ b4.
        then_do-AtRow (for_each b4.pm_list (λ pm. call srv (we_keep_alive pm)) b4) _
          (λ b5. get_row-AtRow b5)))))
