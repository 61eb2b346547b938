-- ===== src/Bulk/Sent.antt =====
-- A commit sends the rows that wait: src/mcsapi_bulk.cpp.
use mariadb_columnstore_api.Prelude.{
  ℕ, ◌≡◌, refl, sym, ap, ◌∙◌, List, [], ◌∷◌, ◌++◌, true, false, ltb, Option, none, some, get_elem?,
  arith, Bool-cases, inl, inr, if◌then◌else◌,
}
use mathlib.Core.List.{append-nil}
use mariadb_columnstore_api.Bulk.{
  BulkInsert, Exit, Error, then_do, call, for_each, send_to, send_rows, rows_up_to,
}
use mariadb_columnstore_api.Bulk.Rows.{Row}
use mariadb_columnstore_api.Bulk.Calls.{Server, Call}
use mariadb_columnstore_api.Bulk.Closing.{
  flush, renew_unique_id, commit_pm, close_pm, close_transaction, commit_all, commit,
}
use mariadb_columnstore_api.Bulk.Batches.{sent_rows, sent_rows-append, all_rows}
use Exit.{done, raised}
use Call.{we_bulk_insert}

-- A step after which, where it returns, the rows `rs` have been sent.
unfoldable pub Sends : List Row → BulkInsert × Exit → Type 0
unfolding sent_rows
Sends rs (b, done) = sent_rows b.log ≡ rs
Sends rs (b, raised e) = Unit

then_do-Sends :
    (rs : List Row) (r : BulkInsert × Exit) (f : BulkInsert → BulkInsert × Exit)
    → Sends rs r
    → ((b : BulkInsert) → sent_rows b.log ≡ rs → Sends rs (f b))
    → Sends rs (then_do r f)
unfolding Sends then_do
then_do-Sends rs (b, done) f h next = next b h
then_do-Sends rs (b, raised e) f h next = tt

-- A call that carries no rows.
call-Sends :
    (srv : Server) (c : Call) (rs : List Row) (b : BulkInsert)
    → sent_rows (c ∷ []) ≡ []
    → sent_rows b.log ≡ rs
    → Sends rs (call srv c b)
unfolding call Sends
call-Sends srv c rs b none_in h =
    elim (srv.accepts b.log c)
      as (λ x. Sends rs (
        if x
        then (record b { log = b.log ++ (c ∷ []) }, done)
        else (record b { log = b.log ++ (c ∷ []) }, raised Error.refused))) [
          | true ↦
              sent_rows-append b.log (c ∷ [])
              ∙ ap (λ l. sent_rows b.log ++ l) none_in
              ∙ append-nil (sent_rows b.log)
              ∙ h
          | false ↦ tt
        ]

for_each-Sends :
    (f : ℕ → BulkInsert → BulkInsert × Exit) (rs : List Row)
    → ((pm : ℕ) (b : BulkInsert) → sent_rows b.log ≡ rs → Sends rs (f pm b))
    → (pms : List ℕ) (b : BulkInsert) → sent_rows b.log ≡ rs
    → Sends rs (for_each pms f b)
unfolding for_each Sends
for_each-Sends f rs each [] b h = h
for_each-Sends f rs each (pm ∷ pms) b h =
    then_do-Sends rs (f pm b) (for_each pms f) (each pm b h)
      (λ b' h'. for_each-Sends f rs each pms b' h')

-- The last rows go to a PM.
send_to-Sends :
    (srv : Server) (b : BulkInsert) (o : Option ℕ) → Sends (all_rows b) (send_to srv b o)
unfolding send_to call Sends all_rows
send_to-Sends srv b none = tt
send_to-Sends srv b (some pm) =
    let c = we_bulk_insert pm b.unique_id b.session_id b.txn_id (rows_up_to b.row_number b.rows) in
    elim (srv.accepts b.log c)
      as (λ x. Sends (all_rows b) (
        if x
        then (record b { log = b.log ++ (c ∷ []) }, done)
        else (record b { log = b.log ++ (c ∷ []) }, raised Error.refused))) [
          | true ↦ added c refl
          | false ↦ tt
        ]
  where
    added :
        (c : Call)
        → sent_rows (c ∷ []) ≡ rows_up_to b.row_number b.rows ++ []
        → sent_rows (b.log ++ (c ∷ [])) ≡ all_rows b
    added c carried =
        sent_rows-append b.log (c ∷ [])
        ∙ ap (λ l. sent_rows b.log ++ l) (carried ∙ append-nil (rows_up_to b.row_number b.rows))

no_rows-Sends : (b : BulkInsert) → b.row_number ≡ 0 → Sends (all_rows b) (b, done)
unfolding Sends all_rows rows_up_to
no_rows-Sends b h =
    sym (append-nil (sent_rows b.log)) ∙ ap (λ n. sent_rows b.log ++ rows_up_to n b.rows) (sym h)

flush-Sends : (srv : Server) (b : BulkInsert) → Sends (all_rows b) (flush srv b)
unfolding flush send_rows
flush-Sends srv b = elim (Bool-cases (ltb 0 b.row_number)) [
  | inl some_rows ↦ rw some_rows (send_to-Sends srv b (get_elem? b.pm_list b.current_pm))
  | inr no_rows ↦ rw no_rows (no_rows-Sends b (ground (arith, no_rows)))
]

module _ (srv : Server) (rs : List Row) where
  commit_pm-Sends : (pm : ℕ) (b : BulkInsert) → sent_rows b.log ≡ rs → Sends rs (commit_pm srv pm b)
  unfolding commit_pm sent_rows
  commit_pm-Sends pm b h = then_do-Sends rs _ _ (call-Sends srv _ rs b refl h) (λ b1 h1.
      then_do-Sends rs _ _ (call-Sends srv _ rs b1 refl h1) (λ b2 h2.
        then_do-Sends rs _ _ (call-Sends srv _ rs b2 refl h2)
          (λ b3 h3. call-Sends srv _ rs b3 refl h3)))

  close_pm-Sends : (pm : ℕ) (b : BulkInsert) → sent_rows b.log ≡ rs → Sends rs (close_pm srv pm b)
  unfolding close_pm sent_rows
  close_pm-Sends pm b h =
      then_do-Sends rs _ _ (call-Sends srv _ rs b refl h) (λ b1 h1. call-Sends srv _ rs b1 refl h1)

  kept-Sends : (b : BulkInsert) → sent_rows b.log ≡ rs → Sends rs (b, done)
  unfolding Sends
  kept-Sends b h = h

  renew-Sends : (b : BulkInsert) → sent_rows b.log ≡ rs → Sends rs (renew_unique_id srv b)
  unfolding renew_unique_id sent_rows
  renew-Sends b h = then_do-Sends rs _ _ (call-Sends srv _ rs b refl h) (λ b1 h1. kept-Sends _ h1)

  shut-Sends : (b : BulkInsert) → sent_rows b.log ≡ rs → Sends rs (close_transaction b)
  unfolding close_transaction
  shut-Sends b h = kept-Sends _ h

-- A commit that returns has sent all rows that the bulk insert was given.
commit_all-Sends : (srv : Server) (b : BulkInsert) → Sends (all_rows b) (commit_all srv b)
unfolding commit_all sent_rows
commit_all-Sends srv b =
    let rs = all_rows b in
    then_do-Sends rs _ _ (flush-Sends srv b) (λ b1 h1.
      then_do-Sends rs _ _ (renew-Sends srv rs b1 h1) (λ b2 h2.
        then_do-Sends rs _ _
          (for_each-Sends (commit_pm srv) rs (commit_pm-Sends srv rs) b2.pm_list b2 h2)
          (λ b3 h3. then_do-Sends rs _ _ (call-Sends srv _ rs b3 refl h3) (λ b4 h4.
            then_do-Sends rs _ _ (call-Sends srv _ rs b4 refl h4) (λ b5 h5.
              then_do-Sends rs _ _ (call-Sends srv _ rs b5 refl h5) (λ b6 h6.
                then_do-Sends rs _ _
                  (for_each-Sends (close_pm srv) rs (close_pm-Sends srv rs) b6.pm_list b6 h6)
                  (λ b7 h7.
                    then_do-Sends rs _ _ (call-Sends srv _ rs b7 refl h7)
                      (λ b8 h8. shut-Sends srv rs b8 h8))))))))

pub commit-Sends : (srv : Server) (b : BulkInsert) → Sends (all_rows b) (commit srv b)
unfolding commit Sends
commit-Sends srv b =
    elim b.transaction_closed
      as (λ x. Sends (all_rows b) (if x then (b, raised Error.closed) else commit_all srv b)) [
        | true ↦ tt
        | false ↦ commit_all-Sends srv b
      ]

pub Sends-done :
    (rs : List Row) (r : BulkInsert × Exit) → Sends rs r → r.1 ≡ done → sent_rows (r.0).log ≡ rs
unfolding Sends
Sends-done rs (b, done) h e = h
Sends-done rs (b, raised x) h e = ground arith
