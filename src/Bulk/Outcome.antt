-- ===== src/Bulk/Outcome.antt =====
-- How commit and rollback end.
use mariadb_columnstore_api.Prelude.{
  ℕ, List, [], ◌∷◌, ◌++◌, true, false, Bool-cases, ◌≡◌, inl, inr, refl, sym, ap, ◌∙◌, ltb,
  get_elem?, Option, none, some,
}
use mathlib.Core.Path.{subst}
use mathlib.Core.List.{append_assoc, append-nil, flatten, map}
use mariadb_columnstore_api.Bulk.{
  BulkInsert, Exit, then_do, call, for_each, send_to, send_rows, rows_up_to,
}
use mariadb_columnstore_api.Bulk.Calls.{Server, Call}
use mariadb_columnstore_api.Bulk.Closing.{
  flush, renew_unique_id, commit_pm, close_pm, close_transaction, commit_all, commit, rollback_pm,
  rollback_all, rollback, commit-open, rollback-open,
}
use mariadb_columnstore_api.Bulk.Ending.{
  committed, undone, Keeps, Keeps-refl, Keeps-trans, Effect, call-Effect, then_do-Effect,
  for_each-Effect,
}
use Exit.{done, raised}
use Call.{
  brm_get_unique_id, we_bulk_insert_end, we_get_written_lbids, we_bulk_commit, brm_set_hwm_and_cp,
  brm_committed, brm_take_snapshot, brm_change_state, we_remove_meta, we_close, we_bulk_insert,
  brm_release_table_lock, we_rollback_blocks, brm_rollback, we_bulk_rollback, brm_rolledback,
}

-- How a bulk insert from `b` is ended: on return it is closed, and the PMs `cs` were committed and
-- `us` undone; on an exception it is open and rolled back when it is destroyed, as before.
unfoldable pub Ended : BulkInsert → List ℕ → List ℕ → BulkInsert × Exit → Type 0
Ended b cs us (b', done) =
    (b'.transaction_closed ≡ true)
    × (b'.auto_rollback ≡ false)
    × (committed b'.log ≡ committed b.log ++ cs)
    × (undone b'.log ≡ undone b.log ++ us)
Ended b cs us (b', raised e) = Keeps b b'

then_do-Ended :
    (b : BulkInsert) (cs us cs' us' : List ℕ) (r : BulkInsert × Exit)
    (f : BulkInsert → BulkInsert × Exit)
    → Effect b cs us r
    → ((b' : BulkInsert) → Keeps b b' → Ended b' cs' us' (f b'))
    → Ended b (cs ++ cs') (us ++ us') (then_do r f)
unfolding Effect Ended then_do
then_do-Ended b cs us cs' us' (b', done) f (keeps, cps, ups) next =
    behind b cs us cs' us' b' (f b') keeps cps ups (next b' keeps)
  where
    behind :
        (b : BulkInsert) (cs us cs' us' : List ℕ) (b' : BulkInsert) (r : BulkInsert × Exit)
        → Keeps b b'
        → committed b'.log ≡ committed b.log ++ cs
        → undone b'.log ≡ undone b.log ++ us
        → Ended b' cs' us' r
        → Ended b (cs ++ cs') (us ++ us') r
    behind b cs us cs' us' b' (b2, done) keeps cps ups (shut, kept, cps', ups') = (
      shut,
      kept,
      cps' ∙ ap (λ l. l ++ cs') cps ∙ append_assoc (committed b.log) cs cs',
      ups' ∙ ap (λ l. l ++ us') ups ∙ append_assoc (undone b.log) us us',
    )
    behind b cs us cs' us' b' (b2, raised e) keeps cps ups keeps' = Keeps-trans b b' b2 keeps keeps'
then_do-Ended b cs us cs' us' (b', raised e) f keeps next = keeps

close_transaction-Ended : (b : BulkInsert) → Ended b [] [] (close_transaction b)
unfolding Ended close_transaction
close_transaction-Ended b =
    (refl, refl, sym (append-nil (committed b.log)), sym (append-nil (undone b.log)))

-- A call that neither commits nor undoes a PM.
abbrev Quiet : (BulkInsert → BulkInsert × Exit) → Type 0
Quiet f = (b : BulkInsert) → Effect b [] [] (f b)

close_pm-Quiet : (srv : Server) (pm : ℕ) → Quiet (close_pm srv pm)
unfolding close_pm committed undone
close_pm-Quiet srv pm b =
    then_do-Effect b [] [] [] [] (call srv (we_remove_meta pm b.unique_id b.table_oid) b)
      (call srv (we_close pm)) (call-Effect srv (we_remove_meta pm b.unique_id b.table_oid) b)
      (λ b' keeps. call-Effect srv (we_close pm) b')

-- No PM at all, and the PM itself.
abbrev nothing : ℕ → List ℕ
nothing pm = []

abbrev itself : ℕ → List ℕ
itself pm = pm ∷ []

flatten-nils : (pms : List ℕ) → flatten (map nothing pms) ≡ []
unfolding flatten
flatten-nils [] = refl
flatten-nils (pm ∷ pms) = flatten-nils pms

flatten-units : (pms : List ℕ) → flatten (map itself pms) ≡ pms
unfolding flatten
flatten-units [] = refl
flatten-units (pm ∷ pms) = ap (◌∷◌ pm) (flatten-units pms)

close_pms-Quiet : (srv : Server) (pms : List ℕ) → Quiet (for_each pms (close_pm srv))
close_pms-Quiet srv pms b =
    subst (λ l. Effect b l l (for_each pms (close_pm srv) b)) (flatten-nils pms)
      (for_each-Effect (close_pm srv) nothing nothing (close_pm-Quiet srv) pms b)

send_to-Quiet : (srv : Server) (o : Option ℕ) → Quiet (λ b. send_to srv b o)
unfolding send_to Effect committed undone
send_to-Quiet srv none b = Keeps-refl b
send_to-Quiet srv (some pm) b =
    call-Effect srv
      (we_bulk_insert pm b.unique_id b.session_id b.txn_id (rows_up_to b.row_number b.rows)) b

send_rows-Quiet : (srv : Server) → Quiet (send_rows srv)
unfolding send_rows
send_rows-Quiet srv b = send_to-Quiet srv (get_elem? b.pm_list b.current_pm) b

flush-Quiet : (srv : Server) → Quiet (flush srv)
unfolding flush Effect
flush-Quiet srv b = elim (Bool-cases (ltb 0 b.row_number)) [
  | inl some_rows ↦ rw some_rows (send_rows-Quiet srv b)
  | inr no_rows ↦
      rw no_rows (Keeps-refl b, sym (append-nil (committed b.log)), sym (append-nil (undone b.log)))
]

renew_unique_id-Quiet : (srv : Server) → Quiet (renew_unique_id srv)
unfolding renew_unique_id committed undone Effect
renew_unique_id-Quiet srv b =
    then_do-Effect b [] [] [] [] (call srv brm_get_unique_id b)
      (λ b'. (record b' { unique_id = srv.number b.log brm_get_unique_id }, done))
      (call-Effect srv brm_get_unique_id b)
      (λ b' keeps. (
        record { closed_is = refl; auto_rollback_is = refl; pm_list_is = refl },
        sym (append-nil (committed b'.log)),
        sym (append-nil (undone b'.log)),
      ))

commit_pm-Effect :
    (srv : Server) (pm : ℕ) (b : BulkInsert) → Effect b (pm ∷ []) [] (commit_pm srv pm b)
unfolding commit_pm committed undone
commit_pm-Effect srv pm b =
    then_do-Effect b [] [] (pm ∷ []) [] _ _
      (call-Effect srv (we_bulk_insert_end pm b.unique_id b.txn_id b.table_oid 0) b)
      (λ b1 k1.
        then_do-Effect b1 [] [] (pm ∷ []) [] _ _
          (call-Effect srv (we_get_written_lbids pm b1.unique_id b1.txn_id) b1)
          (λ b2 k2.
            then_do-Effect b2 (pm ∷ []) [] [] [] _ _
              (call-Effect srv (we_bulk_commit pm b2.unique_id b2.session_id b2.txn_id b2.table_oid)
                b2)
              (λ b3 k3. call-Effect srv (brm_set_hwm_and_cp _ _ b.txn_id) b3)))

commit_pms-Effect :
    (srv : Server) (pms : List ℕ) (b : BulkInsert)
    → Effect b pms [] (for_each pms (commit_pm srv) b)
commit_pms-Effect srv pms b =
    subst (λ l. Effect b l [] (for_each pms (commit_pm srv) b)) (flatten-units pms)
      (subst (λ l. Effect b (flatten (map itself pms)) l (for_each pms (commit_pm srv) b))
        (flatten-nils pms)
        (for_each-Effect (commit_pm srv) itself nothing (commit_pm-Effect srv) pms b))

rollback_pm-Effect :
    (srv : Server) (pm : ℕ) (b : BulkInsert) → Effect b [] (pm ∷ []) (rollback_pm srv pm b)
unfolding rollback_pm committed undone
rollback_pm-Effect srv pm b =
    then_do-Effect b [] [] [] (pm ∷ []) _ _
      (call-Effect srv (we_get_written_lbids pm b.unique_id b.txn_id) b)
      (λ b1 k1.
        then_do-Effect b1 [] [] [] (pm ∷ []) _ _
          (call-Effect srv (we_rollback_blocks pm b1.unique_id b1.session_id b1.txn_id) b1)
          (λ b2 k2.
            then_do-Effect b2 [] [] [] (pm ∷ []) _ _ (call-Effect srv (brm_rollback _ b2.txn_id) b2)
              (λ b3 k3.
                call-Effect srv
                  (we_bulk_rollback pm b3.unique_id b3.session_id b3.tbl_lock b3.table_oid) b3)))

rollback_pms-Effect :
    (srv : Server) (pms : List ℕ) (b : BulkInsert)
    → Effect b [] pms (for_each pms (rollback_pm srv) b)
rollback_pms-Effect srv pms b =
    subst (λ l. Effect b [] l (for_each pms (rollback_pm srv) b)) (flatten-units pms)
      (subst (λ l. Effect b l (flatten (map itself pms)) (for_each pms (rollback_pm srv) b))
        (flatten-nils pms)
        (for_each-Effect (rollback_pm srv) nothing itself (rollback_pm-Effect srv) pms b))

Ended-cast :
    (b : BulkInsert) (cs cs' us us' : List ℕ) (r : BulkInsert × Exit)
    → cs ≡ cs'
    → us ≡ us'
    → Ended b cs us r
    → Ended b cs' us' r
Ended-cast b cs cs' us us' r c u h =
    subst (λ l. Ended b l us' r) c (subst (λ l. Ended b cs l r) u h)

commit_all-Ended : (srv : Server) (b : BulkInsert) → Ended b b.pm_list [] (commit_all srv b)
unfolding commit_all committed undone
commit_all-Ended srv b = then_do-Ended b [] [] b.pm_list [] _ _ (flush-Quiet srv b) (λ b1 k1.
    then_do-Ended b1 [] [] b.pm_list [] _ _ (renew_unique_id-Quiet srv b1) (λ b2 k2.
      let pms = k2.pm_list_is ∙ k1.pm_list_is in
      Ended-cast b2 (b.pm_list ++ []) b.pm_list [] [] _ (append-nil b.pm_list) refl (
        then_do-Ended b2 b.pm_list [] [] [] _ _
          (subst (λ l. Effect b2 l [] (for_each b2.pm_list (commit_pm srv) b2)) pms
            (commit_pms-Effect srv b2.pm_list b2))
          (λ b3 k3.
            then_do-Ended b3 [] [] [] [] _ _ (call-Effect srv (brm_committed b3.txn_id) b3)
              (λ b4 k4.
                then_do-Ended b4 [] [] [] [] _ _ (call-Effect srv brm_take_snapshot b4) (λ b5 k5.
                  then_do-Ended b5 [] [] [] [] _ _
                    (call-Effect srv (brm_change_state b5.tbl_lock) b5)
                    (λ b6 k6.
                      then_do-Ended b6 [] [] [] [] _ _ (close_pms-Quiet srv b6.pm_list b6) (λ b7 k7.
                        then_do-Ended b7 [] [] [] [] _ _
                          (call-Effect srv (brm_release_table_lock b7.tbl_lock) b7)
                          (λ b8 k8. close_transaction-Ended b8)))))))))

rollback_all-Ended : (srv : Server) (b : BulkInsert) → Ended b [] b.pm_list (rollback_all srv b)
unfolding rollback_all committed undone
rollback_all-Ended srv b =
    Ended-cast b [] [] (b.pm_list ++ []) b.pm_list _ refl (append-nil b.pm_list) (
      then_do-Ended b [] b.pm_list [] [] _ _ (rollback_pms-Effect srv b.pm_list b) (λ b1 k1.
        then_do-Ended b1 [] [] [] [] _ _ (call-Effect srv (brm_change_state b1.tbl_lock) b1)
          (λ b2 k2. then_do-Ended b2 [] [] [] [] _ _ (close_pms-Quiet srv b2.pm_list b2) (λ b3 k3.
            then_do-Ended b3 [] [] [] [] _ _ (call-Effect srv (brm_rolledback b3.txn_id) b3)
              (λ b4 k4.
                then_do-Ended b4 [] [] [] [] _ _
                  (call-Effect srv (brm_release_table_lock b4.tbl_lock) b4)
                  (λ b5 k5. close_transaction-Ended b5))))))

-- A commit of an open bulk insert that returns leaves it closed and not to be rolled back on
-- destruction, has made weBulkCommit for each PM of the list once and in order, and no
-- weBulkRollback. One that throws leaves it open, to be rolled back as before, with the list of PMs
-- unchanged.
pub commit-Ended :
    (srv : Server) (b : BulkInsert)
    → b.transaction_closed ≡ false
    → Ended b b.pm_list [] (commit srv b)
commit-Ended srv b h =
    subst (Ended b b.pm_list []) (sym (commit-open srv b h)) (commit_all-Ended srv b)

-- A rollback of an open bulk insert that returns leaves it closed and not to be rolled back on
-- destruction, has made weBulkRollback for each PM of the list once and in order, and no
-- weBulkCommit. One that throws leaves it open, to be rolled back as before, with the list of PMs
-- unchanged.
pub rollback-Ended :
    (srv : Server) (b : BulkInsert)
    → b.transaction_closed ≡ false
    → Ended b [] b.pm_list (rollback srv b)
rollback-Ended srv b h =
    subst (Ended b [] b.pm_list) (sym (rollback-open srv b h)) (rollback_all-Ended srv b)
