-- ===== src/Bulk/Progress.antt =====
-- commit and rollback return when the server takes every call.
use mariadb_columnstore_api.Prelude.{
  ℕ, zero, suc, ◌<◌, ◌≡◌, ◌≢◌, refl, sym, ap, if◌then◌else◌, List, [], ◌∷◌, true, false, ltb,
  Option, none, some, get_elem?, length, arith, Bool-cases, inl, inr,
}
use mathlib.Core.Path.{subst}
use mariadb_columnstore_api.Bulk.{BulkInsert, Exit, then_do, call, for_each, send_to, send_rows}
use mariadb_columnstore_api.Bulk.Calls.{Server, Call}
use mariadb_columnstore_api.Bulk.Closing.{
  flush, renew_unique_id, commit_pm, close_pm, close_transaction, commit_all, commit, rollback_pm,
  rollback_all, rollback, commit-open, rollback-open,
}
use Exit.{done, raised}

-- A server that throws on no call.
abbrev pub IsWilling : Server → Type 0
IsWilling srv = (log : List Call) (c : Call) → srv.accepts log c ≡ true

abbrev pub Returns : BulkInsert × Exit → Type 0
Returns r = r.1 ≡ done

pub then_do-Returns :
    (r : BulkInsert × Exit) (f : BulkInsert → BulkInsert × Exit)
    → Returns r
    → ((b : BulkInsert) → Returns (f b))
    → Returns (then_do r f)
unfolding then_do
then_do-Returns (b, done) f h next = next b
then_do-Returns (b, raised e) f h next = ground arith

pub for_each-Returns :
    (f : ℕ → BulkInsert → BulkInsert × Exit)
    → ((pm : ℕ) (b : BulkInsert) → Returns (f pm b))
    → (pms : List ℕ) (b : BulkInsert) → Returns (for_each pms f b)
unfolding for_each
for_each-Returns f each [] b = refl
for_each-Returns f each (pm ∷ pms) b =
    then_do-Returns _ _ (each pm b) (λ b'. for_each-Returns f each pms b')

pub get_elem?-some : (pms : List ℕ) (i : ℕ) → i < length pms → get_elem? pms i ≢ none
get_elem?-some [] i h = ground arith
get_elem?-some (pm ∷ pms) zero h = ground arith
get_elem?-some (pm ∷ pms) (suc i) h = get_elem?-some pms i (omega arith)

module _ (srv : Server) (willing : IsWilling srv) where
  pub call-Returns : (c : Call) (b : BulkInsert) → Returns (call srv c b)
  unfolding call
  call-Returns c b = rw (willing b.log c) refl

  commit_pm-Returns : (pm : ℕ) (b : BulkInsert) → Returns (commit_pm srv pm b)
  unfolding commit_pm
  commit_pm-Returns pm b = then_do-Returns _ _ (call-Returns _ _) (λ b1.
      then_do-Returns _ _ (call-Returns _ _)
        (λ b2. then_do-Returns _ _ (call-Returns _ _) (λ b3. call-Returns _ _)))

  close_pm-Returns : (pm : ℕ) (b : BulkInsert) → Returns (close_pm srv pm b)
  unfolding close_pm
  close_pm-Returns pm b = then_do-Returns _ _ (call-Returns _ _) (λ b1. call-Returns _ _)

  rollback_pm-Returns : (pm : ℕ) (b : BulkInsert) → Returns (rollback_pm srv pm b)
  unfolding rollback_pm
  rollback_pm-Returns pm b = then_do-Returns _ _ (call-Returns _ _) (λ b1.
      then_do-Returns _ _ (call-Returns _ _)
        (λ b2. then_do-Returns _ _ (call-Returns _ _) (λ b3. call-Returns _ _)))

  send_to-Returns : (b : BulkInsert) (o : Option ℕ) → o ≢ none → Returns (send_to srv b o)
  unfolding send_to
  send_to-Returns b none h = ground arith
  send_to-Returns b (some pm) h = call-Returns _ _

  flush-Returns : (b : BulkInsert) → b.current_pm < length b.pm_list → Returns (flush srv b)
  unfolding flush send_rows
  flush-Returns b h = elim (Bool-cases (ltb 0 b.row_number)) [
    | inl some_rows ↦ rw some_rows (
        send_to-Returns b (get_elem? b.pm_list b.current_pm)
          (get_elem?-some b.pm_list b.current_pm h))
    | inr no_rows ↦ rw no_rows refl
  ]

  -- When the server throws on no call, a commit of an open bulk insert returns, provided that it is
  -- the turn of a PM of the list.
  pub commit-returns :
      (b : BulkInsert)
      → b.transaction_closed ≡ false
      → b.current_pm < length b.pm_list
      → (commit srv b).1 ≡ done
  unfolding commit_all renew_unique_id close_transaction
  commit-returns b is_open has_pm = subst Returns (sym (commit-open srv b is_open)) (
      then_do-Returns _ _ (flush-Returns b has_pm) (λ b1.
        then_do-Returns _ _ (then_do-Returns _ _ (call-Returns _ _) (λ b'. refl)) (λ b2.
          then_do-Returns _ _ (for_each-Returns _ commit_pm-Returns b2.pm_list b2) (λ b3.
            then_do-Returns _ _ (call-Returns _ _) (λ b4.
              then_do-Returns _ _ (call-Returns _ _) (λ b5.
                then_do-Returns _ _ (call-Returns _ _) (λ b6.
                  then_do-Returns _ _ (for_each-Returns _ close_pm-Returns b6.pm_list b6)
                    (λ b7. then_do-Returns _ _ (call-Returns _ _) (λ b8. refl)))))))))

  rollback-shut : (b : BulkInsert) → b.transaction_closed ≡ true → rollback srv b ≡ (b, done)
  unfolding rollback
  rollback-shut b h = ap (λ x. if x then (b, done) else rollback_all srv b) h

  -- When the server throws on no call, a rollback returns, whatever the state of the bulk insert.
  pub rollback-returns : (b : BulkInsert) → (rollback srv b).1 ≡ done
  unfolding rollback_all close_transaction
  rollback-returns b = elim (Bool-cases b.transaction_closed) [
    | inl shut ↦ ap (λ r. r.1) (rollback-shut b shut)
    | inr is_open ↦ subst Returns (sym (rollback-open srv b is_open)) (
        then_do-Returns _ _ (for_each-Returns _ rollback_pm-Returns b.pm_list b) (λ b1.
          then_do-Returns _ _ (call-Returns _ _) (λ b2.
            then_do-Returns _ _ (for_each-Returns _ close_pm-Returns b2.pm_list b2) (λ b3.
              then_do-Returns _ _ (call-Returns _ _)
                (λ b4. then_do-Returns _ _ (call-Returns _ _) (λ b5. refl))))))
  ]
