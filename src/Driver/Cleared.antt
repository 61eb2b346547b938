-- ===== src/Driver/Cleared.antt =====
-- The calls that a clearTableLock makes where it returns: src/mcsapi_driver.cpp.
use mariadb_columnstore_api.Prelude.{
  ℕ, ◌≡◌, refl, sym, ap, ◌∙◌, List, [], ◌∷◌, ◌++◌, Bool, true, false, ◌==◌, if◌then◌else◌, length,
  arith,
}
use mathlib.Core.Path.{subst}
use mathlib.Core.List.{append_assoc, append-nil, flatten, map}
use mariadb_columnstore_api.Bulk.{Exit, Error}
use mariadb_columnstore_api.Bulk.Calls.{Server, Call}
use mariadb_columnstore_api.Bulk.Connecting.{Cluster, one_to}
use mariadb_columnstore_api.Commands.Tables.{TableLockInfo}
use mariadb_columnstore_api.Driver.Clearing.{
  Step, and_then, ask, each_pm, pm_list, require_version, undo_pm, leave_pm, clear_pms, clear_all,
  clear_table_lock,
}
use Exit.{done, raised}
use Call.{
  proc_mon_check_version, we_keep_alive, brm_get_unique_id, we_get_written_lbids,
  we_rollback_blocks, brm_rollback, we_bulk_rollback, brm_change_state, we_remove_meta, we_close,
  brm_rolledback, brm_release_table_lock,
}
use mariadb_columnstore_api.Driver.Trace.{
  undo_calls, undo_all_calls, leave_calls, greeting_calls, clearing_calls, clear_calls,
}

-- Where a step returns, it has made the calls `cs`.
unfoldable Makes : List Call → List Call → List Call × Exit → Type 0
Makes log cs (log', done) = log' ≡ log ++ cs
Makes log cs (log', raised e) = Unit

and_then-Makes :
    (log cs ds : List Call) (r : List Call × Exit) (f : Step)
    → Makes log cs r
    → Makes (log ++ cs) ds (f (log ++ cs))
    → Makes log (cs ++ ds) (and_then r f)
unfolding Makes and_then
and_then-Makes log cs ds (log', raised e) f h next = tt
and_then-Makes log cs ds (log', done) f h next =
    subst (λ l. Makes log (cs ++ ds) (f l)) (sym h) (behind (f (log ++ cs)) next)
  where
    behind : (r : List Call × Exit) → Makes (log ++ cs) ds r → Makes log (cs ++ ds) r
    behind (log2, done) k = k ∙ append_assoc log cs ds
    behind (log2, raised e) k = tt

ask-Makes : (srv : Server) (c : Call) (log : List Call) → Makes log (c ∷ []) (ask srv c log)
unfolding Makes ask
ask-Makes srv c log =
    elim (srv.accepts log c)
      as (λ x.
        Makes log (c ∷ [])
          (if x then (log ++ (c ∷ []), done) else (log ++ (c ∷ []), raised Error.refused))) [
            | true ↦ refl
            | false ↦ tt
          ]

each_pm-Makes :
    (f : ℕ → Step) (g : ℕ → List Call)
    → ((pm : ℕ) (log : List Call) → Makes log (g pm) (f pm log))
    → (pms : List ℕ) (log : List Call) → Makes log (flatten (map g pms)) (each_pm f pms log)
unfolding each_pm Makes flatten
each_pm-Makes f g each [] log = sym (append-nil log)
each_pm-Makes f g each (pm ∷ pms) log =
    and_then-Makes log (g pm) (flatten (map g pms)) (f pm log) (each_pm f pms) (each pm log)
      (each_pm-Makes f g each pms (log ++ g pm))

-- A check that does nothing where it passes.
check-Makes :
    (x : Bool) (log : List Call) (e : Error)
    → Makes log [] (if x then (log, done) else (log, raised e))
unfolding Makes
check-Makes true log e = sym (append-nil log)
check-Makes false log e = tt

flatten-singles : (g : ℕ → Call) (pms : List ℕ) → flatten (map (λ pm. g pm ∷ []) pms) ≡ map g pms
unfolding flatten
flatten-singles g [] = refl
flatten-singles g (pm ∷ pms) = ap (◌∷◌ (g pm)) (flatten-singles g pms)

module _ (srv : Server) (lock : TableLockInfo) where
  undo_pm-Makes :
      (id pm : ℕ) (log : List Call)
      → Makes log
          (undo_calls id lock pm (srv.lbids log (we_get_written_lbids pm id lock.owner_txn_id)))
          (undo_pm srv id lock pm log)
  unfolding undo_pm undo_calls
  undo_pm-Makes id pm log =
      let c1 = we_get_written_lbids pm id lock.owner_txn_id in
      let c2 = we_rollback_blocks pm id lock.owner_session_id lock.owner_txn_id in
      let c3 = brm_rollback (srv.lbids log c1) lock.owner_txn_id in
      let c4 = we_bulk_rollback pm id lock.owner_session_id lock.id lock.table_oid in
      and_then-Makes log (c1 ∷ []) (c2 ∷ c3 ∷ c4 ∷ []) _ _ (ask-Makes srv c1 log) (
        and_then-Makes _ (c2 ∷ []) (c3 ∷ c4 ∷ []) _ _ (ask-Makes srv c2 _)
          (and_then-Makes _ (c3 ∷ []) (c4 ∷ []) _ _ (ask-Makes srv c3 _) (ask-Makes srv c4 _)))

  undo_all-Makes :
      (id : ℕ) (pms : List ℕ) (log : List Call)
      → Makes log (undo_all_calls srv id lock pms log) (each_pm (undo_pm srv id lock) pms log)
  unfolding each_pm undo_all_calls Makes
  undo_all-Makes id [] log = sym (append-nil log)
  undo_all-Makes id (pm ∷ pms) log =
      and_then-Makes log _ _ (undo_pm srv id lock pm log) (each_pm (undo_pm srv id lock) pms)
        (undo_pm-Makes id pm log) (undo_all-Makes id pms _)

  leave_pm-Makes :
      (id pm : ℕ) (log : List Call)
      → Makes log (leave_calls id lock pm) (leave_pm srv id lock pm log)
  unfolding leave_pm leave_calls
  leave_pm-Makes id pm log =
      let c1 = we_remove_meta pm id lock.table_oid in
      and_then-Makes log (c1 ∷ []) (we_close pm ∷ []) _ _ (ask-Makes srv c1 log)
        (ask-Makes srv (we_close pm) _)

  require_version-Makes :
      (log : List Call) → Makes log (proc_mon_check_version ∷ []) (require_version srv log)
  unfolding require_version
  require_version-Makes log =
      and_then-Makes log (proc_mon_check_version ∷ []) [] (ask srv proc_mon_check_version log) _
        (ask-Makes srv proc_mon_check_version log)
        (check-Makes (srv.holds log proc_mon_check_version) _ Error.incompatible_version)

  keep_all-Makes :
      (pms : List ℕ) (log : List Call)
      → Makes log (map we_keep_alive pms) (each_pm (λ pm. ask srv (we_keep_alive pm)) pms log)
  keep_all-Makes pms log =
      subst (λ cs. Makes log cs (each_pm (λ pm. ask srv (we_keep_alive pm)) pms log))
        (flatten-singles we_keep_alive pms)
        (each_pm-Makes (λ pm. ask srv (we_keep_alive pm)) (λ pm. we_keep_alive pm ∷ [])
          (λ pm log'. ask-Makes srv (we_keep_alive pm) log') pms log)

  clear_pms-Makes :
      (id : ℕ) (pms : List ℕ) (log : List Call)
      → Makes log (clearing_calls srv id lock pms log) (clear_pms srv id lock pms log)
  unfolding clear_pms clearing_calls
  clear_pms-Makes id pms log = and_then-Makes log _ _ _ _ (undo_all-Makes id pms log) (
      and_then-Makes _ (brm_change_state lock.id ∷ []) _ _ _ (ask-Makes srv _ _) (
        and_then-Makes _ _ _ _ _
          (each_pm-Makes (leave_pm srv id lock) (leave_calls id lock) (leave_pm-Makes id) pms _)
          (and_then-Makes _ (brm_rolledback lock.owner_txn_id ∷ []) _ _ _ (ask-Makes srv _ _)
            (ask-Makes srv (brm_release_table_lock lock.id) _))))

  clear_from-Makes :
      (pms : List ℕ) (log : List Call)
      → Makes log
          ((brm_get_unique_id ∷ [])
            ++ clearing_calls srv
                (srv.number log brm_get_unique_id)
                lock
                pms
                (log ++ (brm_get_unique_id ∷ [])))
          (and_then
            (ask srv brm_get_unique_id log)
            (clear_pms srv (srv.number log brm_get_unique_id) lock pms))
  clear_from-Makes pms log =
      and_then-Makes log (brm_get_unique_id ∷ []) _ _ _ (ask-Makes srv brm_get_unique_id log)
        (clear_pms-Makes (srv.number log brm_get_unique_id) pms _)

  clear_all-Makes :
      (pms : List ℕ) (log : List Call)
      → Makes log (clear_calls srv lock pms log) (clear_all srv lock pms log)
  unfolding clear_all clear_calls greeting_calls
  clear_all-Makes pms log =
      let kept = (log ++ (proc_mon_check_version ∷ [])) ++ map we_keep_alive pms in
      let asked = brm_get_unique_id ∷ [] in
      and_then-Makes log (proc_mon_check_version ∷ []) _ _ _ (require_version-Makes log) (
        and_then-Makes _ (map we_keep_alive pms) _ _ _ (keep_all-Makes pms _) (
          subst
            (λ l.
              Makes kept
                (asked ++ clearing_calls srv (srv.number l brm_get_unique_id) lock pms (l ++ asked))
                (and_then (ask srv brm_get_unique_id kept)
                  (clear_pms srv (srv.number kept brm_get_unique_id) lock pms)))
            (append_assoc log (proc_mon_check_version ∷ []) (map we_keep_alive pms))
            (clear_from-Makes pms kept)))

  clear_table_lock-Makes :
      (cluster : Cluster) (log : List Call)
      → Makes log
          (clear_calls srv lock (pm_list cluster) log)
          (clear_table_lock srv cluster lock log)
  unfolding clear_table_lock Makes
  clear_table_lock-Makes cluster log =
      let pms = pm_list cluster in
      let cs = clear_calls srv lock pms log in
      let roots = flatten (map cluster.db_roots_for_pm (one_to cluster.pm_count)) in
      elim (length pms == 0)
        as (λ x. Makes log cs (
          if x
          then (log, raised Error.no_pms)
          else (if length roots == 0
              then (log, raised Error.no_db_roots)
              else clear_all srv lock pms log))) [
                | true ↦ tt
                | false ↦
                    elim (length roots == 0)
                      as (λ x. Makes log cs (
                        if x
                        then (log, raised Error.no_db_roots)
                        else clear_all srv lock pms log)) [
                          | true ↦ tt
                          | false ↦ clear_all-Makes pms log
                        ]
              ]

Makes-done :
    (log cs : List Call) (r : List Call × Exit) → Makes log cs r → r.1 ≡ done → r.0 ≡ log ++ cs
unfolding Makes
Makes-done log cs (log', done) h e = h
Makes-done log cs (log', raised x) h e = ground arith

-- A clearTableLock that returns has made exactly these calls, in this order: procMonCheckVersion,
-- weKeepAlive for each PM of the configuration, brmGetUniqueId; then for each PM weGetWrittenLbids,
-- weRollbackBlocks, brmRollback with the blocks that weGetWrittenLbids gave, and weBulkRollback, with
-- the new unique id and the transaction, session, number and table of the lock; then brmChangeState of
-- the lock, weRemoveMeta and weClose for each PM, brmRolledback of the lock's transaction, and at last
-- brmReleaseTableLock of the lock.
pub clear_table_lock-undoes :
    (srv : Server) (lock : TableLockInfo) (cluster : Cluster) (log : List Call)
    → (clear_table_lock srv cluster lock log).1 ≡ done
    → (clear_table_lock srv cluster lock log).0 ≡ log ++ clear_calls srv lock (pm_list cluster) log
clear_table_lock-undoes srv lock cluster log returns =
    Makes-done log (clear_calls srv lock (pm_list cluster) log)
      (clear_table_lock srv cluster lock log) (clear_table_lock-Makes srv lock cluster log) returns
