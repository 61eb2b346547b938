-- ===== src/Driver/Clears.antt =====
-- clearTableLock of src/mcsapi_driver.cpp returns when the servers take every call.
use mariadb_columnstore_api.Prelude.{
  ℕ, ◌<◌, ◌≡◌, refl, List, [], ◌∷◌, Bool, true, false, ◌==◌, if◌then◌else◌, length, arith,
}
use mathlib.Core.List.{flatten, map}
use mariadb_columnstore_api.Bulk.{Exit}
use mariadb_columnstore_api.Bulk.Calls.{Server, Call}
use mariadb_columnstore_api.Bulk.Connecting.{Cluster, one_to}
use mariadb_columnstore_api.Bulk.Progress.{IsWilling}
use mariadb_columnstore_api.Commands.Tables.{TableLockInfo}
use mariadb_columnstore_api.Driver.Clearing.{
  Step, and_then, ask, each_pm, pm_list, require_version, undo_pm, leave_pm, clear_pms, clear_all,
  clear_table_lock,
}
use Exit.{done, raised}
use Call.{proc_mon_check_version, we_keep_alive}

abbrev Returns : List Call × Exit → Type 0
Returns r = r.1 ≡ done

and_then-Returns :
    (r : List Call × Exit) (f : Step)
    → Returns r
    → ((log : List Call) → Returns (f log))
    → Returns (and_then r f)
unfolding and_then
and_then-Returns (log, done) f h next = next log
and_then-Returns (log, raised e) f h next = ground arith

each_pm-Returns :
    (f : ℕ → Step)
    → ((pm : ℕ) (log : List Call) → Returns (f pm log))
    → (pms : List ℕ) (log : List Call) → Returns (each_pm f pms log)
unfolding each_pm
each_pm-Returns f each [] log = refl
each_pm-Returns f each (pm ∷ pms) log =
    and_then-Returns (f pm log) (each_pm f pms) (each pm log) (each_pm-Returns f each pms)

-- The choices.
choose-Returns :
    (x : Bool) (r s : List Call × Exit) → x ≡ true → Returns r → Returns (if x then r else s)
choose-Returns true r s e h = h
choose-Returns false r s e h = ground arith

pass-Returns :
    (n : ℕ) (r s : List Call × Exit) → 0 < n → Returns s → Returns (if n == 0 then r else s)
pass-Returns n r s h k = ground (arith, h, k)

module _ (srv : Server) (willing : IsWilling srv) where
  ask-Returns : (c : Call) (log : List Call) → Returns (ask srv c log)
  unfolding ask
  ask-Returns c log = choose-Returns (srv.accepts log c) (_, done) _ (willing log c) refl

  require_version-Returns :
      (log : List Call)
      → srv.holds log proc_mon_check_version ≡ true
      → Returns (require_version srv log)
  unfolding require_version
  require_version-Returns log fits =
      and_then-Returns (ask srv proc_mon_check_version log) _
        (ask-Returns proc_mon_check_version log)
        (λ log'. choose-Returns (srv.holds log proc_mon_check_version) (log', done) _ fits refl)

  module _ (lock : TableLockInfo) where
    undo_pm-Returns : (id pm : ℕ) (log : List Call) → Returns (undo_pm srv id lock pm log)
    unfolding undo_pm
    undo_pm-Returns id pm log = and_then-Returns _ _ (ask-Returns _ log) (λ log1.
        and_then-Returns _ _ (ask-Returns _ log1)
          (λ log2. and_then-Returns _ _ (ask-Returns _ log2) (λ log3. ask-Returns _ log3)))

    leave_pm-Returns : (id pm : ℕ) (log : List Call) → Returns (leave_pm srv id lock pm log)
    unfolding leave_pm
    leave_pm-Returns id pm log =
        and_then-Returns _ _ (ask-Returns _ log) (λ log1. ask-Returns _ log1)

    clear_pms-Returns :
        (id : ℕ) (pms : List ℕ) (log : List Call) → Returns (clear_pms srv id lock pms log)
    unfolding clear_pms
    clear_pms-Returns id pms log =
        and_then-Returns _ _ (each_pm-Returns _ (undo_pm-Returns id) pms log) (λ log1.
          and_then-Returns _ _ (ask-Returns _ log1) (λ log2.
            and_then-Returns _ _ (each_pm-Returns _ (leave_pm-Returns id) pms log2)
              (λ log3. and_then-Returns _ _ (ask-Returns _ log3) (λ log4. ask-Returns _ log4))))

    clear_all-Returns :
        (pms : List ℕ) (log : List Call)
        → srv.holds log proc_mon_check_version ≡ true
        → Returns (clear_all srv lock pms log)
    unfolding clear_all
    clear_all-Returns pms log fits =
        and_then-Returns _ _ (require_version-Returns log fits) (λ log1.
          and_then-Returns _ _
            (each_pm-Returns _ (λ pm log'. ask-Returns (we_keep_alive pm) log') pms log1)
            (λ log2.
              and_then-Returns _ _ (ask-Returns _ log2) (λ log3. clear_pms-Returns _ pms log3)))

    -- When the servers take every call and their version fits, clearTableLock returns on a cluster
    -- that has a PM and a DBRoot.
    pub clear_table_lock-returns :
        (cluster : Cluster) (log : List Call)
        → 0 < length (pm_list cluster)
        → 0 < length (flatten (map cluster.db_roots_for_pm (one_to cluster.pm_count)))
        → srv.holds log proc_mon_check_version ≡ true
        → (clear_table_lock srv cluster lock log).1 ≡ done
    unfolding clear_table_lock
    clear_table_lock-returns cluster log some_pm some_root fits =
        pass-Returns (length (pm_list cluster)) _ _ some_pm (
          pass-Returns (length (flatten (map cluster.db_roots_for_pm (one_to cluster.pm_count)))) _
            _ some_root (clear_all-Returns (pm_list cluster) log fits))
