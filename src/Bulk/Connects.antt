-- ===== src/Bulk/Connects.antt =====
-- connect of src/mcsapi_bulk.cpp returns on a cluster that works.
use mariadb_columnstore_api.Prelude.{
  ℕ, suc, ◌<◌, ◌%◌, ◌^◌, ◌≡◌, refl, sym, ap, List, [], ◌∷◌, Bool, true, false, some, ◌==◌,
  if◌then◌else◌, length, length-append, arith, zero,
}
use mathlib.Core.List.{flatten, map}
use mathlib.Core.Path.{subst}
use mariadb_columnstore_api.Types.{Column}
use mariadb_columnstore_api.Bulk.{BulkInsert, Exit, Error, call}
use mariadb_columnstore_api.Bulk.Calls.{Server, Call}
use mariadb_columnstore_api.Bulk.Progress.{
  IsWilling, Returns, then_do-Returns, for_each-Returns, call-Returns,
}
use mariadb_columnstore_api.Bulk.Connecting.{
  initial, construct, Cluster, one_to, list_pms, check_version, find_table, start_transaction,
  lock_table, connect_to, connect,
}
use Exit.{done, raised}
use Call.{proc_mon_check_version, we_keep_alive}

-- A cluster that connect can use: a PM, a DBRoot, and the table.
pub record IsUsable (cluster : Cluster) : Type 0 where
  pub some_pm : 0 < cluster.pm_count
  pub some_root : 0 < length (flatten (map cluster.db_roots_for_pm (one_to cluster.pm_count)))
  pub table : List Column × ℕ
  pub table_is : cluster.get_table ≡ some table

length-map : {A B : Type 0} (f : A → B) (as' : List A) → length (map f as') ≡ length as'
length-map f [] = refl
length-map f (a ∷ as') = ap suc (length-map f as')

length-one_to : (n : ℕ) → length (one_to n) ≡ n
unfolding one_to
length-one_to zero = refl
length-one_to (suc n) = omega (arith, length-append (one_to n) (suc n ∷ []), length-one_to n)

-- A test that passes.
passed-Returns :
    (x : Bool) (r s : BulkInsert × Exit) → x ≡ true → Returns r → Returns (if x then r else s)
passed-Returns true r s e h = h
passed-Returns false r s e h = ground arith

failed-Returns :
    (x : Bool) (r s : BulkInsert × Exit) → x ≡ false → Returns s → Returns (if x then r else s)
failed-Returns false r s e h = h
failed-Returns true r s e h = ground arith

module _ (srv : Server) (willing : IsWilling srv) where
  check_version-Returns :
      (b : BulkInsert)
      → srv.holds b.log proc_mon_check_version ≡ true
      → Returns (check_version srv b)
  unfolding check_version
  check_version-Returns b fits =
      then_do-Returns (call srv proc_mon_check_version b) _
        (call-Returns srv willing proc_mon_check_version b)
        (λ b'. passed-Returns (srv.holds b.log proc_mon_check_version) (b', done) _ fits refl)

  find_table-Returns :
      (cluster : Cluster) (t : List Column × ℕ) (b : BulkInsert)
      → cluster.get_table ≡ some t
      → Returns (find_table cluster b)
  unfolding find_table
  find_table-Returns cluster t b h = rw h refl

  start_transaction-Returns : (b : BulkInsert) → Returns (start_transaction srv b)
  unfolding start_transaction
  start_transaction-Returns b =
      then_do-Returns _ _ (call-Returns srv willing _ b)
        (λ b1. then_do-Returns _ _ (call-Returns srv willing _ _) (λ b2. refl))

  lock_table-Returns : (roots : List ℕ) (b : BulkInsert) → Returns (lock_table srv roots b)
  unfolding lock_table
  lock_table-Returns roots b =
      let c = Call.brm_get_table_lock b.table_oid b.session_id b.txn_id roots in
      passed-Returns (srv.accepts b.log c) (_, done) _ (willing b.log c) refl

  connect_to-Returns :
      (cluster : Cluster) (roots : List ℕ) (b : BulkInsert)
      → IsUsable cluster
      → srv.holds b.log proc_mon_check_version ≡ true
      → Returns (connect_to srv cluster roots b)
  unfolding connect_to
  connect_to-Returns cluster roots b u fits =
      then_do-Returns _ _ (check_version-Returns b fits) (λ b1.
        then_do-Returns _ _ (find_table-Returns cluster u.table b1 u.table_is) (λ b2.
          then_do-Returns _ _ (start_transaction-Returns b2) (λ b3.
            then_do-Returns _ _ (lock_table-Returns roots b3) (λ b4.
              then_do-Returns _ _
                (for_each-Returns (λ pm. call srv (we_keep_alive pm))
                  (λ pm b'. call-Returns srv willing (we_keep_alive pm) b') b4.pm_list b4)
                (λ b5. refl)))))

  checks-Returns :
      (m n : ℕ) (b : BulkInsert) (e f : Error) (r : BulkInsert × Exit)
      → 0 < m
      → 0 < n
      → Returns r
      → Returns (if m == 0 then (b, raised e) else (if n == 0 then (b, raised f) else r))
  checks-Returns m n b e f r hm hn h =
      let first : (m == 0) ≡ false = ground (arith, hm) in
      let second : (n == 0) ≡ false = ground (arith, hn) in
      failed-Returns (m == 0) (b, raised e) _ first
        (failed-Returns (n == 0) (b, raised f) r second h)

  initial-Returns :
      (cluster : Cluster) (session_id : ℕ)
      → IsUsable cluster
      → srv.holds [] proc_mon_check_version ≡ true
      → Returns (connect srv cluster (initial [] session_id))
  unfolding connect list_pms initial
  initial-Returns cluster session_id u fits =
      let pms = map (λ p. p % 2 ^ 16) (one_to cluster.pm_count) in
      let roots = flatten (map cluster.db_roots_for_pm (one_to cluster.pm_count)) in
      let b : BulkInsert = record (initial [] session_id) { pm_list = pms } in
      let some_pm : 0 < length pms =
        rw (length-map (λ p. p % 2 ^ 16) (one_to cluster.pm_count), length-one_to cluster.pm_count)
          u.some_pm in
      checks-Returns (length pms) (length roots) b Error.no_pms Error.no_db_roots
        (connect_to srv cluster roots b) some_pm u.some_root
        (connect_to-Returns cluster roots b u fits)

  -- When the server takes every call and its version fits, connect of a new bulk insert that is not
  -- for one PM returns on a cluster that has a PM, a DBRoot and the table.
  pub connect-returns :
      (cluster : Cluster) (mode pm session_id : ℕ)
      → IsUsable cluster
      → (mode == 1) ≡ false
      → srv.holds [] proc_mon_check_version ≡ true
      → (connect srv cluster (construct mode pm session_id)).1 ≡ done
  unfolding construct
  connect-returns cluster mode pm session_id u every fits =
      subst (λ x. Returns (connect srv cluster (initial (if x then pm ∷ [] else []) session_id)))
        (sym every) (initial-Returns cluster session_id u fits)
