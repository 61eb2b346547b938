-- ===== src/Bulk/Connecting.antt =====
-- The construction of a bulk insert, its connect and its destruction, of src/mcsapi_bulk.cpp.
use mariadb_columnstore_api.Prelude.{
  ℕ, zero, suc, ◌%◌, ◌^◌, List, [], ◌∷◌, ◌++◌, true, false, Option, none, some, ◌==◌, if◌then◌else◌,
  length,
}
use mathlib.Core.List.{flatten, map}
use mariadb_columnstore_api.Types.{Column}
use mariadb_columnstore_api.Bulk.{
  BulkInsert, Exit, Error, max_rows, then_do, call, for_each, get_row,
}
use mariadb_columnstore_api.Bulk.Calls.{Server, Call}
use mariadb_columnstore_api.Bulk.Closing.{rollback}
use Exit.{done, raised}
use Error.{no_pms, no_db_roots, incompatible_version, table_not_found, refused}
use Call.{
  proc_mon_check_version, brm_get_txn_id, brm_get_unique_id, brm_get_table_lock, brm_rolledback,
  we_keep_alive,
}

-- The initial values of the members; a null `row` is an index behind the rows of the table data.
-- `pms` is the list of PMs and `session_id` is drawn by `rand`.
unfoldable pub initial : List ℕ → ℕ → BulkInsert
initial pms session_id = record {
  columns = [];
  table_oid = 0;
  unique_id = 0;
  tbl_lock = 0;
  txn_id = 0;
  session_id = session_id;
  rows = λ i. [];
  row_number = 0;
  row = max_rows;
  batch_size = 10000;
  auto_rollback = true;
  transaction_closed = false;
  truncate_is_error = false;
  pm_list = pms;
  current_pm = 0;
  summary = record {
    invalid_count = 0;
    truncated_count = 0;
    inserted_count = 0;
    saturated_count = 0;
  };
  log = [];
}

-- ColumnStoreBulkInsertImpl's constructor: in mode 1 the list of PMs is the one that is given.
unfoldable pub construct : ℕ → ℕ → ℕ → BulkInsert
unfolding initial
construct mode pm session_id = initial (if mode == 1 then pm ∷ [] else []) session_id

-- What the driver gives connect: the number of PMs, the DBRoots of each, and the columns and the
-- number of the table, where the catalogue has it.
pub record Cluster : Type 0 where
  pub pm_count : ℕ
  pub db_roots_for_pm : ℕ → List ℕ
  pub get_table : Option (List Column × ℕ)

-- `for (uint32_t pmit = 1; pmit <= pmCount; pmit++)`
unfoldable pub one_to : ℕ → List ℕ
one_to zero = []
one_to (suc n) = one_to n ++ (suc n ∷ [])

-- The PMs, in `uint16_t`, and their DBRoots: only PMs that are not given bring DBRoots with them.
unfoldable pub list_pms : Cluster → BulkInsert → BulkInsert × List ℕ
unfolding one_to
list_pms cluster b =
    let pms = one_to cluster.pm_count in
    if length b.pm_list == 0
    then (
      record b { pm_list = map (λ pm. pm % 2 ^ 16) pms },
      flatten (map cluster.db_roots_for_pm pms),
    )
    else (b, [])

-- `procMonCheckVersion`
unfoldable pub check_version : Server → BulkInsert → BulkInsert × Exit
unfolding call then_do
check_version srv b = then_do (call srv proc_mon_check_version b) (λ b'.
    if srv.holds b.log proc_mon_check_version
    then (b', done)
    else (b', raised incompatible_version))

-- `tbl = &driver->getSystemCatalog()->getTable(db, table)` and the copy of the columns.
unfoldable pub find_table : Cluster → BulkInsert → BulkInsert × Exit
find_table cluster b = elim cluster.get_table [
  | none ↦ (b, raised table_not_found)
  | some t ↦ (record b { columns = t.0; table_oid = t.1 }, done)
]

-- `txnId = commands->brmGetTxnID(sessionId)` and `uniqueId = commands->brmGetUniqueId()`
unfoldable pub start_transaction : Server → BulkInsert → BulkInsert × Exit
unfolding call then_do
start_transaction srv b =
    let ask = brm_get_txn_id b.session_id in
    then_do (call srv ask b) (λ b1.
      let b2 = record b1 { txn_id = srv.number b.log ask } in
      then_do (call srv brm_get_unique_id b2)
        (λ b3. (record b3 { unique_id = srv.number b2.log brm_get_unique_id }, done)))

-- The handler of a refused table lock.
unfoldable pub give_up : Server → BulkInsert → BulkInsert × Exit
unfolding call then_do
give_up srv b =
    then_do (call srv (brm_rolledback b.txn_id) b)
      (λ b'. (record b' { auto_rollback = false; transaction_closed = true }, raised refused))

-- `tblLock = commands->brmGetTableLock(...)` in its `try`.
unfoldable pub lock_table : Server → List ℕ → BulkInsert → BulkInsert × Exit
unfolding call give_up
lock_table srv db_roots b =
    let ask = brm_get_table_lock b.table_oid b.session_id b.txn_id db_roots in
    let b' = record b { log = b.log ++ (ask ∷ []) } in
    if srv.accepts b.log ask
    then (record b' { tbl_lock = srv.number b.log ask }, done)
    else give_up srv b'

-- connect behind the checks of the configuration.
unfoldable pub connect_to : Server → Cluster → List ℕ → BulkInsert → BulkInsert × Exit
unfolding check_version find_table start_transaction lock_table for_each call then_do get_row
connect_to srv cluster db_roots b0 = then_do (check_version srv b0) (λ b1.
    then_do (find_table cluster b1) (λ b2. then_do (start_transaction srv b2) (λ b3.
      then_do (lock_table srv db_roots b3) (λ b4.
        then_do (for_each b4.pm_list (λ pm. call srv (we_keep_alive pm)) b4)
          (λ b5. (get_row b5, done))))))

-- connect
unfoldable pub connect : Server → Cluster → BulkInsert → BulkInsert × Exit
unfolding list_pms connect_to
connect srv cluster b =
    let (b', db_roots) = list_pms cluster b in
    if length b'.pm_list == 0
    then (b', raised no_pms)
    else (if length db_roots == 0
        then (b', raised no_db_roots)
        else connect_to srv cluster db_roots b')

-- The destructor.
unfoldable pub destruct : Server → BulkInsert → BulkInsert × Exit
unfolding rollback
destruct srv b = if b.auto_rollback then rollback srv b else (b, done)
