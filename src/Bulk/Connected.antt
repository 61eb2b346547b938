-- ===== src/Bulk/Connected.antt =====
-- What the constructor and connect leave.
use mariadb_columnstore_api.Prelude.{
  ℕ, ◌<◌, ◌%◌, ◌^◌, ◌≡◌, refl, ap, ◌∙◌, List, [], ◌∷◌, Bool, true, false, ◌==◌, if◌then◌else◌,
  length, arith,
}
use mathlib.Core.List.{map}
use mariadb_columnstore_api.Bulk.{BulkInsert, Exit, Error}
use mariadb_columnstore_api.Bulk.Calls.{Server}
use mariadb_columnstore_api.Bulk.Filling.{IsReady}
use mariadb_columnstore_api.Bulk.Connecting.{
  initial, construct, Cluster, one_to, list_pms, connect_to, connect,
}
use mariadb_columnstore_api.Bulk.Keeping.{Steady, AtRow, connect_to-Steady, connect_to-AtRow}
use Exit.{done, raised}
use Error.{no_db_roots}

-- What connect promises where it returns.
unfoldable IsConnected : Cluster → BulkInsert × Exit → Type 0
IsConnected cluster (b, raised e) = Unit
IsConnected cluster (b, done) =
    IsReady b
    × (b.pm_list ≡ map (λ pm. pm % 2 ^ 16) (one_to cluster.pm_count))
    × (b.transaction_closed ≡ false)
    × (b.auto_rollback ≡ true)

connected :
    (cluster : Cluster) (b : BulkInsert) (r : BulkInsert × Exit)
    → Steady b r
    → AtRow r
    → b.pm_list ≡ map (λ pm. pm % 2 ^ 16) (one_to cluster.pm_count)
    → 0 < length b.pm_list
    → b.row_number ≡ 0
    → b.current_pm ≡ 0
    → b.transaction_closed ≡ false
    → b.auto_rollback ≡ true
    → IsConnected cluster r
unfolding Steady AtRow IsConnected
connected cluster b (b', raised e) k at pms some_pm rn cp not_closed undo = tt
connected cluster b (b', done) k at pms some_pm rn cp not_closed undo = (
  record {
    has_room = omega (arith, k.rows_kept, rn);
    row_is = at;
    has_pm = omega (arith, k.turn_kept, cp, ap length k.pms_kept, some_pm);
  },
  k.pms_kept ∙ pms,
  k.open_kept ∙ not_closed,
  k.undo_kept ∙ undo,
)

IsConnected-done :
    (cluster : Cluster) (r : BulkInsert × Exit)
    → IsConnected cluster r
    → r.1 ≡ done
    → IsReady (r.0)
      × ((r.0).pm_list ≡ map (λ pm. pm % 2 ^ 16) (one_to cluster.pm_count))
      × ((r.0).transaction_closed ≡ false)
      × ((r.0).auto_rollback ≡ true)
unfolding IsConnected
IsConnected-done cluster (b, done) h e = h
IsConnected-done cluster (b, raised x) h e = ground arith

-- The two checks of the configuration.
checks-IsConnected :
    (cluster : Cluster) (c d : Bool) (b : BulkInsert) (e f : Error) (r : BulkInsert × Exit)
    → (c ≡ false → IsConnected cluster r)
    → IsConnected cluster (if c then (b, raised e) else (if d then (b, raised f) else r))
unfolding IsConnected
checks-IsConnected cluster true d b e f r h = tt
checks-IsConnected cluster false true b e f r h = tt
checks-IsConnected cluster false false b e f r h = h refl

initial-IsConnected :
    (srv : Server) (cluster : Cluster) (pms : List ℕ) (session_id : ℕ)
    → IsConnected cluster (connect srv cluster (initial pms session_id))
unfolding connect list_pms initial IsConnected
initial-IsConnected srv cluster (pm ∷ pms) session_id = ground arith
initial-IsConnected srv cluster [] session_id =
    let b = (list_pms cluster (initial [] session_id)).0 in
    let roots = (list_pms cluster (initial [] session_id)).1 in
    checks-IsConnected cluster _ (length roots == 0) b _ _ (connect_to srv cluster roots b)
      (λ some_pm.
        connected cluster b (connect_to srv cluster roots b) (connect_to-Steady srv cluster roots b)
          (connect_to-AtRow srv cluster roots b) refl (ground (arith, some_pm)) refl refl refl refl)

-- Where connect returns on a new bulk insert, whatever the servers answered, there is room for a row, the row pointer is at it and it is the turn of a PM of the list, the list has each PM of the
-- configuration, the bulk insert is open, and its destruction rolls it back.
pub connect-IsReady :
    (srv : Server) (cluster : Cluster) (mode pm session_id : ℕ)
    → (connect srv cluster (construct mode pm session_id)).1 ≡ done
    → IsReady ((connect srv cluster (construct mode pm session_id)).0)
      × (((connect srv cluster (construct mode pm session_id)).0).pm_list
          ≡ map (λ pm. pm % 2 ^ 16) (one_to cluster.pm_count))
      × (((connect srv cluster (construct mode pm session_id)).0).transaction_closed ≡ false)
      × (((connect srv cluster (construct mode pm session_id)).0).auto_rollback ≡ true)
unfolding construct
connect-IsReady srv cluster mode pm session_id returns =
    let pms : List ℕ = if mode == 1 then pm ∷ [] else [] in
    IsConnected-done cluster (connect srv cluster (initial pms session_id))
      (initial-IsConnected srv cluster pms session_id) returns

-- A bulk insert that is constructed in mode 1, for one PM, never connects: connect makes no call and
-- throws that the configuration has no DBRoots, whatever the configuration is.
pub connect-single_pm :
    (srv : Server) (cluster : Cluster) (pm session_id : ℕ)
    → connect srv cluster (construct 1 pm session_id)
      ≡ (construct 1 pm session_id, raised no_db_roots)
unfolding connect construct list_pms initial
connect-single_pm srv cluster pm session_id = refl
