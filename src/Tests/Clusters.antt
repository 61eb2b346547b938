-- ===== src/Tests/Clusters.antt =====
-- Runs of the configuration, the catalogue, the connection of a bulk insert and the table locks.
use mariadb_columnstore_api.Prelude.{
  ℕ, ◌<◌, ◌≡◌, refl, List, [], ◌∷◌, ◌++◌, length, map, arith, true, false, some, ◌&&◌, ◌==◌, ◌%◌,
  ◌^◌,
}
use mathlib.Core.List.{flatten}
use mariadb_columnstore_api.Types.{DataType}
use mariadb_columnstore_api.Messaging.Bytes.{bytes_eq}
use mariadb_columnstore_api.Bulk.{Exit, Error}
use mariadb_columnstore_api.Bulk.Filling.{IsReady}
use mariadb_columnstore_api.Bulk.Connecting.{Cluster, one_to, construct, connect}
use mariadb_columnstore_api.Bulk.Connected.{connect-IsReady, connect-single_pm}
use mariadb_columnstore_api.Bulk.Connects.{IsUsable, connect-returns}
use mariadb_columnstore_api.Commands.Tables.{Table, TableLockInfo}
use mariadb_columnstore_api.Driver.Config.{XmlNode, XmlNodes, get_xml_node, children_of, name_of}
use mariadb_columnstore_api.Driver.Starting.{
  config_path, etc_columnstore_xml, load_xml, columnstore, Loaded, ConfigError,
}
use mariadb_columnstore_api.Driver.Matching.{below, first_text, get_xml_node-first}
use mariadb_columnstore_api.Driver.Lookup.{
  Found, get_table, get_column, is_table_locked, get_table-Found,
}
use mariadb_columnstore_api.Driver.Clearing.{pm_list, clear_table_lock}
use mariadb_columnstore_api.Driver.Cleared.{clear_table_lock-undoes}
use mariadb_columnstore_api.Driver.Trace.{clear_calls}
use mariadb_columnstore_api.Driver.Clears.{clear_table_lock-returns}
use mariadb_columnstore_api.Tests.Fixtures.{column}
use mariadb_columnstore_api.Tests.Inserts.{willing, willing-IsWilling}
use Exit.{done, raised}

abbrev cluster : Cluster
cluster = record {
  pm_count = 2;
  db_roots_for_pm = λ pm. pm ∷ [];
  get_table = some (column DataType.int 4 ∷ [], 3000);
}

some_root : 0 < length (flatten (map cluster.db_roots_for_pm (one_to cluster.pm_count)))
unfolding one_to flatten
some_root = omega arith

cluster-IsUsable : IsUsable cluster
cluster-IsUsable = record {
  some_pm = omega arith;
  some_root = some_root;
  table = (column DataType.int 4 ∷ [], 3000);
  table_is = refl;
}

connect-returns_example : (connect willing cluster (construct 0 0 70000)).1 ≡ done
connect-returns_example =
    connect-returns willing willing-IsWilling cluster 0 0 70000 cluster-IsUsable refl refl

connected : (connect willing cluster (construct 0 0 70000)).1 ≡ done
connected = connect-returns willing willing-IsWilling cluster 0 0 70000 cluster-IsUsable refl refl

connect-IsReady_example :
    IsReady ((connect willing cluster (construct 0 0 70000)).0)
    × (((connect willing cluster (construct 0 0 70000)).0).pm_list
        ≡ map (λ pm. pm % 2 ^ 16) (one_to cluster.pm_count))
    × (((connect willing cluster (construct 0 0 70000)).0).transaction_closed ≡ false)
    × (((connect willing cluster (construct 0 0 70000)).0).auto_rollback ≡ true)
connect-IsReady_example = connect-IsReady willing cluster 0 0 70000 connected

connect-single_pm_example :
    connect willing cluster (construct 1 2 70000) ≡ (construct 1 2 70000, raised Error.no_db_roots)
connect-single_pm_example = connect-single_pm willing cluster 2 70000

-- A configuration where the first node of the parent's name does not have the child.
abbrev leaf : List ℕ → List ℕ → XmlNode
leaf name text =
    XmlNode.node name [] (XmlNodes.cons (XmlNode.node (b't' ∷ []) text XmlNodes.nil) XmlNodes.nil)

abbrev configuration : XmlNode
configuration = XmlNode.node (b'C' ∷ []) [] (
    XmlNodes.cons
      (XmlNode.node (b'P' ∷ []) [] (XmlNodes.cons (leaf (b'X' ∷ []) (b'8' ∷ [])) XmlNodes.nil))
      (XmlNodes.cons
        (XmlNode.node (b'P' ∷ []) [] (XmlNodes.cons (leaf (b'Y' ∷ []) (b'2' ∷ [])) XmlNodes.nil))
        XmlNodes.nil))

get_xml_node-first_example :
    get_xml_node configuration (b'P' ∷ []) (b'Y' ∷ [])
    ≡ first_text (below (b'P' ∷ []) (b'Y' ∷ []) (children_of configuration))
get_xml_node-first_example = get_xml_node-first configuration (b'P' ∷ []) (b'Y' ∷ [])

abbrev table : Table
table = record {
  oid = 3000;
  schema = b't' ∷ [];
  table = b'x' ∷ [];
  columns = column DataType.int 4 ∷ [];
}

abbrev lock : TableLockInfo
lock = record {
  id = 12;
  table_oid = 3000;
  owner_name = [];
  owner_pid = 1;
  owner_session_id = 70000;
  owner_txn_id = 9;
  state = 0;
  creation_time = 0;
  dbroot_list = 1 ∷ [];
}

get_table-Found_example :
    Found
      (λ t. bytes_eq (b't' ∷ []) t.schema && bytes_eq (b'x' ∷ []) t.table)
      (table ∷ [])
      (get_table bytes_eq (table ∷ []) (b't' ∷ []) (b'x' ∷ []))
    × Found (λ c. bytes_eq (b'x' ∷ []) c.name) table.columns (get_column bytes_eq table (b'x' ∷ []))
    × Found (λ l. l.table_oid == table.oid) (lock ∷ []) (is_table_locked table (lock ∷ []))
get_table-Found_example =
    get_table-Found bytes_eq (table ∷ []) table (lock ∷ []) (b't' ∷ []) (b'x' ∷ [])

some_pm : 0 < length (pm_list cluster)
unfolding pm_list one_to
some_pm = omega arith

clear_table_lock-returns_example : (clear_table_lock willing cluster lock []).1 ≡ done
clear_table_lock-returns_example =
    clear_table_lock-returns willing willing-IsWilling lock cluster [] some_pm some_root refl

cleared : (clear_table_lock willing cluster lock []).1 ≡ done
cleared = clear_table_lock-returns willing willing-IsWilling lock cluster [] some_pm some_root refl

clear_table_lock-undoes_example :
    (clear_table_lock willing cluster lock []).0
    ≡ [] ++ clear_calls willing lock (pm_list cluster) []
clear_table_lock-undoes_example = clear_table_lock-undoes willing lock cluster [] cleared

-- Runs of the start of a driver.
path-install_dir : config_path (some (b'/' ∷ b'm' ∷ [])) ≡ b'/' ∷ b'm' ∷ etc_columnstore_xml
unfolding config_path
path-install_dir = refl

load_xml-other_root :
    load_xml (some (some (XmlNode.node (b'X' ∷ []) [] XmlNodes.nil)))
    ≡ Loaded.config_error ConfigError.not_columnstore
unfolding load_xml bytes_eq name_of
load_xml-other_root = refl

load_xml-columnstore :
    load_xml (some (some (XmlNode.node columnstore [] XmlNodes.nil)))
    ≡ Loaded.loaded (XmlNode.node columnstore [] XmlNodes.nil)
unfolding load_xml bytes_eq name_of
load_xml-columnstore = refl
