-- ===== src/Driver/Starting.antt =====
-- The start of a driver and its cache of the system catalogue, of src/mcsapi_driver.cpp. What libxml2
-- makes of the file, the environment and the answer of the controller are given.
use mariadb_columnstore_api.Prelude.{ℕ, List, [], ◌∷◌, ◌++◌, Option, none, some, if◌then◌else◌}
use mariadb_columnstore_api.Messaging.Bytes.{bytes_eq}
use mariadb_columnstore_api.Driver.Config.{XmlNode, name_of}
use mariadb_columnstore_api.Commands.Reader.{Result, Command}
use mariadb_columnstore_api.Commands.Tables.{Table, TableLockInfo, brm_get_all_table_locks}

-- "/etc/Columnstore.xml" and "/usr/local/mariadb/columnstore/etc/Columnstore.xml"
abbrev pub etc_columnstore_xml : List ℕ
etc_columnstore_xml =
    b'/' ∷ b'e' ∷ b't' ∷ b'c' ∷ b'/' ∷ b'C' ∷ b'o' ∷ b'l' ∷ b'u' ∷ b'm' ∷ b'n' ∷ b's' ∷ b't' ∷ b'o'
    ∷ b'r' ∷ b'e' ∷ b'.' ∷ b'x' ∷ b'm' ∷ b'l' ∷ []

abbrev default_path : List ℕ
default_path =
    (b'/' ∷ b'u' ∷ b's' ∷ b'r' ∷ b'/' ∷ b'l' ∷ b'o' ∷ b'c' ∷ b'a' ∷ b'l' ∷ b'/' ∷ b'm' ∷ b'a' ∷ b'r'
      ∷ b'i' ∷ b'a' ∷ b'd' ∷ b'b' ∷ b'/' ∷ b'c' ∷ b'o' ∷ b'l' ∷ b'u' ∷ b'm' ∷ b'n' ∷ b's' ∷ b't'
      ∷ b'o' ∷ b'r' ∷ b'e' ∷ [])
    ++ etc_columnstore_xml

-- The path of the default constructor; the argument is what `getenv` gives.
unfoldable pub config_path : Option (List ℕ) → List ℕ
config_path none = default_path
config_path (some []) = default_path
config_path (some (c ∷ cs)) = (c ∷ cs) ++ etc_columnstore_xml

-- The ColumnStoreConfigErrors of loadXML.
pub data ConfigError : Type 0 where
  error_parsing no_root_node not_columnstore : ConfigError

pub data Loaded : Type 0 where
  loaded : XmlNode → Loaded
  config_error : ConfigError → Loaded

-- "Columnstore"
abbrev pub columnstore : List ℕ
columnstore = b'C' ∷ b'o' ∷ b'l' ∷ b'u' ∷ b'm' ∷ b'n' ∷ b's' ∷ b't' ∷ b'o' ∷ b'r' ∷ b'e' ∷ []

-- loadXML: the argument is the document, where the file could be parsed, with its root, where it has
-- one.
unfoldable pub load_xml : Option (Option XmlNode) → Loaded
unfolding bytes_eq name_of
load_xml none = Loaded.config_error ConfigError.error_parsing
load_xml (some none) = Loaded.config_error ConfigError.no_root_node
load_xml (some (some root)) =
    if bytes_eq (name_of root) columnstore
    then Loaded.loaded root
    else Loaded.config_error ConfigError.not_columnstore

-- getSystemCatalog: the catalogue that is kept, or else the one that brmGetSystemCatalog gives, which
-- is kept.
unfoldable pub get_system_catalog :
    Option (List Table) → Result (List Table) → Option (List Table) × Result (List Table)
get_system_catalog (some tables) answer = (some tables, Result.ok tables)
get_system_catalog none (Result.ok tables) = (some tables, Result.ok tables)
get_system_catalog none (Result.failed e) = (none, Result.failed e)

-- listTableLocks
unfoldable pub list_table_locks : Command (List TableLockInfo)
unfolding brm_get_all_table_locks
list_table_locks = brm_get_all_table_locks []
