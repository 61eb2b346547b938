-- ===== src/Driver/Config.antt =====
-- The configuration file: getXMLNode and what reads it, of src/mcsapi_driver.cpp. The tree is the one
-- that libxml2 builds; a node that is text has it as its content.
use mariadb_columnstore_api.Prelude.{
  ℕ, zero, suc, ◌%◌, ◌^◌, List, [], ◌∷◌, ◌++◌, Option, none, some, if◌then◌else◌, take,
}
use mariadb_columnstore_api.Prelude.Digits.{to_string}
use mariadb_columnstore_api.Messaging.Bytes.{bytes_eq}
use mariadb_columnstore_api.Std.Scan.{strtoul}

mutual
  -- An `xmlNode`: its name, its content and its children.
  pub data XmlNode : Type 0 where
    node : List ℕ → List ℕ → XmlNodes → XmlNode

  pub data XmlNodes : Type 0 where
    nil : XmlNodes
    cons : XmlNode → XmlNodes → XmlNodes

unfoldable pub name_of : XmlNode → List ℕ
name_of (node name content children) = name

unfoldable pub content_of : XmlNode → List ℕ
content_of (node name content children) = content

unfoldable pub children_of : XmlNode → XmlNodes
children_of (node name content children) = children

-- The content of the first child; `none` is NULL.
unfoldable pub first_content : XmlNodes → Option (List ℕ)
unfolding content_of
first_content nil = none
first_content (cons n ns) = some (content_of n)

-- The inner loop of getXMLNode: `none` says that no child has the name and the outer loop goes on.
unfoldable pub find_child : XmlNodes → List ℕ → Option (Option (List ℕ))
unfolding name_of children_of first_content bytes_eq
find_child nil name = none
find_child (cons n ns) name =
    let rest = find_child ns name in
    if bytes_eq (name_of n) name then some (first_content (children_of n)) else rest

-- What the inner loop finds, or the rest of the outer loop.
unfoldable pub or_next : Option (Option (List ℕ)) → Option (List ℕ) → Option (List ℕ)
or_next none rest = rest
or_next (some found) rest = found

-- The outer loop.
unfoldable pub find_below : XmlNodes → List ℕ → List ℕ → Option (List ℕ)
unfolding name_of children_of find_child or_next bytes_eq
find_below nil parent name = none
find_below (cons n ns) parent name =
    let rest = find_below ns parent name in
    if bytes_eq (name_of n) parent then or_next (find_child (children_of n) name) rest else rest

-- getXMLNode
unfoldable pub get_xml_node : XmlNode → List ℕ → List ℕ → Option (List ℕ)
unfolding find_below children_of
get_xml_node root parent name = find_below (children_of root) parent name

-- `strtoul(text, NULL, 10)` in `uint32_t`; there is no number for NULL, which `strtoul` may not be
-- given.
unfoldable pub to_u32 : Option (List ℕ) → Option ℕ
unfolding strtoul
to_u32 none = none
to_u32 (some text) = some (strtoul text % 2 ^ 32)

abbrev primitive_servers : List ℕ
primitive_servers =
    b'P' ∷ b'r' ∷ b'i' ∷ b'm' ∷ b'i' ∷ b't' ∷ b'i' ∷ b'v' ∷ b'e' ∷ b'S' ∷ b'e' ∷ b'r' ∷ b'v' ∷ b'e'
    ∷ b'r' ∷ b's' ∷ []

abbrev count : List ℕ
count = b'C' ∷ b'o' ∷ b'u' ∷ b'n' ∷ b't' ∷ []

abbrev system_config : List ℕ
system_config =
    b'S' ∷ b'y' ∷ b's' ∷ b't' ∷ b'e' ∷ b'm' ∷ b'C' ∷ b'o' ∷ b'n' ∷ b'f' ∷ b'i' ∷ b'g' ∷ []

abbrev db_root_count : List ℕ
db_root_count = b'D' ∷ b'B' ∷ b'R' ∷ b'o' ∷ b'o' ∷ b't' ∷ b'C' ∷ b'o' ∷ b'u' ∷ b'n' ∷ b't' ∷ []

abbrev system_module_config : List ℕ
system_module_config =
    b'S' ∷ b'y' ∷ b's' ∷ b't' ∷ b'e' ∷ b'm' ∷ b'M' ∷ b'o' ∷ b'd' ∷ b'u' ∷ b'l' ∷ b'e' ∷ b'C' ∷ b'o'
    ∷ b'n' ∷ b'f' ∷ b'i' ∷ b'g' ∷ []

abbrev module_db_root_count : List ℕ
module_db_root_count =
    b'M' ∷ b'o' ∷ b'd' ∷ b'u' ∷ b'l' ∷ b'e' ∷ b'D' ∷ b'B' ∷ b'R' ∷ b'o' ∷ b'o' ∷ b't' ∷ b'C' ∷ b'o'
    ∷ b'u' ∷ b'n' ∷ b't' ∷ []

abbrev module_db_root_id : List ℕ
module_db_root_id =
    b'M' ∷ b'o' ∷ b'd' ∷ b'u' ∷ b'l' ∷ b'e' ∷ b'D' ∷ b'B' ∷ b'R' ∷ b'o' ∷ b'o' ∷ b't' ∷ b'I' ∷ b'D'
    ∷ []

-- getPMCount
unfoldable pub get_pm_count : XmlNode → Option ℕ
unfolding get_xml_node to_u32
get_pm_count root = to_u32 (get_xml_node root primitive_servers count)

-- getDBRootCount
unfoldable pub get_db_root_count : XmlNode → Option ℕ
unfolding get_xml_node to_u32
get_db_root_count root = to_u32 (get_xml_node root system_config db_root_count)

-- The names that `snprintf` writes into 32 bytes.
unfoldable pub count_name : ℕ → List ℕ
unfolding to_string
count_name pm = take 31 (module_db_root_count ++ to_string pm ++ (b'-' ∷ b'3' ∷ []))

unfoldable pub id_name : ℕ → ℕ → List ℕ
unfolding to_string
id_name pm k =
    take 31 (module_db_root_id ++ to_string pm ++ (b'-' ∷ to_string k) ++ (b'-' ∷ b'3' ∷ []))

-- One more DBRoot behind those that were read.
unfoldable pub push_back : Option (List ℕ) → Option ℕ → Option (List ℕ)
push_back none r = none
push_back (some rs) none = none
push_back (some rs) (some r) = some (rs ++ (r ∷ []))

-- The loop of getDBRootsForPM over the first `n` DBRoots.
unfoldable pub read_db_roots : XmlNode → ℕ → ℕ → Option (List ℕ)
unfolding get_xml_node to_u32 id_name push_back
read_db_roots root pm zero = some []
read_db_roots root pm (suc n) =
    push_back (read_db_roots root pm n)
      (to_u32 (get_xml_node root system_module_config (id_name pm (suc n))))

-- getDBRootsForPM
unfoldable pub get_db_roots_for_pm : XmlNode → ℕ → Option (List ℕ)
unfolding get_xml_node to_u32 count_name read_db_roots
get_db_roots_for_pm root pm =
    elim (to_u32 (get_xml_node root system_module_config (count_name pm))) [
      | none ↦ none
      | some n ↦ read_db_roots root pm n
    ]
