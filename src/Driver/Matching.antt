-- ===== src/Driver/Matching.antt =====
-- getXMLNode, of src/mcsapi_driver.cpp, finds the first node that has the names.
use mariadb_columnstore_api.Prelude.{
  ℕ, ◌≡◌, refl, ap, ◌∙◌, List, [], ◌∷◌, ◌++◌, true, false, Option, none, some, if◌then◌else◌,
}
use mariadb_columnstore_api.Messaging.Bytes.{bytes_eq}
use mariadb_columnstore_api.Driver.Config.{
  XmlNode, XmlNodes, name_of, children_of, first_content, find_child, or_next, find_below,
  get_xml_node,
}
use XmlNodes.{nil, cons}

-- The nodes of a list that have a name, in order.
unfoldable pub named : List ℕ → XmlNodes → List XmlNode
named name nil = []
named name (cons n ns) =
    let rest = named name ns in if bytes_eq (name_of n) name then n ∷ rest else rest

-- The children, by name, of the nodes that have the parent's name, in order.
unfoldable pub below : List ℕ → List ℕ → XmlNodes → List XmlNode
unfolding named
below parent name nil = []
below parent name (cons n ns) =
    let rest = below parent name ns in
    if bytes_eq (name_of n) parent then named name (children_of n) ++ rest else rest

-- The text of the first node of a list.
unfoldable pub first_text : List XmlNode → Option (List ℕ)
first_text [] = none
first_text (n ∷ ns) = first_content (children_of n)

or_next-named :
    (ns : XmlNodes) (name : List ℕ) (more : List XmlNode)
    → or_next (find_child ns name) (first_text more) ≡ first_text (named name ns ++ more)
unfolding or_next find_child named first_text
or_next-named nil name more = refl
or_next-named (cons n ns) name more =
    let rest = or_next-named ns name more in
    elim (bytes_eq (name_of n) name)
      as (λ b.
        or_next (if b then some (first_content (children_of n)) else find_child ns name)
          (first_text more)
        ≡ first_text ((if b then n ∷ named name ns else named name ns) ++ more)) [
          | true ↦ refl
          | false ↦ rest
        ]

find_below-below :
    (ns : XmlNodes) (parent name : List ℕ)
    → find_below ns parent name ≡ first_text (below parent name ns)
unfolding find_below below first_text
find_below-below nil parent name = refl
find_below-below (cons n ns) parent name =
    let rest = find_below-below ns parent name in
    elim (bytes_eq (name_of n) parent)
      as (λ b.
        (if b
          then or_next (find_child (children_of n) name) (find_below ns parent name)
          else find_below ns parent name)
        ≡ first_text (
            if b
            then named name (children_of n) ++ below parent name ns
            else below parent name ns)) [
              | true ↦
                  ap (or_next (find_child (children_of n) name)) rest
                  ∙ or_next-named (children_of n) name (below parent name ns)
              | false ↦ rest
            ]

-- getXMLNode gives the text of the first node, in the order of the file, that has the second name and
-- whose parent is a child of the root that has the first name: also where an earlier parent of that
-- name has no such child. It gives NULL where there is no such node or where the first one is empty.
pub get_xml_node-first :
    (root : XmlNode) (parent name : List ℕ)
    → get_xml_node root parent name ≡ first_text (below parent name (children_of root))
unfolding get_xml_node
get_xml_node-first root parent name = find_below-below (children_of root) parent name
