-- ===== src/Commands/Catalog.antt =====
-- The reply of brmGetSystemCatalog, of src/util_commands.cpp, as the server lays it out.
use mariadb_columnstore_api.Prelude.{
  ℕ, ◌≤◌, ◌≡◌, refl, ap, List, [], ◌∷◌, ◌++◌, length, All, All-map, get_elem?-beyond, none, some,
}
use mariadb_columnstore_api.Types.{Column, DataType}
use mariadb_columnstore_api.Messaging.Encode.{Item, encode_all}
use mariadb_columnstore_api.Messaging.Decode.{FitsType}
use mariadb_columnstore_api.Commands.Reader.{Result, ServerText, read_many}
use mariadb_columnstore_api.Commands.Gives.{Gives, Gave, Stands, pure-Gives}
use mariadb_columnstore_api.Commands.Steps.{then_u8, then_u32, then_str, each, read_many-Gives}
use mariadb_columnstore_api.Commands.Controller.{end_with, delete_pure-Gives, expect_ok-Gives}
use mariadb_columnstore_api.Commands.Tables.{
  Table, enumerators, data_type_of, read_column, read_table, brm_get_system_catalog,
}
use mariadb_columnstore_api.Network.{Network}
use Item.{u8, u32, str}
use ServerText.{getting_system_catalog}

-- The number of an enumerator.
unfoldable pub code_of : DataType → ℕ
code_of DataType.bit = 0
code_of DataType.tinyint = 1
code_of DataType.char = 2
code_of DataType.smallint = 3
code_of DataType.decimal = 4
code_of DataType.medint = 5
code_of DataType.int = 6
code_of DataType.float = 7
code_of DataType.date = 8
code_of DataType.bigint = 9
code_of DataType.double = 10
code_of DataType.datetime = 11
code_of DataType.varchar = 12
code_of DataType.varbinary = 13
code_of DataType.clob = 14
code_of DataType.blob = 15
code_of DataType.utinyint = 16
code_of DataType.usmallint = 17
code_of DataType.udecimal = 18
code_of DataType.umedint = 19
code_of DataType.uint = 20
code_of DataType.ufloat = 21
code_of DataType.ubigint = 22
code_of DataType.udouble = 23
code_of DataType.text = 24
code_of DataType.time = 25
code_of (DataType.unknown n) = n

-- A type that a byte of the wire is cast to: a number that no enumerator has is none of theirs.
unfoldable pub IsCast : DataType → Type 0
IsCast (DataType.unknown n) = 26 ≤ n
IsCast _ = Unit

-- The cast gives back the enumerator of a number.
data_type_of-code_of : (k : DataType) → IsCast k → data_type_of (code_of k) ≡ k
unfolding data_type_of code_of IsCast
data_type_of-code_of DataType.bit h = refl
data_type_of-code_of DataType.tinyint h = refl
data_type_of-code_of DataType.char h = refl
data_type_of-code_of DataType.smallint h = refl
data_type_of-code_of DataType.decimal h = refl
data_type_of-code_of DataType.medint h = refl
data_type_of-code_of DataType.int h = refl
data_type_of-code_of DataType.float h = refl
data_type_of-code_of DataType.date h = refl
data_type_of-code_of DataType.bigint h = refl
data_type_of-code_of DataType.double h = refl
data_type_of-code_of DataType.datetime h = refl
data_type_of-code_of DataType.varchar h = refl
data_type_of-code_of DataType.varbinary h = refl
data_type_of-code_of DataType.clob h = refl
data_type_of-code_of DataType.blob h = refl
data_type_of-code_of DataType.utinyint h = refl
data_type_of-code_of DataType.usmallint h = refl
data_type_of-code_of DataType.udecimal h = refl
data_type_of-code_of DataType.umedint h = refl
data_type_of-code_of DataType.uint h = refl
data_type_of-code_of DataType.ufloat h = refl
data_type_of-code_of DataType.ubigint h = refl
data_type_of-code_of DataType.udouble h = refl
data_type_of-code_of DataType.text h = refl
data_type_of-code_of DataType.time h = refl
data_type_of-code_of (DataType.unknown n) h =
    ap (λ o. elim o as (λ _. DataType) [ none ↦ DataType.unknown n | some t ↦ t ])
      (get_elem?-beyond enumerators n h)

unfoldable pub column_items : Column → List Item
unfolding code_of
column_items c =
    u32 c.oid
    ∷ str c.name
    ∷ u32 c.dict_oid
    ∷ u8 (code_of c.kind)
    ∷ u32 c.width
    ∷ u32 c.position
    ∷ str c.default_val
    ∷ u8 c.autoincrement
    ∷ u32 c.precision
    ∷ u32 c.scale
    ∷ u8 c.nullable
    ∷ u8 c.compression
    ∷ []

unfoldable pub table_items : Table → List Item
unfolding each column_items
table_items t =
    u32 t.oid ∷ str t.schema ∷ str t.table ∷ u32 (length t.columns) ∷ each column_items t.columns

-- A column whose values fit the wire.
pub record IsColumn (c : Column) : Type 0 where
  pub is_cast : IsCast c.kind
  pub fits : All FitsType (column_items c)

-- A table whose values fit the wire.
pub record IsTable (t : Table) : Type 0 where
  pub oid_fits : FitsType (u32 t.oid)
  pub schema_fits : FitsType (str t.schema)
  pub table_fits : FitsType (str t.table)
  pub count_fits : FitsType (u32 (length t.columns))
  pub columns_fit : All IsColumn t.columns

read_column-Gives : (c : Column) → IsColumn c → Gives read_column (column_items c) (Result.ok c)
unfolding read_column column_items
read_column-Gives c h =
    let (f1, (f2, (f3, (f4, (f5, (f6, (f7, (f8, (f9, (f10, (f11, (f12, f13)))))))))))) = h.fits in
    then_u32 c.oid _ f1 (
      then_str c.name _ f2 (
        then_u32 c.dict_oid _ f3 (
          then_u8 (code_of c.kind) _ f4 (
            then_u32 c.width _ f5 (
              then_u32 c.position _ f6 (
                then_str c.default_val _ f7 (
                  then_u8 c.autoincrement _ f8 (
                    then_u32 c.precision _ f9 (
                      then_u32 c.scale _ f10 (
                        then_u8 c.nullable _ f11 (
                          then_u8 c.compression _ f12
                            (rw (data_type_of-code_of c.kind h.is_cast) (pure-Gives c)))))))))))))

read_table-Gives : (t : Table) → IsTable t → Gives read_table (table_items t) (Result.ok t)
unfolding read_table table_items
read_table-Gives t h = then_u32 t.oid _ h.oid_fits (
    then_str t.schema _ h.schema_fits (
      then_str t.table _ h.table_fits (
        then_u32 (length t.columns) _ h.count_fits (
          end_with (read_many read_column (length t.columns)) _ (each column_items t.columns)
            t.columns (Result.ok t)
            (read_many-Gives read_column column_items t.columns
              (All-map read_column-Gives t.columns h.columns_fit))
            (pure-Gives t)))))

-- The reply that carries the tables.
unfoldable pub catalog_items : List Table → List Item
unfolding each table_items
catalog_items tables = u8 0 ∷ u32 (length tables) ∷ each table_items tables

-- A reply of brmGetSystemCatalog that carries tables and their columns, all within the types of the
-- wire and with a type that is an enumerator or a number of none, is read as these tables, whatever
-- precedes and follows the reply in the message; the status of the connection is kept.
pub brm_get_system_catalog-Gave :
    (tables : List Table)
    → All IsTable tables
    → FitsType (u32 (length tables))
    → (n : Network) (front rest junk : List ℕ)
    → Stands n.message_out front (encode_all (catalog_items tables) ++ rest) junk
    → Gave brm_get_system_catalog.reply n front rest junk (catalog_items tables) (Result.ok tables)
unfolding brm_get_system_catalog catalog_items
brm_get_system_catalog-Gave tables fit count n front rest junk h =
    expect_ok-Gives getting_system_catalog _ _ _
      (then_u32 (length tables) _ count (
        end_with (read_many read_table (length tables)) _ (each table_items tables) tables
          (Result.ok tables)
          (read_many-Gives read_table table_items tables (All-map read_table-Gives tables fit))
          (delete_pure-Gives tables)))
      n front rest junk h
