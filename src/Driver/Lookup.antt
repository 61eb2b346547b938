-- ===== src/Driver/Lookup.antt =====
-- getTable and getColumn of the system catalogue, of src/mcsapi_types.cpp, and isTableLocked of
-- src/mcsapi_driver.cpp. `iequals` is the comparison of Boost; `none` is ColumnStoreNotFound.
use mariadb_columnstore_api.Prelude.{
  ℕ, ◌≡◌, refl, ap, List, [], ◌∷◌, ◌++◌, Bool, true, false, ◌&&◌, Option, none, some, leb, ◌==◌,
  if◌then◌else◌, length, get_elem?, All, Bool-cases, inl, inr,
}
use mariadb_columnstore_api.Types.{Column}
use mariadb_columnstore_api.Commands.Tables.{Table, TableLockInfo}

-- A loop that stops at the first element that passes a test.
unfoldable pub first : {A : Type 0} → (A → Bool) → List A → Option A
first test [] = none
first test (a ∷ as') = let rest = first test as' in if test a then some a else rest

-- getTable
unfoldable pub get_table : (List ℕ → List ℕ → Bool) → List Table → List ℕ → List ℕ → Option Table
unfolding first
get_table iequals tables schema_name table_name =
    first (λ t. iequals schema_name t.schema && iequals table_name t.table) tables

-- getColumn by name.
unfoldable pub get_column : (List ℕ → List ℕ → Bool) → Table → List ℕ → Option Column
unfolding first
get_column iequals t column_name = first (λ c. iequals column_name c.name) t.columns

-- getColumn by number.
unfoldable pub get_column_at : Table → ℕ → Option Column
get_column_at t n = if leb (length t.columns) n then none else get_elem? t.columns n

-- isTableLocked behind getTable and listTableLocks.
unfoldable pub is_table_locked : Table → List TableLockInfo → Option TableLockInfo
unfolding first
is_table_locked t locks = first (λ l. l.table_oid == t.oid) locks

-- What such a loop finds: the first element that passes, or that none does.
pub data Found {A : Type 0} (test : A → Bool) (as' : List A) : Option A → Type 0 where
  missing : All (λ a. test a ≡ false) as' → Found test as' none
  present :
      (before : List A) (a : A) (behind : List A)
      → as' ≡ before ++ (a ∷ behind)
      → All (λ b. test b ≡ false) before
      → test a ≡ true
      → Found test as' (some a)

first-Found : {A : Type 0} (test : A → Bool) (as' : List A) → Found test as' (first test as')
unfolding first
first-Found test [] = Found.missing tt
first-Found {A = A} test (a ∷ as') = elim (Bool-cases (test a)) [
  | inl yes' ↦ rw yes' (Found.present [] a as' refl tt yes')
  | inr no' ↦ rw no' (later (first test as') (first-Found test as') no')
]
  where
    later : (o : Option A) → Found test as' o → test a ≡ false → Found test (a ∷ as') o
    later none (Found.missing h) e = Found.missing (e, h)
    later (some c) (Found.present before _ behind is h t) e =
        Found.present (a ∷ before) c behind (ap (◌∷◌ a) is) (e, h) t

-- getTable gives the first table whose schema and name both compare equal, with no such table before
-- it, and throws exactly when the catalogue has none; getColumn by name and isTableLocked find the
-- first column of the name and the first lock of the table in the same way.
pub get_table-Found :
    (iequals : List ℕ → List ℕ → Bool) (tables : List Table) (t : Table)
    (locks : List TableLockInfo) (schema_name name : List ℕ)
    → Found
        (λ t. iequals schema_name t.schema && iequals name t.table)
        tables
        (get_table iequals tables schema_name name)
      × Found (λ c. iequals name c.name) t.columns (get_column iequals t name)
      × Found (λ l. l.table_oid == t.oid) locks (is_table_locked t locks)
unfolding get_table get_column is_table_locked
get_table-Found iequals tables t locks schema_name name =
    (first-Found _ tables, first-Found _ t.columns, first-Found _ locks)
