-- ===== src/Bulk/Rows.antt =====
-- ColumnStoreRowData of src/util_structures.h: the cells of a row by column number, each number at
-- most once.
use mariadb_columnstore_api.Prelude.{ℕ, ◌==◌, List, [], ◌∷◌, if◌then◌else◌, Option, none, some}
use mariadb_columnstore_api.Types.{Container, fresh}

abbrev pub Row : Type 0
Row = List (ℕ × Container)

-- `row.find(n)`
unfoldable pub find : Row → ℕ → Option Container
find [] n = none
find ((m, c) ∷ row) n = let rest = find row n in if m == n then some c else rest

-- `row[n]`, which puts a new cell there when there is none.
unfoldable pub cell_at : Row → ℕ → Container
unfolding find
cell_at row n = elim (find row n) [ none ↦ fresh | some c ↦ c ]

-- A write through the reference that `row[n]` is.
unfoldable pub set_cell : Row → ℕ → Container → Row
set_cell [] n c = (n, c) ∷ []
set_cell ((m, d) ∷ row) n c =
    let rest = set_cell row n c in if m == n then (n, c) ∷ row else (m, d) ∷ rest
