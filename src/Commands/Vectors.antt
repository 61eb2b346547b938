-- ===== src/Commands/Vectors.antt =====
-- The vectors of the requests of src/util_commands.cpp are read back.
use mariadb_columnstore_api.Prelude.{
  ℕ, zero, suc, ◌≡◌, refl, sym, ap, ◌∙◌, List, [], ◌∷◌, ◌++◌, Bool, true, false, not, ◌==◌,
  if◌then◌else◌, length, Option, some,
}
use mathlib.Core.List.{append_assoc, append-nil, map}
use mariadb_columnstore_api.Types.{Container, Payload}
use mariadb_columnstore_api.Messaging.Encode.{Item}
use mariadb_columnstore_api.Bulk.Rows.{Row, cell_at}
use mariadb_columnstore_api.Bulk.Calls.{Hwm}
use mariadb_columnstore_api.Commands.Brm.{u32_items, u64_items, hwm_items, extent_items}
use mariadb_columnstore_api.Commands.WriteEngine.{
  column_items, payload_item, cell_items, rows_items, data_items,
}
use mariadb_columnstore_api.Commands.Protocol.{
  Parser, with_part, many, part_u32, part_u64, part_hwm, part_extent, part_column, payload_of,
  part_cell, ended,
}
use Item.{u32, u64}

-- A vector whose elements are read one by one is read, whatever follows.
abbrev pub Reads : {A : Type 0} → Parser A → List Item → A → Type 0
Reads p is a = (rest : List Item) → p (is ++ rest) ≡ some (a, rest)

nothing-Reads : {A : Type 0} (p : Parser A) → Reads (many p 0) [] []
unfolding many
nothing-Reads p rest = refl

one_more-Reads :
    {A : Type 0} (p : Parser A) (n : ℕ) (is js : List Item) (a : A) (as' : List A)
    → Reads p is a
    → Reads (many p n) js as'
    → Reads (many p (suc n)) (is ++ js) (a ∷ as')
unfolding many with_part
one_more-Reads p n is js a as' one more rest =
    rw (append_assoc is js rest, one (js ++ rest), more rest) refl

pub u32_items-Reads : (vs : List ℕ) → Reads (many part_u32 (length vs)) (u32_items vs) vs
unfolding u32_items part_u32
u32_items-Reads [] = nothing-Reads part_u32
u32_items-Reads (v ∷ vs) =
    one_more-Reads part_u32 _ (u32 v ∷ []) (u32_items vs) v vs (λ rest. refl) (u32_items-Reads vs)

pub u64_items-Reads : (vs : List ℕ) → Reads (many part_u64 (length vs)) (u64_items vs) vs
unfolding u64_items part_u64
u64_items-Reads [] = nothing-Reads part_u64
u64_items-Reads (v ∷ vs) =
    one_more-Reads part_u64 _ (u64 v ∷ []) (u64_items vs) v vs (λ rest. refl) (u64_items-Reads vs)

pub hwm_items-Reads : (hs : List Hwm) → Reads (many part_hwm (length hs)) (hwm_items hs) hs
unfolding hwm_items part_hwm
hwm_items-Reads [] = nothing-Reads part_hwm
hwm_items-Reads (h ∷ hs) =
    one_more-Reads part_hwm _ (u32 h.oid ∷ u32 h.part_num ∷ u32 h.seg_num ∷ u32 h.hwm ∷ [])
      (hwm_items hs) h hs (λ rest. refl) (hwm_items-Reads hs)

pub extent_items-Reads : (vs : List ℕ) → Reads (many part_extent (length vs)) (extent_items vs) vs
unfolding extent_items part_extent
extent_items-Reads [] = nothing-Reads part_extent
extent_items-Reads (v ∷ vs) =
    one_more-Reads part_extent _
      (u64 v ∷ u64 0x8000000000000000 ∷ u64 0x7FFFFFFFFFFFFFFF ∷ u64 0xFFFFFFFFFFFFFFFF ∷ [])
      (extent_items vs) v vs (λ rest. refl) (extent_items-Reads vs)

pub column_items-Reads :
    (cs : List (ℕ × List ℕ)) → Reads (many part_column (length cs)) (column_items cs) cs
unfolding column_items part_column
column_items-Reads [] = nothing-Reads part_column
column_items-Reads ((oid, name) ∷ cs) =
    one_more-Reads part_column _ (u32 oid ∷ Item.str name ∷ []) (column_items cs) (oid, name) cs
      (λ rest. refl) (column_items-Reads cs)

-- The cells of one column, and those of `count` columns from the `n`-th on.
unfoldable pub cell_of : Container → Bool × Payload
cell_of c = (c.is_null, c.payload)

unfoldable pub column_cells : ℕ → List Row → List (Bool × Payload)
unfolding cell_of cell_at
column_cells n rows = map (λ row. cell_of (cell_at row n)) rows

unfoldable pub table_cells : ℕ → ℕ → List Row → List (List (Bool × Payload))
unfolding column_cells
table_cells n zero rows = []
table_cells n (suc count) rows = column_cells n rows ∷ table_cells (suc n) count rows

payload_of-payload_item : (p : Payload) → payload_of (payload_item p) ≡ p
unfolding payload_of payload_item
payload_of-payload_item (Payload.byte v) = refl
payload_of-payload_item (Payload.duobyte v) = refl
payload_of-payload_item (Payload.quadbyte v) = refl
payload_of-payload_item (Payload.octbyte v) = refl
payload_of-payload_item (Payload.varbyte s) = refl

null_byte : (b : Bool) → not ((if b then 1 else 0) == 0) ≡ b
null_byte true = refl
null_byte false = refl

cell_items-Reads : (c : Container) → Reads part_cell (cell_items c) (cell_of c)
unfolding cell_items part_cell cell_of
cell_items-Reads c rest = rw (null_byte c.is_null, payload_of-payload_item c.payload) refl

rows_items-Reads :
    (n : ℕ) (rows : List Row)
    → Reads (many part_cell (length rows)) (rows_items n rows) (column_cells n rows)
unfolding rows_items column_cells
rows_items-Reads n [] = nothing-Reads part_cell
rows_items-Reads n (row ∷ rows) =
    one_more-Reads part_cell _ (cell_items (cell_at row n)) (rows_items n rows)
      (cell_of (cell_at row n)) (column_cells n rows) (cell_items-Reads (cell_at row n))
      (rows_items-Reads n rows)

pub data_items-Reads :
    (n count : ℕ) (rows : List Row)
    → Reads
        (many (many part_cell (length rows)) count)
        (data_items n count rows)
        (table_cells n count rows)
unfolding data_items table_cells
data_items-Reads n zero rows = nothing-Reads (many part_cell (length rows))
data_items-Reads n (suc count) rows =
    one_more-Reads (many part_cell (length rows)) count (rows_items n rows)
      (data_items (suc n) count rows) (column_cells n rows) (table_cells (suc n) count rows)
      (rows_items-Reads n rows) (data_items-Reads (suc n) count rows)

-- A vector with what is read behind it, and one at the end of a request.
pub with_part-Reads :
    {A B : Type 0} (p : Parser A) (is rest : List Item) (a : A) (f : A → List Item → Option B)
    → Reads p is a
    → with_part (p (is ++ rest)) f ≡ f a rest
unfolding with_part
with_part-Reads p is rest a f h = ap (λ o. with_part o f) (h rest)

pub with_part-ended :
    {A B : Type 0} (p : Parser A) (is : List Item) (a : A) (f : A → B)
    → Reads p is a
    → with_part (p is) (λ b. ended (f b)) ≡ some (f a)
unfolding ended
with_part-ended p is a f h =
    ap (λ js. with_part (p js) (λ b. ended (f b))) (sym (append-nil is))
    ∙ with_part-Reads p is [] a (λ b. ended (f b)) h
