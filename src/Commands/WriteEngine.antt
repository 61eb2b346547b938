-- ===== src/Commands/WriteEngine.antt =====
-- The commands to the write engine of a PM, of src/util_commands.cpp.
use mariadb_columnstore_api.Prelude.{
  ℕ, zero, suc, List, [], ◌∷◌, ◌++◌, Bool, ◌&&◌, if◌then◌else◌, ◌==◌, ltb, length,
}
use mariadb_columnstore_api.Types.{Payload, Container}
use mariadb_columnstore_api.Messaging.Encode.{Item}
use mariadb_columnstore_api.Bulk.Rows.{Row, cell_at}
use mariadb_columnstore_api.Bulk.Calls.{Hwm}
use mariadb_columnstore_api.Commands.Reader.{
  Reader, Command, ServerText, pure, ◌>>=◌, ◌>>◌, and_do, read_word, read_u8, read_u32, read_u64,
  read_str, read_many, delete_message, refuse, unless_zero,
}
use Item.{u8, u16, u32, u64, str}
use ServerText.{said, setting_keep_alive}

-- An error text that is read from the message when it is thrown.
unfoldable pub refuse_with_text : Reader Unit
unfolding and_do read_str refuse
refuse_with_text = do errmsg ← read_str; refuse (said errmsg)

-- The start of the replies with an error text, which is thrown.
unfoldable pub expect_text : Reader Unit
unfolding and_do read_word read_str unless_zero refuse
expect_text = do
  unique_id ← read_u64
  response ← read_u8
  errmsg ← read_str
  unless_zero response (refuse (said errmsg))

-- The replies with an error text where it is a second one, read behind it, that is thrown.
unfoldable pub expect_second_text : Reader Unit
unfolding and_do read_word read_str unless_zero refuse_with_text
expect_second_text = do
  unique_id ← read_u64
  response ← read_u8
  errmsg ← read_str
  unless_zero response refuse_with_text
  delete_message

-- weBulkRollback: the text is read in case of an error only.
unfoldable pub we_bulk_rollback : ℕ → ℕ → ℕ → ℕ → Command Unit
unfolding and_do read_word unless_zero refuse_with_text
we_bulk_rollback unique_id session_id table_lock_id table_oid = record {
  request = u8 0x1E ∷ u64 unique_id ∷ u32 session_id ∷ u64 table_lock_id ∷ u32 table_oid ∷ [];
  reply = do
    unique_id' ← read_u64
    response ← read_u8
    unless_zero response refuse_with_text
    delete_message;
}

-- Two high water marks of one segment.
unfoldable pub same_segment : Hwm → Hwm → Bool
same_segment h k = (h.oid == k.oid) && (h.part_num == k.part_num) && (h.seg_num == k.seg_num)

-- The de-duplication: the first mark of the segment is raised, and without one the mark is put at
-- the end.
unfoldable pub add_hwm : List Hwm → Hwm → List Hwm
unfolding same_segment
add_hwm [] k = k ∷ []
add_hwm (h ∷ hs) k =
    let rest = add_hwm hs k in
    if same_segment h k
    then (if ltb h.hwm k.hwm then record h { hwm = k.hwm } ∷ hs else h ∷ hs)
    else h ∷ rest

unfoldable pub add_hwms : List Hwm → List Hwm → List Hwm
unfolding add_hwm
add_hwms hwms [] = hwms
add_hwms hwms (k ∷ ks) = add_hwms (add_hwm hwms k) ks

-- One mark of the reply.
unfoldable pub read_hwm : Reader Hwm
unfolding and_do read_word
read_hwm = do
  oid ← read_u32
  part_num ← read_u32
  seg_num ← read_u32
  hwm ← read_u32
  pure record { oid = oid; part_num = part_num; seg_num = seg_num; hwm = hwm }

-- The loop of weBulkCommit.
unfoldable pub read_hwms : List Hwm → ℕ → Reader (List Hwm)
unfolding and_do read_hwm add_hwm
read_hwms hwms zero = pure hwms
read_hwms hwms (suc count) = do k ← read_hwm; read_hwms (add_hwm hwms k) count

-- weBulkCommit, with the marks collected so far.
unfoldable pub we_bulk_commit : ℕ → ℕ → ℕ → ℕ → List Hwm → Command (List Hwm)
unfolding and_do expect_text read_word read_hwms
we_bulk_commit unique_id session_id txn_id table_oid hwms = record {
  request = u8 0x1D ∷ u64 unique_id ∷ u32 txn_id ∷ u32 table_oid ∷ u32 session_id ∷ [];
  reply = do
    expect_text
    count ← read_u64
    hwms' ← read_hwms hwms count
    delete_message
    pure hwms';
}

-- weGetWrittenLbids: the blocks go behind those that the vector holds.
unfoldable pub we_get_written_lbids : ℕ → ℕ → List ℕ → Command (List ℕ)
unfolding and_do expect_text read_word read_many
we_get_written_lbids unique_id txn_id lbids = record {
  request = u8 0x38 ∷ u64 unique_id ∷ u32 txn_id ∷ [];
  reply = do
    expect_text
    count ← read_u64
    more ← read_many read_u64 count
    delete_message
    pure (lbids ++ more);
}

-- weKeepAlive: a good answer is one, and twelve bytes behind it are ignored.
unfoldable pub we_keep_alive : Command Unit
unfolding and_do read_word refuse
we_keep_alive = record {
  request = u8 0x02 ∷ u64 1 ∷ [];
  reply = do
    response ← read_u8
    junk1 ← read_u32
    junk2 ← read_u64
    if response == 1 then delete_message else refuse setting_keep_alive;
}

-- ColumnStoreTableData without its rows.
pub record TableName : Type 0 where
  pub table_name : List ℕ
  pub table_schema : List ℕ
  pub columns : List (ℕ × List ℕ)

unfoldable pub column_items : List (ℕ × List ℕ) → List Item
column_items [] = []
column_items ((oid, name) ∷ columns) = u32 oid ∷ str name ∷ column_items columns

-- A cell: whether it is null, and the member that its tag selects.
unfoldable pub payload_item : Payload → Item
payload_item (Payload.byte v) = u8 v
payload_item (Payload.duobyte v) = u16 v
payload_item (Payload.quadbyte v) = u32 v
payload_item (Payload.octbyte v) = u64 v
payload_item (Payload.varbyte s) = str s

unfoldable pub cell_items : Container → List Item
unfolding payload_item
cell_items c = u8 (if c.is_null then 1 else 0) ∷ payload_item c.payload ∷ []

-- The loop over the rows of one column.
unfoldable pub rows_items : ℕ → List Row → List Item
unfolding cell_items cell_at
rows_items n [] = []
rows_items n (row ∷ rows) = cell_items (cell_at row n) ++ rows_items n rows

-- The loop over the columns from the `n`-th on.
unfoldable pub data_items : ℕ → ℕ → List Row → List Item
unfolding rows_items
data_items n zero rows = []
data_items n (suc count) rows = rows_items n rows ++ data_items (suc n) count rows

-- weBulkInsert
unfoldable pub we_bulk_insert : ℕ → ℕ → ℕ → ℕ → TableName → List Row → Command Unit
unfolding and_do expect_text column_items data_items
we_bulk_insert pm unique_id session_id txn_id table rows = record {
  request =
      (u8 0x37
        ∷ u64 unique_id
        ∷ u32 txn_id
        ∷ u32 pm
        ∷ u32 session_id
        ∷ u8 1
        ∷ u8 1
        ∷ str table.table_name
        ∷ str table.table_schema
        ∷ u32 (length table.columns)
        ∷ column_items table.columns)
      ++ (u32 (length rows) ∷ data_items 0 (length table.columns) rows);
  reply = expect_text >> delete_message;
}

-- weBulkInsertEnd
unfoldable pub we_bulk_insert_end : ℕ → ℕ → ℕ → ℕ → Command Unit
unfolding expect_second_text
we_bulk_insert_end unique_id txn_id table_oid err_code = record {
  request = u8 0x1C ∷ u64 unique_id ∷ u32 txn_id ∷ u8 1 ∷ u32 table_oid ∷ u8 err_code ∷ [];
  reply = expect_second_text;
}

-- weRollbackBlocks
unfoldable pub we_rollback_blocks : ℕ → ℕ → ℕ → Command Unit
unfolding expect_second_text
we_rollback_blocks unique_id session_id txn_id = record {
  request = u8 0x08 ∷ u64 unique_id ∷ u32 session_id ∷ u32 txn_id ∷ [];
  reply = expect_second_text;
}

-- weRemoveMeta
unfoldable pub we_remove_meta : ℕ → ℕ → Command Unit
unfolding expect_second_text
we_remove_meta unique_id table_oid = record {
  request = u8 0x21 ∷ u64 unique_id ∷ u32 table_oid ∷ [];
  reply = expect_second_text;
}

-- The message of weClose, which has no reply.
abbrev pub we_close : List Item
we_close = u8 0x30 ∷ []
