-- ===== src/Commands/Brm.antt =====
-- The commands to the DBRM controller and to the process monitor, of src/util_commands.cpp.
use mariadb_columnstore_api.Prelude.{ℕ, ◌^◌, ◌-◌, List, [], ◌∷◌, ◌++◌, if◌then◌else◌, ◌==◌, length}
use mariadb_columnstore_api.Messaging.Encode.{Item}
use mariadb_columnstore_api.Bulk.Calls.{Hwm}
use mariadb_columnstore_api.Commands.Reader.{
  Reader, Command, ServerText, pure, ◌>>=◌, ◌>>◌, and_do, read_word, read_u8, read_u32, read_u64,
  read_str, read_many, delete_message, refuse, unless_zero,
}
use Item.{u8, u32, u64, str}
use ServerText.{
  getting_txn_id, getting_table_lock, getting_unique_id, getting_uncommitted_lbids, setting_hwm,
  setting_extents_max_min, in_vb_rollback, committing_version_buffer, committing_brm,
  rolling_back_brm, taking_brm_snapshot, changing_lock_state, releasing_table_lock, already_locked,
}

-- `ownerName`
abbrev owner_name : List ℕ
owner_name = 109 ∷ 99 ∷ 115 ∷ 97 ∷ 112 ∷ 105 ∷ []

-- The start of every reply of the controller.
unfoldable pub expect_ok : ServerText → Reader Unit
unfolding and_do unless_zero read_word refuse
expect_ok text = do response ← read_u8; unless_zero response (refuse text)

-- A reply that is read no further.
unfoldable pub only_ok : ServerText → Reader Unit
unfolding and_do expect_ok
only_ok text = do expect_ok text; delete_message

-- The vectors of a request, each behind its size.
unfoldable pub u32_items : List ℕ → List Item
u32_items [] = []
u32_items (v ∷ vs) = u32 v ∷ u32_items vs

unfoldable pub u64_items : List ℕ → List Item
u64_items [] = []
u64_items (v ∷ vs) = u64 v ∷ u64_items vs

unfoldable pub hwm_items : List Hwm → List Item
hwm_items [] = []
hwm_items (h ∷ hs) = u32 h.oid ∷ (u32 h.part_num ∷ (u32 h.seg_num ∷ (u32 h.hwm ∷ hwm_items hs)))

-- A block with the extremes that mark its minimum and maximum as invalid.
unfoldable pub extent_items : List ℕ → List Item
extent_items [] = []
extent_items (lbid ∷ lbids) =
    u64 lbid
    ∷ (u64 0x8000000000000000 ∷ (u64 (2 ^ 63 - 1) ∷ (u64 (2 ^ 64 - 1) ∷ extent_items lbids)))

-- brmGetTxnID: a block of one and no DDL.
unfoldable pub brm_get_txn_id : ℕ → Command ℕ
unfolding and_do expect_ok
brm_get_txn_id session_id = record {
  request = u8 0x2E ∷ u32 session_id ∷ u8 1 ∷ u8 0 ∷ [];
  reply = do
    expect_ok getting_txn_id
    id ← read_u32
    is_valid ← read_u8
    delete_message
    pure id;
}

-- The owner of a lock that another holds, which ends in an exception.
unfoldable pub report_owner : Reader ℕ
unfolding and_do refuse read_word read_str
report_owner = do
  owner_pid ← read_u32
  owner_name ← read_str
  session_id ← read_u32
  owner_txn_id ← read_u32
  refuse (already_locked owner_pid owner_name session_id owner_txn_id)

-- brmGetTableLock; `pid` and `now` are what `getpid` and `time` give.
unfoldable pub brm_get_table_lock : ℕ → ℕ → ℕ → ℕ → ℕ → List ℕ → Command ℕ
unfolding and_do expect_ok report_owner u32_items
brm_get_table_lock pid now table_oid session_id txn_id db_roots = record {
  request =
      u8 0x46
      ∷ u64 0
      ∷ u32 table_oid
      ∷ str owner_name
      ∷ u32 pid
      ∷ u32 session_id
      ∷ u32 txn_id
      ∷ u8 0
      ∷ u64 now
      ∷ u64 (length db_roots)
      ∷ u32_items db_roots;
  reply = do
    expect_ok getting_table_lock
    ret ← read_u64
    if ret == 0 then report_owner else (delete_message >> pure ret);
}

-- brmGetUniqueId
unfoldable pub brm_get_unique_id : Command ℕ
unfolding and_do expect_ok
brm_get_unique_id = record {
  request = u8 0x38 ∷ [];
  reply = do
    expect_ok getting_unique_id
    unique_id ← read_u64
    delete_message
    pure unique_id;
}

-- brmGetUncommittedLbids: the blocks go behind those that the vector holds.
unfoldable pub brm_get_uncommitted_lbids : ℕ → List ℕ → Command (List ℕ)
unfolding and_do expect_ok read_many
brm_get_uncommitted_lbids txn_id lbids = record {
  request = u8 0x3A ∷ u32 txn_id ∷ [];
  reply = do
    expect_ok getting_uncommitted_lbids
    count ← read_u64
    more ← read_many read_u64 count
    delete_message
    pure (lbids ++ more);
}

-- brmSetHWMAndCP, with an unused vector of size zero.
unfoldable pub brm_set_hwm_and_cp : List Hwm → List ℕ → ℕ → Command Unit
unfolding only_ok hwm_items extent_items
brm_set_hwm_and_cp hwms lbids txn_id = record {
  request =
      u8 0x28
      ∷ u64 (length hwms)
      ∷ (hwm_items hwms
          ++ (u64 (length lbids) ∷ (extent_items lbids ++ (u64 0 ∷ u32 txn_id ∷ []))));
  reply = only_ok setting_hwm;
}

-- brmSetExtentsMaxMin
unfoldable pub brm_set_extents_max_min : List ℕ → Command Unit
unfolding only_ok extent_items
brm_set_extents_max_min lbids = record {
  request = u8 0x1A ∷ u64 (length lbids) ∷ extent_items lbids;
  reply = only_ok setting_extents_max_min;
}

-- brmRollback
unfoldable pub brm_rollback : List ℕ → ℕ → Command Unit
unfolding only_ok u64_items
brm_rollback lbids txn_id = record {
  request = u8 0x07 ∷ u32 txn_id ∷ u64 (length lbids) ∷ u64_items lbids;
  reply = only_ok in_vb_rollback;
}

-- brmVBCommit
unfoldable pub brm_vb_commit : ℕ → Command Unit
unfolding only_ok
brm_vb_commit txn_id = record {
  request = u8 0x08 ∷ u32 txn_id ∷ [];
  reply = only_ok committing_version_buffer;
}

-- brmCommitted
unfoldable pub brm_committed : ℕ → Command Unit
unfolding only_ok
brm_committed txn_id = record {
  request = u8 0x2F ∷ u32 txn_id ∷ u8 1 ∷ [];
  reply = only_ok committing_brm;
}

-- brmRolledback
unfoldable pub brm_rolledback : ℕ → Command Unit
unfolding only_ok
brm_rolledback txn_id = record {
  request = u8 0x30 ∷ u32 txn_id ∷ u8 1 ∷ [];
  reply = only_ok rolling_back_brm;
}

-- brmTakeSnapshot
unfoldable pub brm_take_snapshot : Command Unit
unfolding only_ok
brm_take_snapshot = record { request = u8 0x1F ∷ []; reply = only_ok taking_brm_snapshot }

-- brmChangeState
unfoldable pub brm_change_state : ℕ → Command Unit
unfolding only_ok
brm_change_state lock_id = record {
  request = u8 0x48 ∷ u64 lock_id ∷ u32 1 ∷ [];
  reply = only_ok changing_lock_state;
}

-- brmReleaseTableLock: one more byte is read and ignored.
unfoldable pub brm_release_table_lock : ℕ → Command Unit
unfolding and_do expect_ok
brm_release_table_lock lock_id = record {
  request = u8 0x47 ∷ u64 lock_id ∷ [];
  reply = do
    expect_ok releasing_table_lock
    unknown ← read_u8
    delete_message;
}
