-- ===== src/Commands/Answers.antt =====
-- How the servers answer the calls of a bulk insert on the wire, and what ColumnStoreCommands makes
-- of the answers: the replies that src/util_commands.cpp reads.
use mariadb_columnstore_api.Prelude.{
  ℕ, suc, ◌<◌, List, [], ◌∷◌, Bool, Option, none, some, if◌then◌else◌, length,
}
use mariadb_columnstore_api.Messaging.Encode.{Item}
use mariadb_columnstore_api.Bulk.Calls.{Call, Server, Hwm}
use mariadb_columnstore_api.Commands.Reader.{
  Reader, Result, ServerText, Failure, and_do, ◌>>=◌, pure,
}
use mariadb_columnstore_api.Commands.Steps.{each}
use mariadb_columnstore_api.Commands.Brm.{
  brm_get_txn_id, brm_get_table_lock, brm_get_unique_id, brm_set_hwm_and_cp, brm_rollback,
  brm_committed, brm_rolledback, brm_take_snapshot, brm_change_state, brm_release_table_lock,
}
use mariadb_columnstore_api.Commands.Version.{proc_mon_check_version}
use mariadb_columnstore_api.Commands.WriteEngine.{
  TableName, add_hwms, we_bulk_rollback, we_bulk_commit, we_get_written_lbids, we_keep_alive,
  we_bulk_insert, we_bulk_insert_end, we_rollback_blocks, we_remove_meta,
}
use Item.{u8, u32, u64, str}

-- What a command needs besides the arguments of its call.
pub record Context : Type 0 where
  pub pid : ℕ
  pub now : ℕ
  pub stale_major : ℕ
  pub stale_minor : ℕ
  pub table : TableName

-- What a call gives back.
pub data Value : Type 0 where
  nothing : Value
  number : ℕ → Value
  truth : Bool → Value
  blocks : List ℕ → Value
  marks : List Hwm → Value

abbrev returning : {A : Type 0} → (A → Value) → Reader A → Reader Value
returning f r = r >>= λ a. pure (f a)

-- The command of a call, as far as it reads; weClose reads nothing.
unfoldable pub reader_of : Context → Call → Reader Value
unfolding and_do
reader_of x Call.proc_mon_check_version =
    returning Value.truth (proc_mon_check_version x.stale_major x.stale_minor).reply
reader_of x Call.brm_get_unique_id = returning Value.number brm_get_unique_id.reply
reader_of x Call.brm_take_snapshot = returning (λ _. Value.nothing) brm_take_snapshot.reply
reader_of x (Call.brm_get_txn_id session_id) =
    returning Value.number (brm_get_txn_id session_id).reply
reader_of x (Call.brm_committed txn_id) =
    returning (λ _. Value.nothing) (brm_committed txn_id).reply
reader_of x (Call.brm_rolledback txn_id) =
    returning (λ _. Value.nothing) (brm_rolledback txn_id).reply
reader_of x (Call.brm_change_state lock) =
    returning (λ _. Value.nothing) (brm_change_state lock).reply
reader_of x (Call.brm_release_table_lock lock) =
    returning (λ _. Value.nothing) (brm_release_table_lock lock).reply
reader_of x (Call.we_keep_alive pm) = returning (λ _. Value.nothing) we_keep_alive.reply
reader_of x (Call.we_close pm) = pure Value.nothing
reader_of x (Call.brm_get_table_lock oid session_id txn_id roots) =
    returning Value.number (brm_get_table_lock x.pid x.now oid session_id txn_id roots).reply
reader_of x (Call.we_bulk_insert pm id session_id txn_id rows) =
    returning (λ _. Value.nothing) (we_bulk_insert pm id session_id txn_id x.table rows).reply
reader_of x (Call.we_bulk_insert_end pm id txn_id oid err) =
    returning (λ _. Value.nothing) (we_bulk_insert_end id txn_id oid err).reply
reader_of x (Call.we_get_written_lbids pm id txn_id) =
    returning Value.blocks (we_get_written_lbids id txn_id []).reply
reader_of x (Call.we_remove_meta pm id oid) =
    returning (λ _. Value.nothing) (we_remove_meta id oid).reply
reader_of x (Call.we_bulk_commit pm id session_id txn_id oid) =
    returning Value.marks (we_bulk_commit id session_id txn_id oid []).reply
reader_of x (Call.we_rollback_blocks pm id session_id txn_id) =
    returning (λ _. Value.nothing) (we_rollback_blocks id session_id txn_id).reply
reader_of x (Call.we_bulk_rollback pm id session_id lock oid) =
    returning (λ _. Value.nothing) (we_bulk_rollback id session_id lock oid).reply
reader_of x (Call.brm_set_hwm_and_cp hwms lbids txn_id) =
    returning (λ _. Value.nothing) (brm_set_hwm_and_cp hwms lbids txn_id).reply
reader_of x (Call.brm_rollback lbids txn_id) =
    returning (λ _. Value.nothing) (brm_rollback lbids txn_id).reply

-- What the servers are free to send: the code of a refusal less one, its text and whether they send a
-- second one, the bytes that are ignored, and the owner of a table that is locked.
pub record Wire : Type 0 where
  pub code : ℕ
  pub text : List ℕ
  pub second_text : Option (List ℕ)
  pub echo : ℕ
  pub filler : ℕ
  pub owner_pid : ℕ
  pub owner_name : List ℕ
  pub owner_session_id : ℕ
  pub owner_txn_id : ℕ

abbrev pub lbid_items : ℕ → List Item
lbid_items v = u64 v ∷ []

unfoldable pub hwm_items : Hwm → List Item
hwm_items h = u32 h.oid ∷ u32 h.part_num ∷ u32 h.seg_num ∷ u32 h.hwm ∷ []

-- The reply to a call that is carried out.
unfoldable pub granted_items : Wire → ℕ → List ℕ → List Hwm → Call → List Item
unfolding each hwm_items
granted_items w n lbids hwms Call.brm_get_unique_id = u8 0 ∷ u64 n ∷ []
granted_items w n lbids hwms (Call.brm_get_txn_id session_id) = u8 0 ∷ u32 n ∷ u8 w.filler ∷ []
granted_items w n lbids hwms (Call.brm_release_table_lock lock) = u8 0 ∷ u8 w.filler ∷ []
granted_items w n lbids hwms (Call.we_keep_alive pm) = u8 1 ∷ u32 w.filler ∷ u64 w.echo ∷ []
granted_items w n lbids hwms (Call.brm_get_table_lock oid session_id txn_id roots) =
    u8 0 ∷ u64 n ∷ []
granted_items w n lbids hwms (Call.we_bulk_insert pm id session_id txn_id rows) =
    u64 w.echo ∷ u8 0 ∷ str w.text ∷ []
granted_items w n lbids hwms (Call.we_bulk_insert_end pm id txn_id oid err) =
    u64 w.echo ∷ u8 0 ∷ str w.text ∷ []
granted_items w n lbids hwms (Call.we_get_written_lbids pm id txn_id) =
    u64 w.echo ∷ u8 0 ∷ str w.text ∷ u64 (length lbids) ∷ each lbid_items lbids
granted_items w n lbids hwms (Call.we_remove_meta pm id oid) = u64 w.echo ∷ u8 0 ∷ str w.text ∷ []
granted_items w n lbids hwms (Call.we_bulk_commit pm id session_id txn_id oid) =
    u64 w.echo ∷ u8 0 ∷ str w.text ∷ u64 (length hwms) ∷ each hwm_items hwms
granted_items w n lbids hwms (Call.we_rollback_blocks pm id session_id txn_id) =
    u64 w.echo ∷ u8 0 ∷ str w.text ∷ []
granted_items w n lbids hwms (Call.we_bulk_rollback pm id session_id lock oid) =
    u64 w.echo ∷ u8 0 ∷ []
granted_items w n lbids hwms _ = u8 0 ∷ []

-- A second text, where one is sent.
unfoldable pub text_items : Option (List ℕ) → List Item
text_items none = []
text_items (some s) = str s ∷ []

-- The reply to a call that is refused.
unfoldable pub denied_items : Wire → Call → List Item
unfolding text_items
denied_items w (Call.we_keep_alive pm) = u8 0 ∷ u32 w.filler ∷ u64 w.echo ∷ []
denied_items w (Call.brm_get_table_lock oid session_id txn_id roots) =
    u8 0
    ∷ u64 0
    ∷ u32 w.owner_pid
    ∷ str w.owner_name
    ∷ u32 w.owner_session_id
    ∷ u32 w.owner_txn_id
    ∷ []
denied_items w (Call.we_bulk_insert pm id session_id txn_id rows) =
    u64 w.echo ∷ u8 (suc w.code) ∷ str w.text ∷ []
denied_items w (Call.we_bulk_insert_end pm id txn_id oid err) =
    u64 w.echo ∷ u8 (suc w.code) ∷ str w.text ∷ text_items w.second_text
denied_items w (Call.we_get_written_lbids pm id txn_id) =
    u64 w.echo ∷ u8 (suc w.code) ∷ str w.text ∷ []
denied_items w (Call.we_remove_meta pm id oid) =
    u64 w.echo ∷ u8 (suc w.code) ∷ str w.text ∷ text_items w.second_text
denied_items w (Call.we_bulk_commit pm id session_id txn_id oid) =
    u64 w.echo ∷ u8 (suc w.code) ∷ str w.text ∷ []
denied_items w (Call.we_rollback_blocks pm id session_id txn_id) =
    u64 w.echo ∷ u8 (suc w.code) ∷ str w.text ∷ text_items w.second_text
denied_items w (Call.we_bulk_rollback pm id session_id lock oid) =
    u64 w.echo ∷ u8 (suc w.code) ∷ str w.text ∷ []
denied_items w _ = u8 (suc w.code) ∷ []

-- What the call gives by what the server answers: the marks of a segment are merged, as commit passes
-- them on.
unfoldable pub value_of : ℕ → List ℕ → List Hwm → Call → Value
unfolding add_hwms
value_of n lbids hwms Call.brm_get_unique_id = Value.number n
value_of n lbids hwms (Call.brm_get_txn_id session_id) = Value.number n
value_of n lbids hwms (Call.brm_get_table_lock oid session_id txn_id roots) = Value.number n
value_of n lbids hwms (Call.we_get_written_lbids pm id txn_id) = Value.blocks lbids
value_of n lbids hwms (Call.we_bulk_commit pm id session_id txn_id oid) =
    Value.marks (add_hwms [] hwms)
value_of n lbids hwms _ = Value.nothing

-- The exception of the commands that read a second text of a refusal: a ColumnStoreBufferError where
-- none is sent.
unfoldable pub second_failure : Option (List ℕ) → Failure
second_failure none = Failure.buffer_error
second_failure (some s) = Failure.server_error (ServerText.said s)

-- The exception that a refusal becomes.
unfoldable pub failure_of : Wire → Call → Failure
unfolding second_failure
failure_of w Call.brm_get_unique_id = Failure.server_error ServerText.getting_unique_id
failure_of w Call.brm_take_snapshot = Failure.server_error ServerText.taking_brm_snapshot
failure_of w (Call.brm_get_txn_id session_id) = Failure.server_error ServerText.getting_txn_id
failure_of w (Call.brm_committed txn_id) = Failure.server_error ServerText.committing_brm
failure_of w (Call.brm_rolledback txn_id) = Failure.server_error ServerText.rolling_back_brm
failure_of w (Call.brm_change_state lock) = Failure.server_error ServerText.changing_lock_state
failure_of w (Call.brm_release_table_lock lock) =
    Failure.server_error ServerText.releasing_table_lock
failure_of w (Call.we_keep_alive pm) = Failure.server_error ServerText.setting_keep_alive
failure_of w (Call.brm_get_table_lock oid session_id txn_id roots) =
    Failure.server_error
      (ServerText.already_locked w.owner_pid w.owner_name w.owner_session_id w.owner_txn_id)
failure_of w (Call.we_bulk_insert_end pm id txn_id oid err) = second_failure w.second_text
failure_of w (Call.we_remove_meta pm id oid) = second_failure w.second_text
failure_of w (Call.we_rollback_blocks pm id session_id txn_id) = second_failure w.second_text
failure_of w (Call.brm_set_hwm_and_cp hwms lbids txn_id) =
    Failure.server_error ServerText.setting_hwm
failure_of w (Call.brm_rollback lbids txn_id) = Failure.server_error ServerText.in_vb_rollback
failure_of w _ = Failure.server_error (ServerText.said w.text)

-- The reply to a call, and how the command ends.
unfoldable pub reply_items : Wire → Server → List Call → Call → List Item
unfolding granted_items denied_items
reply_items w srv log c =
    if srv.accepts log c
    then granted_items w (srv.number log c) (srv.lbids log c) (srv.hwms log c) c
    else denied_items w c

unfoldable pub result_of : Wire → Server → List Call → Call → Result Value
unfolding value_of failure_of
result_of w srv log c =
    if srv.accepts log c
    then Result.ok (value_of (srv.number log c) (srv.lbids log c) (srv.hwms log c) c)
    else Result.failed (failure_of w c)

-- A call that a server answers by a reply of this kind: all but procMonCheckVersion, whose reply is
-- a version, and weClose, which has none. The number of a table lock is not zero.
unfoldable pub IsAnswered : ℕ → Call → Type 0
IsAnswered n Call.proc_mon_check_version = ⊥
IsAnswered n (Call.we_close pm) = ⊥
IsAnswered n (Call.brm_get_table_lock oid session_id txn_id roots) = 0 < n
IsAnswered n _ = Unit
