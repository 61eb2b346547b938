-- ===== src/Commands/Denied.antt =====
-- The calls of a bulk insert that the servers refuse, as ColumnStoreCommands reads the replies.
use mariadb_columnstore_api.Prelude.{ℕ, suc, List, [], ◌∷◌, All}
use mariadb_columnstore_api.Messaging.Encode.{Item}
use mariadb_columnstore_api.Messaging.Decode.{FitsType}
use mariadb_columnstore_api.Commands.Reader.{Reader, Result, ServerText, Failure, ◌>>=◌, pure}
use mariadb_columnstore_api.Commands.Gives.{Gives, refuse-Gives}
use mariadb_columnstore_api.Commands.Finishes.{Finishes, Gives-Finishes, stop-Finishes}
use mariadb_columnstore_api.Commands.Steps.{then_u8, then_u32, then_u64, then_str}
use mariadb_columnstore_api.Bulk.Calls.{Call}
use mariadb_columnstore_api.Commands.Brm.{
  only_ok, report_owner, brm_get_txn_id, brm_get_table_lock, brm_get_unique_id, brm_set_hwm_and_cp,
  brm_rollback, brm_committed, brm_rolledback, brm_take_snapshot, brm_change_state,
  brm_release_table_lock,
}
use mariadb_columnstore_api.Commands.WriteEngine.{
  expect_second_text, we_bulk_rollback, we_bulk_commit, we_get_written_lbids, we_keep_alive,
  we_bulk_insert, we_bulk_insert_end, we_rollback_blocks, we_remove_meta,
}
use mariadb_columnstore_api.Commands.Controller.{expect_ok-Gives, refused-Gives, only_ok-refused}
use mariadb_columnstore_api.Commands.Engines.{
  expect_text-refused, second_text-Finishes, we_bulk_rollback-refused,
}
use Item.{u8, u64, str}
use mariadb_columnstore_api.Commands.Answers.{
  Context, Value, Wire, reader_of, text_items, second_failure, denied_items, failure_of, IsAnswered,
}

-- An exception stays one.
stays :
    {A : Type 0} (r : Reader A) (f : A → Value) (is : List Item) (text : ServerText)
    → Gives r is (Result.failed (Failure.server_error text))
    → Finishes (r >>= λ b. pure (f b)) is (Result.failed (Failure.server_error text))
stays r f is text h =
    stop-Finishes r (λ b. pure (f b)) is (Failure.server_error text) (Gives-Finishes r is _ h)

-- The commands that read a second text.
stays_second :
    (w : Wire)
    → FitsType (u64 w.echo)
    → FitsType (u8 (suc w.code))
    → FitsType (str w.text)
    → All FitsType (text_items w.second_text)
    → Finishes
        (expect_second_text >>= λ _. pure Value.nothing)
        (u64 w.echo ∷ u8 (suc w.code) ∷ str w.text ∷ text_items w.second_text)
        (Result.failed (second_failure w.second_text))
stays_second w f1 f2 f3 fs =
    stop-Finishes expect_second_text (λ _. pure Value.nothing) _ (second_failure w.second_text)
      (second_text-Finishes w.echo w.text w.second_text f1 f3 fs w.code f2)

module _ (x : Context) (w : Wire) (n : ℕ) where
  -- A call that is refused ends in ColumnStoreServerError with the text of the refusal, or in
  -- ColumnStoreBufferError where a second text is read and none is sent.
  pub denied-Finishes :
      (c : Call)
      → IsAnswered n c
      → All FitsType (denied_items w c)
      → Finishes (reader_of x c) (denied_items w c) (Result.failed (failure_of w c))
  unfolding reader_of denied_items failure_of IsAnswered brm_take_snapshot brm_committed
      brm_rolledback brm_change_state brm_set_hwm_and_cp brm_rollback brm_get_unique_id
      brm_get_txn_id brm_release_table_lock we_keep_alive brm_get_table_lock we_bulk_insert
      we_bulk_insert_end we_rollback_blocks we_remove_meta we_get_written_lbids we_bulk_commit
      report_owner
  denied-Finishes Call.brm_take_snapshot h (f, _) =
      stays (only_ok ServerText.taking_brm_snapshot) (λ _. Value.nothing) _ _
        (only_ok-refused _ w.code f)
  denied-Finishes (Call.brm_committed txn_id) h (f, _) =
      stays (only_ok ServerText.committing_brm) (λ _. Value.nothing) _ _
        (only_ok-refused _ w.code f)
  denied-Finishes (Call.brm_rolledback txn_id) h (f, _) =
      stays (only_ok ServerText.rolling_back_brm) (λ _. Value.nothing) _ _
        (only_ok-refused _ w.code f)
  denied-Finishes (Call.brm_change_state lock) h (f, _) =
      stays (only_ok ServerText.changing_lock_state) (λ _. Value.nothing) _ _
        (only_ok-refused _ w.code f)
  denied-Finishes (Call.brm_set_hwm_and_cp hs ls txn_id) h (f, _) =
      stays (only_ok ServerText.setting_hwm) (λ _. Value.nothing) _ _ (only_ok-refused _ w.code f)
  denied-Finishes (Call.brm_rollback ls txn_id) h (f, _) =
      stays (only_ok ServerText.in_vb_rollback) (λ _. Value.nothing) _ _
        (only_ok-refused _ w.code f)
  denied-Finishes Call.brm_get_unique_id h (f, _) =
      stays brm_get_unique_id.reply Value.number _ _ (refused-Gives _ _ w.code f)
  denied-Finishes (Call.brm_get_txn_id session_id) h (f, _) =
      stays (brm_get_txn_id session_id).reply Value.number _ _ (refused-Gives _ _ w.code f)
  denied-Finishes (Call.brm_release_table_lock lock) h (f, _) =
      stays (brm_release_table_lock lock).reply (λ _. Value.nothing) _ _
        (refused-Gives _ _ w.code f)
  denied-Finishes (Call.we_keep_alive pm) h (f1, (f2, (f3, _))) =
      stays we_keep_alive.reply (λ _. Value.nothing) _ _
        (then_u8 0 _ f1 (
          then_u32 w.filler _ f2
            (then_u64 w.echo _ f3 (refuse-Gives ServerText.setting_keep_alive))))
  denied-Finishes (Call.brm_get_table_lock oid session_id txn_id roots) h
        (f1, (f2, (f3, (f4, (f5, (f6, _)))))) =
      stays (brm_get_table_lock x.pid x.now oid session_id txn_id roots).reply Value.number _ _ (
        expect_ok-Gives _ _ _ _ (
          then_u64 0 _ f2 (
            then_u32 w.owner_pid _ f3 (
              then_str w.owner_name _ f4 (
                then_u32 w.owner_session_id _ f5
                  (then_u32 w.owner_txn_id _ f6 (refuse-Gives _)))))))
  denied-Finishes (Call.we_bulk_insert pm id session_id txn_id rows) h (f1, (f2, (f3, _))) =
      stays (we_bulk_insert pm id session_id txn_id x.table rows).reply (λ _. Value.nothing) _ _
        (expect_text-refused f1 f3 _ w.code f2)
  denied-Finishes (Call.we_bulk_insert_end pm id txn_id oid err) h (f1, (f2, (f3, fs))) =
      stays_second w f1 f2 f3 fs
  denied-Finishes (Call.we_rollback_blocks pm id session_id txn_id) h (f1, (f2, (f3, fs))) =
      stays_second w f1 f2 f3 fs
  denied-Finishes (Call.we_remove_meta pm id oid) h (f1, (f2, (f3, fs))) =
      stays_second w f1 f2 f3 fs
  denied-Finishes (Call.we_bulk_rollback pm id session_id lock oid) h (f1, (f2, (f3, _))) =
      stays (we_bulk_rollback id session_id lock oid).reply (λ _. Value.nothing) _ _
        (we_bulk_rollback-refused f1 f3 id session_id lock oid w.code f2)
  denied-Finishes (Call.we_get_written_lbids pm id txn_id) h (f1, (f2, (f3, _))) =
      stays (we_get_written_lbids id txn_id []).reply Value.blocks _ _
        (expect_text-refused f1 f3 _ w.code f2)
  denied-Finishes (Call.we_bulk_commit pm id session_id txn_id oid) h (f1, (f2, (f3, _))) =
      stays (we_bulk_commit id session_id txn_id oid []).reply Value.marks _ _
        (expect_text-refused f1 f3 _ w.code f2)
  denied-Finishes Call.proc_mon_check_version h fits = elim h [ ]
  denied-Finishes (Call.we_close pm) h fits = elim h [ ]
