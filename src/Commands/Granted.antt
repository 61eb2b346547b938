-- ===== src/Commands/Granted.antt =====
-- The calls of a bulk insert that the servers carry out, as ColumnStoreCommands reads the replies.
use mariadb_columnstore_api.Prelude.{
  ℕ, ◌<◌, ◌≡◌, sym, List, [], ◌∷◌, length, false, arith, All, All-map, if◌then◌else◌, ◌==◌,
}
use mathlib.Core.Path.{subst}
use mariadb_columnstore_api.Messaging.Encode.{Item}
use mariadb_columnstore_api.Messaging.Decode.{FitsType}
use mariadb_columnstore_api.Commands.Reader.{
  Reader, Result, ServerText, ◌>>=◌, ◌>>◌, pure, read_word, read_many, delete_message,
}
use mariadb_columnstore_api.Commands.Gives.{Gives, bind-Gives, pure-Gives, delete-Gives}
use mariadb_columnstore_api.Commands.Steps.{
  then_u8, then_u32, then_u64, each, u64-Gives, read_many-Gives,
}
use mariadb_columnstore_api.Bulk.Calls.{Call, Hwm}
use mariadb_columnstore_api.Commands.Brm.{
  only_ok, report_owner, brm_get_txn_id, brm_get_table_lock, brm_get_unique_id, brm_set_hwm_and_cp,
  brm_rollback, brm_committed, brm_rolledback, brm_take_snapshot, brm_change_state,
  brm_release_table_lock,
}
use mariadb_columnstore_api.Commands.WriteEngine.{
  expect_second_text, read_hwm, read_hwms, add_hwm, add_hwms, we_bulk_rollback, we_bulk_commit,
  we_get_written_lbids, we_keep_alive, we_bulk_insert, we_bulk_insert_end, we_rollback_blocks,
  we_remove_meta,
}
use mariadb_columnstore_api.Commands.Controller.{
  end_with, delete_pure-Gives, expect_ok-Gives, only_ok-Gives,
}
use mariadb_columnstore_api.Commands.Engines.{
  expect_text-Gives, second_text-Gives, we_bulk_rollback-Gives,
}
use mariadb_columnstore_api.Commands.Answers.{
  Context, Value, Wire, reader_of, lbid_items, hwm_items, granted_items, value_of, IsAnswered,
}
use Item.{u8, u64}

-- The value of a command.
finish :
    {A : Type 0} (r : Reader A) (f : A → Value) (is : List Item) (a : A)
    → Gives r is (Result.ok a)
    → Gives (r >>= λ b. pure (f b)) is (Result.ok (f a))
finish r f is a h = end_with r (λ b. pure (f b)) is a (Result.ok (f a)) h (pure-Gives (f a))

plain :
    (text : ServerText)
    → Gives (only_ok text >>= λ _. pure Value.nothing) (u8 0 ∷ []) (Result.ok Value.nothing)
plain text = finish (only_ok text) (λ _. Value.nothing) (u8 0 ∷ []) tt (only_ok-Gives text)

fits_lbids :
    (lbids : List ℕ) → All FitsType (each lbid_items lbids) → All (λ v. FitsType (u64 v)) lbids
unfolding each
fits_lbids [] h = tt
fits_lbids (v ∷ vs) (f, fs) = (f, fits_lbids vs fs)

read_lbids-Gives :
    (lbids : List ℕ)
    → All FitsType (each lbid_items lbids)
    → Gives (read_many (read_word 8) (length lbids)) (each lbid_items lbids) (Result.ok lbids)
read_lbids-Gives lbids h =
    read_many-Gives (read_word 8) lbid_items lbids (All-map u64-Gives lbids (fits_lbids lbids h))

read_hwms-Gives :
    (hs ks : List Hwm)
    → All FitsType (each hwm_items ks)
    → Gives (read_hwms hs (length ks)) (each hwm_items ks) (Result.ok (add_hwms hs ks))
unfolding each hwm_items read_hwms add_hwms read_hwm
read_hwms-Gives hs [] h = pure-Gives hs
read_hwms-Gives hs (k ∷ ks) (f1, (f2, (f3, (f4, fs)))) =
    bind-Gives read_hwm (λ m. read_hwms (add_hwm hs m) (length ks)) (hwm_items k)
      (each hwm_items ks) k (Result.ok (add_hwms (add_hwm hs k) ks))
      (then_u32 k.oid _ f1
        (then_u32 k.part_num _ f2 (then_u32 k.seg_num _ f3 (then_u32 k.hwm _ f4 (pure-Gives k)))))
      (read_hwms-Gives (add_hwm hs k) ks fs)

-- A number that is not zero is a lock.
lock-Gives :
    (n : ℕ)
    → 0 < n
    → Gives (if n == 0 then report_owner else (delete_message >> pure n)) [] (Result.ok n)
lock-Gives n h =
    let other : (n == 0) ≡ false = ground (arith, h) in
    subst (λ b. Gives (if b then report_owner else (delete_message >> pure n)) [] (Result.ok n))
      (sym other) (delete_pure-Gives n)

module _ (x : Context) (w : Wire) (n : ℕ) (lbids : List ℕ) (hwms : List Hwm) where
  -- A call that is carried out gives what the server says.
  pub granted-Gives :
      (c : Call)
      → IsAnswered n c
      → All FitsType (granted_items w n lbids hwms c)
      → Gives (reader_of x c) (granted_items w n lbids hwms c) (Result.ok (value_of n lbids hwms c))
  unfolding reader_of granted_items value_of IsAnswered brm_take_snapshot brm_committed
      brm_rolledback brm_change_state brm_set_hwm_and_cp brm_rollback brm_get_unique_id
      brm_get_txn_id brm_release_table_lock we_keep_alive brm_get_table_lock we_bulk_insert
      we_bulk_insert_end we_rollback_blocks we_remove_meta we_get_written_lbids we_bulk_commit
  granted-Gives Call.brm_take_snapshot h fits = plain ServerText.taking_brm_snapshot
  granted-Gives (Call.brm_committed txn_id) h fits = plain ServerText.committing_brm
  granted-Gives (Call.brm_rolledback txn_id) h fits = plain ServerText.rolling_back_brm
  granted-Gives (Call.brm_change_state lock) h fits = plain ServerText.changing_lock_state
  granted-Gives (Call.brm_set_hwm_and_cp hs ls txn_id) h fits = plain ServerText.setting_hwm
  granted-Gives (Call.brm_rollback ls txn_id) h fits = plain ServerText.in_vb_rollback
  granted-Gives Call.brm_get_unique_id h (f1, (f2, _)) =
      finish brm_get_unique_id.reply Value.number (u8 0 ∷ u64 n ∷ []) n
        (expect_ok-Gives _ _ _ _ (then_u64 n _ f2 (delete_pure-Gives n)))
  granted-Gives (Call.brm_get_txn_id session_id) h (f1, (f2, (f3, _))) =
      finish (brm_get_txn_id session_id).reply Value.number _ n
        (expect_ok-Gives _ _ _ _ (then_u32 n _ f2 (then_u8 w.filler _ f3 (delete_pure-Gives n))))
  granted-Gives (Call.brm_release_table_lock lock) h (f1, (f2, _)) =
      finish (brm_release_table_lock lock).reply (λ _. Value.nothing) _ tt
        (expect_ok-Gives _ _ _ _ (then_u8 w.filler _ f2 delete-Gives))
  granted-Gives (Call.we_keep_alive pm) h (f1, (f2, (f3, _))) =
      finish we_keep_alive.reply (λ _. Value.nothing) _ tt
        (then_u8 1 _ f1 (then_u32 w.filler _ f2 (then_u64 w.echo _ f3 delete-Gives)))
  granted-Gives (Call.brm_get_table_lock oid session_id txn_id roots) h (f1, (f2, _)) =
      finish (brm_get_table_lock x.pid x.now oid session_id txn_id roots).reply Value.number _ n
        (expect_ok-Gives _ _ _ _ (then_u64 n _ f2 (lock-Gives n h)))
  granted-Gives (Call.we_bulk_insert pm id session_id txn_id rows) h (f1, (f2, (f3, _))) =
      finish (we_bulk_insert pm id session_id txn_id x.table rows).reply (λ _. Value.nothing) _ tt
        (expect_text-Gives f1 f3 _ _ _ delete-Gives)
  granted-Gives (Call.we_bulk_insert_end pm id txn_id oid err) h (f1, (f2, (f3, _))) =
      finish expect_second_text (λ _. Value.nothing) _ tt (second_text-Gives f1 f3)
  granted-Gives (Call.we_rollback_blocks pm id session_id txn_id) h (f1, (f2, (f3, _))) =
      finish expect_second_text (λ _. Value.nothing) _ tt (second_text-Gives f1 f3)
  granted-Gives (Call.we_remove_meta pm id oid) h (f1, (f2, (f3, _))) =
      finish expect_second_text (λ _. Value.nothing) _ tt (second_text-Gives f1 f3)
  granted-Gives (Call.we_bulk_rollback pm id session_id lock oid) h (f1, _) =
      finish (we_bulk_rollback id session_id lock oid).reply (λ _. Value.nothing) _ tt
        (we_bulk_rollback-Gives w.echo f1 id session_id lock oid)
  granted-Gives (Call.we_get_written_lbids pm id txn_id) h (f1, (f2, (f3, (f4, fs)))) =
      finish (we_get_written_lbids id txn_id []).reply Value.blocks _ lbids (
        expect_text-Gives f1 f3 _ _ _ (
          then_u64 (length lbids) _ f4 (
            end_with (read_many (read_word 8) (length lbids)) _ (each lbid_items lbids) lbids
              (Result.ok lbids) (read_lbids-Gives lbids fs) (delete_pure-Gives lbids))))
  granted-Gives (Call.we_bulk_commit pm id session_id txn_id oid) h (f1, (f2, (f3, (f4, fs)))) =
      finish (we_bulk_commit id session_id txn_id oid []).reply Value.marks _ (add_hwms [] hwms) (
        expect_text-Gives f1 f3 _ _ _ (
          then_u64 (length hwms) _ f4 (
            end_with (read_hwms [] (length hwms)) _ (each hwm_items hwms) (add_hwms [] hwms)
              (Result.ok (add_hwms [] hwms)) (read_hwms-Gives [] hwms fs)
              (delete_pure-Gives (add_hwms [] hwms)))))
  granted-Gives Call.proc_mon_check_version h fits = elim h [ ]
  granted-Gives (Call.we_close pm) h fits = elim h [ ]
