-- ===== src/Commands/Engines.antt =====
-- The replies of the write engines, as the server lays them out: src/util_commands.cpp.
use mariadb_columnstore_api.Prelude.{ℕ, suc, List, [], ◌∷◌, arith, Option, none, some, All}
use mariadb_columnstore_api.Messaging.Encode.{Item}
use mariadb_columnstore_api.Messaging.Decode.{FitsType}
use mariadb_columnstore_api.Commands.Reader.{
  Reader, Result, ServerText, Failure, ◌>>=◌, pure, delete_message, refuse, unless_zero, read_word,
  read_str,
}
use mariadb_columnstore_api.Commands.Gives.{
  Gives, bind-Gives, stop-Gives, pure-Gives, delete-Gives, refuse-Gives,
}
use mariadb_columnstore_api.Commands.Steps.{
  u8-Gives, u64-Gives, str-Gives, then_u8, then_u64, then_str,
}
use mariadb_columnstore_api.Commands.Controller.{unless_zero-suc}
use mariadb_columnstore_api.Commands.WriteEngine.{
  expect_text, expect_second_text, refuse_with_text, we_bulk_rollback,
}
use mariadb_columnstore_api.Commands.Finishes.{
  Finishes, Gives-Finishes, bind-Finishes, stop-Finishes, read_str-end,
}
use mariadb_columnstore_api.Commands.Answers.{text_items, second_failure}
use Item.{u8, u64, str}
use ServerText.{said}

module _ {echo : ℕ} {text : List ℕ} (echo_fits : FitsType (u64 echo))
    (text_fits : FitsType (str text)) where
  -- The checks of a good reply.
  pub expect_text-Gives :
      {A : Type 0} (f : Unit → Reader A) (is : List Item) (result : Result A)
      → Gives (f tt) is result
      → Gives (expect_text >>= f) (u64 echo ∷ u8 0 ∷ str text ∷ is) result
  unfolding expect_text unless_zero
  expect_text-Gives f is result next =
      bind-Gives expect_text f (u64 echo ∷ u8 0 ∷ str text ∷ []) is tt result
        (then_u64 echo _ echo_fits
          (then_u8 0 _ (omega arith) (then_str text _ text_fits (pure-Gives tt))))
        next

  pub expect_text-refused :
      {A : Type 0} (f : Unit → Reader A) (e : ℕ)
      → FitsType (u8 (suc e))
      → Gives
          (expect_text >>= f)
          (u64 echo ∷ u8 (suc e) ∷ str text ∷ [])
          (Result.failed (Failure.server_error (said text)))
  unfolding expect_text
  expect_text-refused f e fits = stop-Gives expect_text f _ (Failure.server_error (said text)) (
      then_u64 echo _ echo_fits (
        then_u8 (suc e) _ fits (
          then_str text (λ errmsg. unless_zero (suc e) (refuse (said errmsg))) text_fits
            (rw (unless_zero-suc e (refuse (said text))) (refuse-Gives (said text))))))

  pub second_text-Gives : Gives expect_second_text (u64 echo ∷ u8 0 ∷ str text ∷ []) (Result.ok tt)
  unfolding expect_second_text unless_zero
  second_text-Gives = then_u64 echo _ echo_fits (
      then_u8 0 _ (omega arith) (
        then_str text _ text_fits (
          bind-Gives (pure tt) (λ _. delete_message) [] [] tt (Result.ok tt) (pure-Gives tt)
            delete-Gives)))

  pub refuse_with_text-Gives :
      Gives refuse_with_text (str text ∷ []) (Result.failed (Failure.server_error (said text)))
  unfolding refuse_with_text
  refuse_with_text-Gives = then_str text _ text_fits (refuse-Gives (said text))

  pub we_bulk_rollback-refused :
      (id session_id lock oid e : ℕ)
      → FitsType (u8 (suc e))
      → Gives
          (we_bulk_rollback id session_id lock oid).reply
          (u64 echo ∷ u8 (suc e) ∷ str text ∷ [])
          (Result.failed (Failure.server_error (said text)))
  unfolding we_bulk_rollback
  we_bulk_rollback-refused id session_id lock oid e fits = then_u64 echo _ echo_fits (
      then_u8 (suc e) (λ r. unless_zero r refuse_with_text >>= λ _. delete_message) fits
        (stop-Gives (unless_zero (suc e) refuse_with_text) _ (str text ∷ []) _
          (rw (unless_zero-suc e refuse_with_text) refuse_with_text-Gives)))

-- Where two texts are sent, the second is thrown.
pub second_text-refused :
    {echo : ℕ} {text second : List ℕ}
    → FitsType (u64 echo)
    → FitsType (str text)
    → FitsType (str second)
    → (e : ℕ) → FitsType (u8 (suc e))
    → Gives expect_second_text
        (u64 echo ∷ u8 (suc e) ∷ str text ∷ str second ∷ [])
        (Result.failed (Failure.server_error (said second)))
unfolding expect_second_text
second_text-refused {echo = echo} {text = text} {second = second} fe ft fs e fits =
    then_u64 echo _ fe (
      then_u8 (suc e) _ fits (
        then_str text (λ _. unless_zero (suc e) refuse_with_text >>= λ _. delete_message) ft
          (stop-Gives (unless_zero (suc e) refuse_with_text) _ (str second ∷ []) _
            (rw (unless_zero-suc e refuse_with_text) (refuse_with_text-Gives fe fs)))))

-- Where none is sent, the read of it ends in ColumnStoreBufferError.
pub second_text-Finishes :
    (echo : ℕ) (text : List ℕ) (second : Option (List ℕ))
    → FitsType (u64 echo)
    → FitsType (str text)
    → All FitsType (text_items second)
    → (e : ℕ) → FitsType (u8 (suc e))
    → Finishes expect_second_text
        (u64 echo ∷ u8 (suc e) ∷ str text ∷ text_items second)
        (Result.failed (second_failure second))
unfolding expect_second_text refuse_with_text text_items second_failure
second_text-Finishes echo text (some second) fe ft (fs, _) e fits =
    Gives-Finishes expect_second_text _ _ (second_text-refused fe ft fs e fits)
second_text-Finishes echo text none fe ft fs e fits =
    bind-Finishes (read_word 8) _ (u64 echo ∷ []) _ echo _ (u64-Gives echo fe) (
      bind-Finishes (read_word 1) _ (u8 (suc e) ∷ []) _ (suc e) _ (u8-Gives (suc e) fits) (
        bind-Finishes read_str (λ _. unless_zero (suc e) refuse_with_text >>= λ _. delete_message)
          (str text ∷ []) [] text _ (str-Gives text ft)
          (stop-Finishes (unless_zero (suc e) refuse_with_text) _ [] Failure.buffer_error (
            rw (unless_zero-suc e refuse_with_text)
              (stop-Finishes read_str _ [] Failure.buffer_error read_str-end)))))

-- The reply of weBulkRollback has a text in case of an error only.
pub we_bulk_rollback-Gives :
    (echo : ℕ)
    → FitsType (u64 echo)
    → (id session_id lock oid : ℕ)
    → Gives (we_bulk_rollback id session_id lock oid).reply (u64 echo ∷ u8 0 ∷ []) (Result.ok tt)
unfolding we_bulk_rollback unless_zero
we_bulk_rollback-Gives echo echo_fits id session_id lock oid = then_u64 echo _ echo_fits (
    then_u8 0 _ (omega arith) (
      bind-Gives (pure tt) (λ _. delete_message) [] [] tt (Result.ok tt) (pure-Gives tt)
        delete-Gives))
