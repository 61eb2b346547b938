-- ===== src/Commands/Reader.antt =====
-- How the commands of src/util_commands.cpp read a reply: a series of `*messageOut >> value` on the
-- message of a connection, which an exception ends.
use mariadb_columnstore_api.Prelude.{
  ℕ, zero, suc, List, [], ◌∷◌, Option, none, some, if◌then◌else◌, ◌==◌,
}
use mariadb_columnstore_api.Messaging.{Messaging, get_word, get_str}
use mariadb_columnstore_api.Messaging.Encode.{Item}
use mariadb_columnstore_api.Network.{Network, ErrMsg, delete_read_message}

-- The texts of ColumnStoreServerError: those of the source, by what failed, and those that the
-- server sends.
pub data ServerText : Type 0 where
  said : List ℕ → ServerText
  getting_system_catalog getting_txn_id getting_table_lock getting_unique_id : ServerText
  getting_uncommitted_lbids setting_hwm setting_extents_max_min in_vb_rollback : ServerText
  committing_version_buffer committing_brm rolling_back_brm taking_brm_snapshot : ServerText
  changing_lock_state releasing_table_lock getting_lock_info getting_all_locks : ServerText
  setting_keep_alive : ServerText
  already_locked : ℕ → List ℕ → ℕ → ℕ → ServerText
  no_lock_found : ℕ → ServerText

-- The exceptions; `thrown_below` is a ColumnStoreNetworkError that a call of ColumnStoreNetwork
-- throws, whose text is not kept.
pub data Failure : Type 0 where
  buffer_error thrown_below : Failure
  network_error : ErrMsg → Failure
  server_error : ServerText → Failure

pub data Result (A : Type 0) : Type 0 where
  ok : A → Result A
  failed : Failure → Result A

abbrev pub Reader : Type 0 → Type 0
Reader A = Network → Network × Result A

abbrev pub pure : {A : Type 0} → A → Reader A
pure a n = (n, Result.ok a)

abbrev pub throw : {A : Type 0} → Failure → Reader A
throw e n = (n, Result.failed e)

-- What follows a step: an exception ends the series.
unfoldable pub and_do : {A B : Type 0} → Network × Result A → (A → Reader B) → Network × Result B
and_do (n, Result.ok a) f = f a n
and_do (n, Result.failed e) f = (n, Result.failed e)

infixl 5 ◌>>=◌
infixl 5 ◌>>◌
abbrev pub ◌>>=◌ : {A B : Type 0} → Reader A → (A → Reader B) → Reader B
◌>>=◌ r f n = and_do (r n) f

abbrev pub ◌>>◌ : {A B : Type 0} → Reader A → Reader B → Reader B
r >> k = r >>= λ _. k

-- `*messageOut >> value`
unfoldable pub of_read : {A : Type 0} → Network → Messaging × Option A → Network × Result A
of_read n (m, none) = (record n { message_out = m }, Result.failed buffer_error)
of_read n (m, some a) = (record n { message_out = m }, Result.ok a)

unfoldable pub read_word : ℕ → Reader ℕ
unfolding get_word of_read
read_word k n = of_read n (get_word k n.message_out)

abbrev pub read_u8 : Reader ℕ
read_u8 = read_word 1

abbrev pub read_u32 : Reader ℕ
read_u32 = read_word 4

abbrev pub read_u64 : Reader ℕ
read_u64 = read_word 8

unfoldable pub read_str : Reader (List ℕ)
unfolding get_str of_read
read_str n = of_read n (get_str n.message_out)

-- deleteReadMessage
abbrev pub delete_message : Reader Unit
delete_message n = (delete_read_message n, Result.ok tt)

-- deleteReadMessage and a throw of ColumnStoreServerError.
unfoldable pub refuse : {A : Type 0} → ServerText → Reader A
unfolding and_do
refuse text = do delete_message; throw (server_error text)

-- `for (uint64_t i = 0; i < count; i++)` with a `push_back` for each round.
unfoldable pub read_many : {A : Type 0} → Reader A → ℕ → Reader (List A)
unfolding and_do
read_many r zero = pure []
read_many r (suc count) = do a ← r; as' ← read_many r count; pure (a ∷ as')

-- `if (response != 0)` with its body, `fail`.
unfoldable pub unless_zero : ℕ → Reader Unit → Reader Unit
unless_zero response fail = if response == 0 then pure tt else fail

-- A command: what is written into its message, and how the reply is read.
pub record Command (A : Type 0) : Type 0 where
  pub request : List Item
  pub reply : Reader A
