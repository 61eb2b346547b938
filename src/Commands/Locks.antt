-- ===== src/Commands/Locks.antt =====
-- The replies of brmGetTableLockInfo, brmGetAllTableLocks and brmGetTableLock, of
-- src/util_commands.cpp, as the server lays them out.
use mariadb_columnstore_api.Prelude.{
  ℕ, List, [], ◌∷◌, ◌++◌, length, arith, All, All-map, Option, none, some,
}
use mariadb_columnstore_api.Messaging.Encode.{Item, encode_all}
use mariadb_columnstore_api.Messaging.Decode.{FitsType}
use mariadb_columnstore_api.Commands.Reader.{
  Reader, Result, ServerText, Failure, ◌>>=◌, ◌>>◌, pure, read_word, read_many, delete_message,
  refuse,
}
use mariadb_columnstore_api.Commands.Gives.{
  Gives, Gave, Stands, bind-Gives, stop-Gives, pure-Gives, refuse-Gives,
}
use mariadb_columnstore_api.Commands.Steps.{
  then_u8, then_u32, then_u64, then_str, each, u32-Gives, read_many-Gives,
}
use mariadb_columnstore_api.Commands.Controller.{end_with, delete_pure-Gives, expect_ok-Gives}
use mariadb_columnstore_api.Commands.Tables.{
  TableLockInfo, read_lock, brm_get_table_lock_info, brm_get_all_table_locks,
}
use mariadb_columnstore_api.Network.{Network}
use Item.{u8, u32, u64, str}
use ServerText.{getting_lock_info, getting_all_locks, no_lock_found}

abbrev word_items : ℕ → List Item
word_items v = u32 v ∷ []

unfoldable pub lock_items : TableLockInfo → List Item
unfolding each
lock_items l =
    u64 l.id
    ∷ u32 l.table_oid
    ∷ str l.owner_name
    ∷ u32 l.owner_pid
    ∷ u32 l.owner_session_id
    ∷ u32 l.owner_txn_id
    ∷ u8 l.state
    ∷ u64 l.creation_time
    ∷ u64 (length l.dbroot_list)
    ∷ each word_items l.dbroot_list

-- A lock whose values fit the wire.
pub record IsLock (l : TableLockInfo) : Type 0 where
  pub id_fits : FitsType (u64 l.id)
  pub table_oid_fits : FitsType (u32 l.table_oid)
  pub owner_name_fits : FitsType (str l.owner_name)
  pub owner_pid_fits : FitsType (u32 l.owner_pid)
  pub owner_session_id_fits : FitsType (u32 l.owner_session_id)
  pub owner_txn_id_fits : FitsType (u32 l.owner_txn_id)
  pub state_fits : FitsType (u8 l.state)
  pub creation_time_fits : FitsType (u64 l.creation_time)
  pub count_fits : FitsType (u64 (length l.dbroot_list))
  pub dbroots_fit : All (λ r. FitsType (u32 r)) l.dbroot_list

read_word-Gives : (r : ℕ) → FitsType (u32 r) → Gives (read_word 4) (word_items r) (Result.ok r)
read_word-Gives r fits = u32-Gives r fits

read_lock-Gives : (l : TableLockInfo) → IsLock l → Gives read_lock (lock_items l) (Result.ok l)
unfolding read_lock lock_items
read_lock-Gives l h = then_u64 l.id _ h.id_fits (
    then_u32 l.table_oid _ h.table_oid_fits (
      then_str l.owner_name _ h.owner_name_fits (
        then_u32 l.owner_pid _ h.owner_pid_fits (
          then_u32 l.owner_session_id _ h.owner_session_id_fits (
            then_u32 l.owner_txn_id _ h.owner_txn_id_fits (
              then_u8 l.state _ h.state_fits (
                then_u64 l.creation_time _ h.creation_time_fits (
                  then_u64 (length l.dbroot_list) _ h.count_fits (
                    end_with (read_many (read_word 4) (length l.dbroot_list)) _
                      (each word_items l.dbroot_list) l.dbroot_list (Result.ok l)
                      (read_many-Gives (read_word 4) word_items l.dbroot_list
                        (All-map read_word-Gives l.dbroot_list h.dbroots_fit))
                      (pure-Gives l))))))))))

-- The reply of brmGetAllTableLocks.
unfoldable pub locks_items : List TableLockInfo → List Item
unfolding lock_items each
locks_items locks = u8 0 ∷ u64 (length locks) ∷ each lock_items locks

-- A reply of brmGetAllTableLocks that carries locks with their DBRoots, all within the types of the
-- wire, is read as these locks, put behind those that the vector held, whatever precedes and
-- follows the reply in the message; the status of the connection is kept.
pub brm_get_all_table_locks-Gave :
    (held locks : List TableLockInfo)
    → All IsLock locks
    → FitsType (u64 (length locks))
    → (n : Network) (front rest junk : List ℕ)
    → Stands n.message_out front (encode_all (locks_items locks) ++ rest) junk
    → Gave
        (brm_get_all_table_locks held).reply
        n
        front
        rest
        junk
        (locks_items locks)
        (Result.ok (held ++ locks))
unfolding brm_get_all_table_locks locks_items
brm_get_all_table_locks-Gave held locks fit count n front rest junk h =
    expect_ok-Gives getting_all_locks _ _ _
      (then_u64 (length locks) _ count (
        end_with (read_many read_lock (length locks)) _ (each lock_items locks) locks
          (Result.ok (held ++ locks))
          (read_many-Gives read_lock lock_items locks (All-map read_lock-Gives locks fit))
          (delete_pure-Gives (held ++ locks))))
      n front rest junk h

-- The reply of brmGetTableLockInfo: a byte that says whether there is the lock, and then the lock.
unfoldable pub info_items : Option TableLockInfo → List Item
unfolding lock_items
info_items none = u8 0 ∷ u8 0 ∷ []
info_items (some l) = u8 0 ∷ u8 1 ∷ lock_items l

-- What it comes to.
unfoldable pub info_result : ℕ → Option TableLockInfo → Result TableLockInfo
info_result lock_id none = Result.failed (Failure.server_error (no_lock_found lock_id))
info_result lock_id (some l) = Result.ok l

unfoldable pub IsInfo : Option TableLockInfo → Type 0
IsInfo none = Unit
IsInfo (some l) = IsLock l

-- What follows the check.
abbrev read_rest : Unit {0} → Reader TableLockInfo
read_rest _ = read_lock >>= λ lock. delete_message >> pure lock

table_lock_info-Gives :
    (lock_id : ℕ) (o : Option TableLockInfo)
    → IsInfo o
    → Gives (brm_get_table_lock_info lock_id).reply (info_items o) (info_result lock_id o)
unfolding brm_get_table_lock_info info_items info_result IsInfo
table_lock_info-Gives lock_id none h = expect_ok-Gives getting_lock_info _ _ _ (
    then_u8 0 _ (omega arith) (
      stop-Gives {A = Unit {0}} (refuse (no_lock_found lock_id)) read_rest [] _
        (refuse-Gives (no_lock_found lock_id))))
table_lock_info-Gives lock_id (some l) h = expect_ok-Gives getting_lock_info _ _ _ (
    then_u8 1 _ (omega arith) (
      bind-Gives (pure tt) read_rest [] (lock_items l) tt (Result.ok l) (pure-Gives tt) (
        end_with read_lock (λ k. delete_message >> pure k) (lock_items l) l (Result.ok l)
          (read_lock-Gives l h) (delete_pure-Gives l))))

-- brmGetTableLockInfo gives the lock with its DBRoots that the reply carries, all within the types of
-- the wire, and throws that there is no such lock where the reply says so, whatever precedes and
-- follows the reply in the message; the status of the connection is kept.
pub brm_get_table_lock_info-Gave :
    (lock_id : ℕ) (o : Option TableLockInfo)
    → IsInfo o
    → (n : Network) (front rest junk : List ℕ)
    → Stands n.message_out front (encode_all (info_items o) ++ rest) junk
    → Gave
        (brm_get_table_lock_info lock_id).reply
        n
        front
        rest
        junk
        (info_items o)
        (info_result lock_id o)
brm_get_table_lock_info-Gave lock_id o h n front rest junk stands =
    table_lock_info-Gives lock_id o h n front rest junk stands
