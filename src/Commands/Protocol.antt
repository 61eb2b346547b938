-- ===== src/Commands/Protocol.antt =====
-- How the servers read the requests of src/util_commands.cpp: the reverse of the writing of a request,
-- by the codes of columnstore_commands_t in src/util_commands.h, for each of the three ports.
use mariadb_columnstore_api.Prelude.{
  ℕ, zero, suc, List, [], ◌∷◌, Bool, true, false, not, ◌&&◌, ◌==◌, if◌then◌else◌, Option, none,
  some,
}
use mariadb_columnstore_api.Types.{Payload}
use mariadb_columnstore_api.Messaging.Encode.{Item}
use mariadb_columnstore_api.Bulk.Calls.{Call, Hwm}
use mariadb_columnstore_api.Commands.WriteEngine.{TableName}
use Item.{u8, u16, u32, u64, str}
use Payload.{byte, duobyte, quadbyte, octbyte, varbyte}

-- A call as a server understands it: a lock comes with its owner, process and time, and an insert with
-- the table, the number of rows and the cells of each column.
pub data Asked : Type 0 where
  plain : Call → Asked
  locking : ℕ → ℕ → ℕ → List ℕ → List ℕ → ℕ → ℕ → Asked
  inserting : ℕ → ℕ → ℕ → ℕ → TableName → ℕ → List (List (Bool × Payload)) → Asked

-- The server that a connection goes to.
pub data Port : Type 0 where
  write_engine : ℕ → Port
  controller process_monitor : Port

-- A part of a request, with what follows it.
abbrev pub Parser : Type 0 → Type 0
Parser A = List Item → Option (A × List Item)

unfoldable pub with_part :
    {A B : Type 0} → Option (A × List Item) → (A → List Item → Option B) → Option B
with_part none f = none
with_part (some (a, is)) f = f a is

-- A series of parts.
unfoldable pub many : {A : Type 0} → Parser A → ℕ → Parser (List A)
unfolding with_part
many p zero is = some ([], is)
many p (suc n) is =
    with_part (p is) (λ a is'. with_part (many p n is') (λ as' is''. some (a ∷ as', is'')))

-- A request whose constants are those of the protocol.
unfoldable pub checked : Bool → Asked → Option Asked
checked true a = some a
checked false a = none

unfoldable pub part_u32 : Parser ℕ
part_u32 (u32 v ∷ is) = some (v, is)
part_u32 _ = none

unfoldable pub part_u64 : Parser ℕ
part_u64 (u64 v ∷ is) = some (v, is)
part_u64 _ = none

unfoldable pub part_hwm : Parser Hwm
part_hwm (u32 oid ∷ u32 part_num ∷ u32 seg_num ∷ u32 hwm ∷ is) =
    some (record { oid = oid; part_num = part_num; seg_num = seg_num; hwm = hwm }, is)
part_hwm _ = none

-- A block whose extremes are invalid: the largest and the smallest `int64_t`, and no sequence number.
unfoldable pub part_extent : Parser ℕ
part_extent (u64 lbid ∷ u64 max ∷ u64 min ∷ u64 sequence ∷ is) =
    if (max == 0x8000000000000000)
      && (min == 0x7FFFFFFFFFFFFFFF)
      && (sequence == 0xFFFFFFFFFFFFFFFF)
    then some (lbid, is)
    else none
part_extent _ = none

unfoldable pub part_column : Parser (ℕ × List ℕ)
part_column (u32 oid ∷ str name ∷ is) = some ((oid, name), is)
part_column _ = none

unfoldable pub payload_of : Item → Payload
payload_of (u8 v) = byte v
payload_of (u16 v) = duobyte v
payload_of (u32 v) = quadbyte v
payload_of (u64 v) = octbyte v
payload_of (str s) = varbyte s

unfoldable pub part_cell : Parser (Bool × Payload)
unfolding payload_of
part_cell (u8 null ∷ i ∷ is) = some ((not (null == 0), payload_of i), is)
part_cell _ = none

-- The end of a request.
unfoldable pub ended : {A : Type 0} → A → List Item → Option A
ended a [] = some a
ended a (i ∷ is) = none
