-- ===== src/Messaging.antt =====
-- ColumnStoreMessaging, of src/util_messaging.cpp and src/util_messaging.h: a buffer that is written
-- at its end and read at a position. Integers go by their bytes, lowest first, as on the machines
-- that the library is built for.
pub mod Bytes
pub mod Encode
pub mod Decode
pub mod Bounds
use mariadb_columnstore_api.Prelude.{
  ℕ, suc, ◌+◌, ◌-◌, ◌%◌, ◌^◌, List, [], ◌∷◌, ◌++◌, Bool, true, false, ◌&&◌, ltb, leb, ◌==◌,
  if◌then◌else◌, Option, none, some, length, take, drop, replicate,
}
use Bytes.{to_le, of_le, bytes_eq}

pub record Messaging : Type 0 where
  pub lengths : List ℕ
  pub network_data : List ℕ
  pub position : ℕ
  pub buffer_used : ℕ

abbrev pub header : ℕ
header = 0x14FBC137

abbrev pub compressed_header : ℕ
compressed_header = 0x14FBC138

-- The constructor.
abbrev pub empty : Messaging
empty = record { lengths = []; network_data = []; position = 0; buffer_used = 0 }

-- addHeader: the header, and four bytes for the length that is filled in when the message is sent.
unfoldable pub add_header : Messaging → Messaging
unfolding to_le
add_header m =
    if length m.network_data == 0
    then record m { network_data = to_le 4 header ++ replicate 4 0 }
    else m

-- `networkData.insert(end, ...)` and `lengths.push_back(...)`
abbrev pub append : Messaging → List ℕ → Messaging
append m bs = record m {
  network_data = m.network_data ++ bs;
  lengths = m.lengths ++ (length bs ∷ []);
}

-- operator << on integers of one, two, four and eight bytes.
unfoldable pub put_u8 : Messaging → ℕ → Messaging
unfolding add_header
put_u8 m v = append (add_header m) (to_le 1 v)

unfoldable pub put_u16 : Messaging → ℕ → Messaging
unfolding add_header
put_u16 m v = append (add_header m) (to_le 2 v)

unfoldable pub put_u32 : Messaging → ℕ → Messaging
unfolding add_header
put_u32 m v = append (add_header m) (to_le 4 v)

unfoldable pub put_u64 : Messaging → ℕ → Messaging
unfolding add_header
put_u64 m v = append (add_header m) (to_le 8 v)

-- operator << on a string: four bytes of length, then the bytes.
unfoldable pub put_str : Messaging → List ℕ → Messaging
unfolding add_header
put_str m s = append (append (add_header m) (to_le 4 (length s))) s

-- The first read skips the header.
unfoldable pub skip_header : Messaging → Messaging
skip_header m = if m.position == 0 then record m { position = m.position + 8 } else m

-- The bytes that `memcpy` takes at the position.
abbrev pub at_position : Messaging → ℕ → List ℕ
at_position m n = take n (drop m.position m.network_data)

-- operator >> on integers: `none` is ColumnStoreBufferError. `n` is the size of the type.
unfoldable pub get_word : ℕ → Messaging → Messaging × Option ℕ
unfolding skip_header
get_word n m =
    let m' = skip_header m in
    if leb (m'.position + n) m'.buffer_used
    then (record m' { position = m'.position + n }, some (of_le (at_position m' n)))
    else (m', none)

-- The four instances.
abbrev pub get_u8 : Messaging → Messaging × Option ℕ
get_u8 = get_word 1

abbrev pub get_u16 : Messaging → Messaging × Option ℕ
get_u16 = get_word 2

abbrev pub get_u32 : Messaging → Messaging × Option ℕ
get_u32 = get_word 4

abbrev pub get_u64 : Messaging → Messaging × Option ℕ
get_u64 = get_word 8

-- The body of operator >> on a string behind its length.
unfoldable pub get_bytes : Messaging → ℕ → Messaging × Option (List ℕ)
get_bytes m len =
    if leb (m.position + len) m.buffer_used
    then (record m { position = m.position + len }, some (at_position m len))
    else (m, none)

-- A second read behind a first one: a ColumnStoreBufferError of the first ends both.
unfoldable pub and_then :
    {A : Type 0}
    → {B : Type 0} → Messaging × Option A
    → (A → Messaging → Messaging × Option B)
    → Messaging × Option B
and_then (m, none) f = (m, none)
and_then (m, some a) f = f a m

-- operator >> on a string.
unfoldable pub get_str : Messaging → Messaging × Option (List ℕ)
unfolding get_word get_bytes and_then
get_str m = and_then (get_word 4 m) (λ len m'. get_bytes m' len)

-- getDataLength
unfoldable pub get_data_length : Messaging → ℕ
get_data_length m =
    if ltb (length m.network_data) 8 then 0 else of_le (take 4 (drop 4 m.network_data))

-- isCompletePacket: the sum is one of `uint32_t`.
unfoldable pub is_complete_packet : Messaging → Bool
unfolding get_data_length
is_complete_packet m = ltb 8 m.buffer_used && (m.buffer_used == (get_data_length m + 8) % 2 ^ 32)

-- isCompressedHeader and isUncompressedHeader
unfoldable pub is_compressed_header : Messaging → Bool
is_compressed_header m =
    if is_complete_packet m
    then bytes_eq (take 4 m.network_data) (to_le 4 compressed_header)
    else false

unfoldable pub is_uncompressed_header : Messaging → Bool
is_uncompressed_header m =
    if is_complete_packet m then bytes_eq (take 4 m.network_data) (to_le 4 header) else false

-- allocateDataSize: `resize` fills with zeros.
unfoldable pub allocate_data_size : Messaging → ℕ → Messaging
allocate_data_size m size =
    if ltb (length m.network_data - m.buffer_used) size
    then record m { network_data = m.network_data ++ replicate size 0 }
    else m

-- clearData: the lengths and the position are left.
unfoldable pub clear_data : Messaging → Messaging
clear_data m = record m { network_data = []; buffer_used = 0 }

-- setBufferUsedSize
abbrev pub set_buffer_used_size : Messaging → ℕ → Messaging
set_buffer_used_size m size = record m { buffer_used = size }
