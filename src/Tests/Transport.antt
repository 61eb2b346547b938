-- ===== src/Tests/Transport.antt =====
-- Runs of messages and of the network.
use mariadb_columnstore_api.Prelude.{
  ℕ, ◌<◌, ◌+◌, ◌^◌, ◌≡◌, refl, List, [], ◌∷◌, ◌++◌, length, replicate, arith, true, false, some,
  All,
}
use mathlib.Core.List.{flatten, map}
use mariadb_columnstore_api.Messaging.{
  Messaging, header, compressed_header, empty, put_u8, put_u32, put_str, add_header,
}
use mariadb_columnstore_api.Messaging.Bytes.{to_le}
use mariadb_columnstore_api.Messaging.Encode.{Item, put, put_all, encode, encode_all}
use mariadb_columnstore_api.Messaging.Decode.{FitsType, Kind, get, get_all, kinds}
use mariadb_columnstore_api.Messaging.Bounds.{Within, get-Within}
use mariadb_columnstore_api.Network.{
  Network, ConStatus, ErrMsg, UvStatus, send_data, deliver_all, read_data_start, pieces, overwrite,
}
use mariadb_columnstore_api.Network.Sending.{frame}
use mariadb_columnstore_api.Network.Delivery.{Deliverable, bytes_of}
use mariadb_columnstore_api.Network.Packet.{Readable, read-plain, read-packed}
use mariadb_columnstore_api.Network.EndToEnd.{send-receive}
use mariadb_columnstore_api.Tests.Fixtures.{marker, marker-IsSnappy}
use Item.{u8, u32, str}
use UvStatus.{success}

abbrev pub local : Network
local = record {
  con_status = ConStatus.idle;
  message_out = empty;
  deleted = false;
  data_in_buffer = 0;
  is_localhost = true;
  err_msg = ErrMsg.no_message;
}

abbrev remote : Network
remote = record local { is_localhost = false }

abbrev later_items : List Item
later_items = u32 300 ∷ str (65 ∷ 66 ∷ []) ∷ []

abbrev body : List ℕ
body = 7 ∷ 44 ∷ 1 ∷ 0 ∷ 0 ∷ 2 ∷ 0 ∷ 0 ∷ 0 ∷ 65 ∷ 66 ∷ []

items_fit : All FitsType (u8 7 ∷ later_items)
items_fit = ground arith

abbrev received : Messaging
received = record {
  lengths = [];
  network_data = replicate 8 0 ++ (body ++ (9 ∷ []));
  position = 8;
  buffer_used = 19;
}

get-Within_example : Within received (get Kind.as_u8 received)
get-Within_example = get-Within Kind.as_u8 received

-- The packet of one byte, in two pieces.
abbrev chunks : List (ℕ × List ℕ)
chunks = (64, 0x37 ∷ 0xC1 ∷ 0xFB ∷ []) ∷ (64, 0x14 ∷ 1 ∷ 0 ∷ 0 ∷ 0 ∷ 5 ∷ []) ∷ []

chunks_fit : All Deliverable chunks
chunks_fit = ground arith

chunks_whole : flatten (map bytes_of chunks) ≡ frame header (5 ∷ [])
unfolding flatten bytes_of frame to_le
chunks_whole = refl

read-plain_example : Readable (deliver_all marker (read_data_start local success) chunks) (5 ∷ [])
read-plain_example =
    read-plain marker local (5 ∷ []) chunks (omega arith) (omega arith) chunks_fit chunks_whole

abbrev packed_chunks : List (ℕ × List ℕ)
packed_chunks = (64, 0x38 ∷ 0xC1 ∷ 0xFB ∷ []) ∷ (64, 0x14 ∷ 2 ∷ 0 ∷ 0 ∷ 0 ∷ 7 ∷ 5 ∷ []) ∷ []

packed_chunks_fit : All Deliverable packed_chunks
packed_chunks_fit = ground arith

packed_chunks_whole :
    flatten (map bytes_of packed_chunks) ≡ frame compressed_header (marker.raw_compress (5 ∷ []))
unfolding flatten bytes_of frame to_le marker
packed_chunks_whole = refl

packed_nonempty : 0 < length (marker.raw_compress (5 ∷ []))
unfolding marker
packed_nonempty = omega arith

packed_bound : 8 + length (marker.raw_compress (5 ∷ [])) < 256 ^ 4
unfolding marker
packed_bound = omega arith

read-packed_example :
    Readable (deliver_all marker (read_data_start remote success) packed_chunks) (5 ∷ [])
read-packed_example =
    read-packed marker marker-IsSnappy remote (5 ∷ []) packed_chunks packed_nonempty packed_bound
      packed_chunks_fit packed_chunks_whole

-- The packet that `local` sends, in one piece.
abbrev sent_chunks : List (ℕ × List ℕ)
sent_chunks = (64, 0x37 ∷ 0xC1 ∷ 0xFB ∷ 0x14 ∷ 11 ∷ 0 ∷ 0 ∷ 0 ∷ body) ∷ []

sent_chunks_whole :
    flatten (map bytes_of sent_chunks)
    ≡ flatten (send_data marker local (put_all empty (u8 7 ∷ later_items)) success).buffers
unfolding flatten bytes_of send_data put_all put put_u8 put_u32 put_str add_header to_le overwrite
    pieces
sent_chunks_whole = refl

sent_chunks_fit : All Deliverable sent_chunks
sent_chunks_fit = ground arith

sent_bound : 8 + length (encode_all (u8 7 ∷ later_items)) < 256 ^ 4
unfolding encode_all encode to_le
sent_bound = omega arith

sent_packed_bound : 8 + length (marker.raw_compress (encode_all (u8 7 ∷ later_items))) < 256 ^ 4
unfolding encode_all encode to_le marker
sent_packed_bound = omega arith

send-receive_example :
    (get_all
      (kinds (u8 7 ∷ later_items))
      ((deliver_all marker (read_data_start remote success) sent_chunks).0).message_out).1
    ≡ some (u8 7 ∷ later_items)
send-receive_example =
    send-receive marker marker-IsSnappy local remote (u8 7) later_items success sent_chunks
      items_fit sent_bound sent_packed_bound sent_chunks_fit sent_chunks_whole
