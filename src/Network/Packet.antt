-- ===== src/Network/Packet.antt =====
-- What a connection makes of a complete packet, and so of a packet that arrives in pieces.
use mariadb_columnstore_api.Prelude.{
  ℕ, ◌+◌, ◌-◌, ◌^◌, ◌<◌, ◌≡◌, refl, sym, ◌∙◌, List, [], ◌++◌, true, false, length, take, drop,
  take-append, arith, All, some,
}
use mathlib.Core.List.{flatten, append-nil, map}
use mariadb_columnstore_api.Messaging.{
  Messaging, header, compressed_header, is_complete_packet, is_uncompressed_header,
  is_compressed_header,
}
use mariadb_columnstore_api.Messaging.Bytes.{to_le, bytes_eq}
use mariadb_columnstore_api.Network.{
  Network, ConStatus, Raised, UvStatus, on_packet, deliver_all, read_data_start, read_compressed,
  uncompress_data,
}
use mariadb_columnstore_api.Network.Sending.{frame}
use mariadb_columnstore_api.Network.Reading.{Receiving, is_complete_packet-frame, length-frame}
use mariadb_columnstore_api.Network.Delivery.{Completed, Deliverable, bytes_of, rounds-Completed}
use mariadb_columnstore_api.Std.Compression.{Snappy, IsSnappy}
use Raised.{returned}

-- What the caller of readDataStart has in the end: the message holds the body behind eight bytes.
pub record Readable (r : Network × Raised) (body : List ℕ) : Type 0 where
  pub is_idle : (r.0).con_status ≡ ConStatus.idle
  pub is_returned : r.1 ≡ returned
  pub front : List ℕ
  pub junk : List ℕ
  pub front_is : length front ≡ 8
  pub data_is : (r.0).message_out.network_data ≡ front ++ (body ++ junk)
  pub used_is : (r.0).message_out.buffer_used ≡ 8 + length body
  pub position_is : (r.0).message_out.position ≡ 0

-- A new read has everything to come.
start-Receiving :
    (n : Network) (packet : List ℕ)
    → Receiving (read_data_start n UvStatus.success).0 packet [] packet
unfolding read_data_start
start-Receiving n packet = record {
  is_busy = refl;
  position_is = refl;
  counted_is = refl;
  junk = [];
  arrived = record { data_is = refl; used_is = refl; parts = refl };
}

-- The case that onReadData takes.
on_packet-uncompressed :
    (snappy : Snappy) (n : Network)
    → is_compressed_header n.message_out ≡ false
    → is_uncompressed_header n.message_out ≡ true
    → on_packet snappy n ≡ (record n { con_status = ConStatus.idle }, returned)
unfolding on_packet
on_packet-uncompressed snappy n compressed uncompressed = ground arith

on_packet-compressed :
    (snappy : Snappy) (n : Network)
    → is_compressed_header n.message_out ≡ true
    → on_packet snappy n ≡ read_compressed snappy (record n { con_status = ConStatus.idle })
unfolding on_packet
on_packet-compressed snappy n compressed = ground arith

-- The header of a message that starts with a packet.
header-frame :
    (m : Messaging) (h : ℕ) (body junk : List ℕ)
    → m.network_data ≡ frame h body ++ junk
    → take 4 m.network_data ≡ to_le 4 h
unfolding frame to_le
header-frame m h body junk data_is = rw data_is refl

frame-parts :
    (h : ℕ) (body junk : List ℕ) → frame h body ++ junk ≡ take 8 (frame h body) ++ (body ++ junk)
unfolding frame to_le
frame-parts h body junk = refl

frame-front : (h : ℕ) (body : List ℕ) → length (take 8 (frame h body)) ≡ 8
unfolding frame to_le
frame-front h body = refl

headers-differ : bytes_eq (to_le 4 header) (to_le 4 compressed_header) ≡ false
unfolding bytes_eq to_le
headers-differ = refl

headers-equal :
    (bytes_eq (to_le 4 header) (to_le 4 header) ≡ true)
    × (bytes_eq (to_le 4 compressed_header) (to_le 4 compressed_header) ≡ true)
unfolding bytes_eq to_le
headers-equal = (refl, refl)

on_packet-plain :
    (snappy : Snappy) (n : Network) (body : List ℕ)
    → Receiving n (frame header body) (frame header body) []
    → 0 < length body
    → 8 + length body < 256 ^ 4
    → Readable (on_packet snappy n) body
unfolding is_compressed_header is_uncompressed_header
on_packet-plain snappy n body r nonempty bound =
    let complete : is_complete_packet n.message_out ≡ true =
      is_complete_packet-frame n.message_out header body (frame header body) [] r.junk r.arrived
        nonempty bound in
    let start = header-frame n.message_out header body r.junk r.arrived.data_is in
    rw
      (on_packet-uncompressed snappy n (rw (complete, start) headers-differ)
        (rw (complete, start) (headers-equal.0)))
      record {
        is_idle = refl;
        is_returned = refl;
        front = take 8 (frame header body);
        junk = r.junk;
        front_is = frame-front header body;
        data_is = r.arrived.data_is ∙ frame-parts header body r.junk;
        used_is = r.arrived.used_is ∙ length-frame header body;
        position_is = r.position_is;
      }

-- The bytes that are uncompressed.
packed-frame :
    (n : Network) (h : ℕ) (body junk : List ℕ)
    → n.message_out.network_data ≡ frame h body ++ junk
    → n.data_in_buffer ≡ 8 + length body
    → take (n.data_in_buffer - 8) (drop 8 n.message_out.network_data) ≡ body
unfolding frame to_le
packed-frame n h body junk data_is size =
    let long : n.data_in_buffer - 8 ≡ length body = omega arith in
    rw (long, data_is) (take-append body junk)

-- The message that replaces a compressed one.
unfoldable unpacked : List ℕ → Messaging
unpacked body = record {
  lengths = [];
  network_data = frame header body;
  position = 0;
  buffer_used = length body + 8;
}

read_compressed-some :
    (snappy : Snappy) (n : Network) (body packed : List ℕ)
    → take (n.data_in_buffer - 8) (drop 8 n.message_out.network_data) ≡ packed
    → snappy.uncompressed_length packed ≡ some (length body)
    → snappy.raw_uncompress packed ≡ some body
    → read_compressed snappy n
      ≡ (record n { message_out = unpacked body; deleted = true }, returned)
unfolding read_compressed uncompress_data unpacked frame
read_compressed-some snappy n body packed is_packed size plain = ground arith

read_compressed-body :
    (snappy : Snappy)
    → IsSnappy snappy
    → (n : Network) (body : List ℕ)
    → take (n.data_in_buffer - 8) (drop 8 n.message_out.network_data) ≡ snappy.raw_compress body
    → n.con_status ≡ ConStatus.idle
    → Readable (read_compressed snappy n) body
unfolding unpacked
read_compressed-body snappy law n body packed idle =
    rw
      (read_compressed-some snappy n body (snappy.raw_compress body) packed (law.length_back body)
        (law.bytes_back body))
      record {
        is_idle = idle;
        is_returned = refl;
        front = take 8 (frame header body);
        junk = [];
        front_is = frame-front header body;
        data_is = sym (append-nil (frame header body)) ∙ frame-parts header body [];
        used_is = omega arith;
        position_is = refl;
      }

on_packet-packed :
    (snappy : Snappy)
    → IsSnappy snappy
    → (n : Network) (body : List ℕ)
    → let packed = snappy.raw_compress body in
      Receiving n (frame compressed_header packed) (frame compressed_header packed) []
      → 0 < length packed
      → 8 + length packed < 256 ^ 4
      → Readable (on_packet snappy n) body
unfolding is_compressed_header
on_packet-packed snappy law n body r nonempty bound =
    let packed = snappy.raw_compress body in
    let complete : is_complete_packet n.message_out ≡ true =
      is_complete_packet-frame n.message_out compressed_header packed
        (frame compressed_header packed) [] r.junk r.arrived nonempty bound in
    let start = header-frame n.message_out compressed_header packed r.junk r.arrived.data_is in
    rw (on_packet-compressed snappy n (rw (complete, start) (headers-equal.1))) (
      read_compressed-body snappy law (record n { con_status = ConStatus.idle }) body
        (packed-frame n compressed_header packed r.junk r.arrived.data_is
          (r.counted_is ∙ length-frame compressed_header packed))
        refl)

-- A read that a whole packet comes to.
completed :
    (snappy : Snappy) (n : Network) (h : ℕ) (body : List ℕ) (cs : List (ℕ × List ℕ))
    → 0 < length body
    → 8 + length body < 256 ^ 4
    → All Deliverable cs
    → flatten (map bytes_of cs) ≡ frame h body
    → Completed snappy ((read_data_start n UvStatus.success).0) cs (frame h body)
completed snappy n h body cs nonempty bound fits whole =
    let some_bytes : 0 < length (frame h body) = omega (arith, length-frame h body) in
    rounds-Completed snappy h body nonempty bound ((read_data_start n UvStatus.success).0) []
      (frame h body) cs (start-Receiving n (frame h body)) whole fits some_bytes

-- Whatever the pieces in which libuv delivers an uncompressed packet, each within the room that
-- onAlloc was asked for, the connection is idle after the last one, no exception was thrown, and
-- the message that the caller reads holds the body behind eight bytes. The body is not empty, and
-- the packet is shorter than 2^32 bytes.
pub read-plain :
    (snappy : Snappy) (n : Network) (body : List ℕ) (cs : List (ℕ × List ℕ))
    → 0 < length body
    → 8 + length body < 256 ^ 4
    → All Deliverable cs
    → flatten (map bytes_of cs) ≡ frame header body
    → Readable (deliver_all snappy (read_data_start n UvStatus.success) cs) body
unfolding read_data_start
read-plain snappy n body cs nonempty bound fits whole =
    let c = completed snappy n header body cs nonempty bound fits whole in
    rw c.outcome (on_packet-plain snappy c.whole body c.receiving nonempty bound)

-- Whatever the pieces in which libuv delivers a compressed packet, each within the room that
-- onAlloc was asked for, the connection is idle after the last one, no exception was thrown, and
-- the message that the caller reads holds the uncompressed body behind eight bytes. The compressed
-- body is not empty and its packet is shorter than 2^32 bytes; the compression gives back what was
-- compressed.
pub read-packed :
    (snappy : Snappy)
    → IsSnappy snappy
    → (n : Network) (body : List ℕ) (cs : List (ℕ × List ℕ))
    → let packed = snappy.raw_compress body in
      0 < length packed
      → 8 + length packed < 256 ^ 4
      → All Deliverable cs
      → flatten (map bytes_of cs) ≡ frame compressed_header packed
      → Readable (deliver_all snappy (read_data_start n UvStatus.success) cs) body
unfolding read_data_start
read-packed snappy law n body cs nonempty bound fits whole =
    let packed = snappy.raw_compress body in
    let c = completed snappy n compressed_header packed cs nonempty bound fits whole in
    rw c.outcome (on_packet-packed snappy law c.whole body c.receiving nonempty bound)
