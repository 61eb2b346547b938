-- ===== src/Network/EndToEnd.antt =====
-- Values that one side writes into a message and sends, and that the other side reads.
use mariadb_columnstore_api.Prelude.{
  ℕ, ◌+◌, ◌^◌, ◌<◌, ◌≤◌, ◌≡◌, refl, sym, ap, ◌∙◌, ltb, List, [], ◌∷◌, ◌++◌, true, false, Bool-cases,
  ◌⊎◌, inl, inr, length, length-append, arith, All, some,
}
use mathlib.Core.List.{flatten, map, append-nil}
use mariadb_columnstore_api.Messaging.{Messaging, empty, skip_header, get_word, get_str, and_then}
use mariadb_columnstore_api.Messaging.Bytes.{to_le, length-to_le}
use mariadb_columnstore_api.Messaging.Encode.{Item, put_all, encode, encode_all, put_all-encodes}
use mariadb_columnstore_api.Messaging.Decode.{
  Kind, FitsType, get, get_all, kinds, kind_of, At, get_all-At,
}
use mariadb_columnstore_api.Network.{
  Network, Raised, UvStatus, send_data, deliver_all, read_data_start,
}
use mariadb_columnstore_api.Network.Sending.{send_data-frame, send_data-compressed}
use mariadb_columnstore_api.Network.Delivery.{Deliverable, bytes_of}
use mariadb_columnstore_api.Network.Packet.{Readable, read-plain, read-packed}
use mariadb_columnstore_api.Std.Compression.{Snappy, IsSnappy}

-- The first read skips the header, so it is a read at position 8.
unfoldable at_body : Messaging → Messaging
at_body m = record m { position = 8 }

get_word-at_body : (n : ℕ) (m : Messaging) → m.position ≡ 0 → get_word n m ≡ get_word n (at_body m)
unfolding get_word skip_header at_body
get_word-at_body n m start = ground (arith, start)

get-at_body : (k : Kind) (m : Messaging) → m.position ≡ 0 → get k m ≡ get k (at_body m)
unfolding get get_str
get-at_body Kind.as_u8 m start = rw (get_word-at_body 1 m start) refl
get-at_body Kind.as_u16 m start = rw (get_word-at_body 2 m start) refl
get-at_body Kind.as_u32 m start = rw (get_word-at_body 4 m start) refl
get-at_body Kind.as_u64 m start = rw (get_word-at_body 8 m start) refl
get-at_body Kind.as_str m start = rw (get_word-at_body 4 m start) refl

-- A message that was read from the network gives the values of its body.
Readable-get_all :
    (r : Network × Raised) (i : Item) (is : List Item)
    → All FitsType (i ∷ is)
    → Readable r (encode_all (i ∷ is))
    → (get_all (kinds (i ∷ is)) (r.0).message_out).1 ≡ some (i ∷ is)
unfolding get_all kinds at_body
Readable-get_all r i is fits h =
    let m = (r.0).message_out in
    let body = encode_all (i ∷ is) in
    let here : At (at_body m) h.front (body ++ []) h.junk = record {
      data_is = rw (append-nil body) h.data_is;
      position_is = sym h.front_is;
      used_is = rw (append-nil body) (omega (arith, h.used_is, h.front_is));
      behind_header = omega (arith, h.front_is);
    } in
    ap
      (λ x.
        (and_then x (λ j m'. and_then (get_all (kinds is) m') (λ js m''. (m'', some (j ∷ js))))).1)
      (get-at_body (kind_of i) m h.position_is)
    ∙ ap (λ x. x.1) (get_all-At (at_body m) h.front [] h.junk (i ∷ is) fits here)

pub encode-nonempty : (i : Item) → 0 < length (encode i)
unfolding encode
encode-nonempty (Item.u8 v) = omega (arith, length-to_le 1 v)
encode-nonempty (Item.u16 v) = omega (arith, length-to_le 2 v)
encode-nonempty (Item.u32 v) = omega (arith, length-to_le 4 v)
encode-nonempty (Item.u64 v) = omega (arith, length-to_le 8 v)
encode-nonempty (Item.str s) =
    omega (arith, length-to_le 4 (length s), length-append (to_le 4 (length s)) s)

-- Values that are written into a new message, at least one and each within its C++ type, and sent
-- by sendData are read back by the same types from the message of the connection that receives the
-- bytes, in whatever pieces libuv delivers them, each within the room that onAlloc was asked for.
-- The packet is shorter than 2^32 bytes, compressed or not, and the compression gives back what was
-- compressed.
pub send-receive :
    (snappy : Snappy)
    → IsSnappy snappy
    → (sender receiver : Network) (i : Item) (is : List Item) (written : UvStatus)
      (cs : List (ℕ × List ℕ))
    → let message = put_all empty (i ∷ is) in
      let body = encode_all (i ∷ is) in
      All FitsType (i ∷ is)
      → 8 + length body < 256 ^ 4
      → 8 + length (snappy.raw_compress body) < 256 ^ 4
      → All Deliverable cs
      → flatten (map bytes_of cs) ≡ flatten (send_data snappy sender message written).buffers
      → (get_all
          (kinds (i ∷ is))
          ((deliver_all snappy (read_data_start receiver UvStatus.success) cs).0).message_out).1
        ≡ some (i ∷ is)
unfolding encode_all
send-receive snappy law sender receiver i is written cs fits bound packed_bound delivered bytes =
    let message = put_all empty (i ∷ is) in
    let body = encode_all (i ∷ is) in
    let r = deliver_all snappy (read_data_start receiver UvStatus.success) cs in
    let some_bytes : 0 < length body =
      omega (arith, encode-nonempty i, length-append (encode i) (encode_all is)) in
    let holds = put_all-encodes i is in
    let plain : sender.is_localhost ≡ true ⊎ length body ≤ 504 → Readable r body = λ h.
      read-plain snappy receiver body cs some_bytes bound delivered
        (bytes ∙ send_data-frame snappy sender message body written h holds) in
    let packed : sender.is_localhost ≡ false → 504 < length body → Readable r body = λ remote long.
      read-packed snappy law receiver body cs (law.starts_with_length body) packed_bound delivered
        (bytes ∙ send_data-compressed snappy sender message body written remote long holds) in
    Readable-get_all r i is fits (elim (Bool-cases sender.is_localhost) [
      | inl local ↦ plain (inl local)
      | inr remote ↦ elim (Bool-cases (ltb 504 (length body))) [
        | inl long ↦ packed remote (ground (arith, long))
        | inr short ↦ plain (inr (ground (arith, short)))
      ]
    ])
