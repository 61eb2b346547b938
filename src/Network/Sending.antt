-- ===== src/Network/Sending.antt =====
-- What sendData gives uv_write.
use mariadb_columnstore_api.Prelude.{
  ℕ, ◌+◌, ◌-◌, ◌<◌, ◌≤◌, ◌≡◌, refl, ap, List, [], ◌∷◌, ◌++◌, ◌⊎◌, true, false, length,
  length-append, length-drop, take-drop, take, drop, arith,
}
use mathlib.Core.List.{flatten, append-nil}
use mariadb_columnstore_api.Messaging.{Messaging, header, compressed_header}
use mariadb_columnstore_api.Messaging.Bytes.{to_le}
use mariadb_columnstore_api.Messaging.Encode.{sum, prefix, Holds}
use mariadb_columnstore_api.Network.{
  Network, UvStatus, pieces, overwrite, send_data, send_compressed_data,
}
use mariadb_columnstore_api.Std.Compression.{Snappy}

-- The packet that goes over the wire: the header, the length of the body, and the body.
unfoldable pub frame : ℕ → List ℕ → List ℕ
unfolding to_le
frame h body = to_le 4 h ++ (to_le 4 (length body) ++ body)

-- Pieces whose lengths add up to the length of the data are the data in order.
flatten-pieces : (ls data' : List ℕ) → sum ls ≡ length data' → flatten (pieces ls data') ≡ data'
unfolding sum pieces flatten
flatten-pieces [] [] h = refl
flatten-pieces [] (b ∷ bs) h = ground arith
flatten-pieces (l ∷ ls) data' h =
    rw (flatten-pieces ls (drop l data') (omega (arith, length-drop l data'))) (take-drop l data')

-- The packet with its length filled in.
packet-frame :
    (m : Messaging) (body : List ℕ)
    → Holds m body
    → overwrite 4 (to_le 4 (length m.network_data - 8)) m.network_data ≡ frame header body
unfolding frame prefix overwrite to_le
packet-frame m body h = rw h.data_is (ap (λ k. to_le 4 header ++ (to_le 4 k ++ body)) (omega arith))

-- The buffers of a packet that is not compressed.
plain-frame :
    (m : Messaging) (body : List ℕ)
    → Holds m body
    → let packet = overwrite 4 (to_le 4 (length m.network_data - 8)) m.network_data in
      flatten (take 8 packet ∷ pieces m.lengths (drop 8 packet)) ≡ frame header body
unfolding flatten frame to_le
plain-frame m body h =
    rw (packet-frame m body h)
      (ap (λ bs. take 8 (frame header body) ++ bs) (flatten-pieces m.lengths body h.lengths_sum))

-- The buffers that sendData gives libuv for a message with a body, on the local host or when the
-- body has 504 bytes at most, are together the header, the length of the body in four bytes, and
-- the body.
pub send_data-frame :
    (snappy : Snappy) (n : Network) (m : Messaging) (body : List ℕ) (written : UvStatus)
    → n.is_localhost ≡ true ⊎ length body ≤ 504
    → Holds m body
    → flatten (send_data snappy n m written).buffers ≡ frame header body
unfolding send_data prefix
send_data-frame snappy n m body written plain h =
    let size : length m.network_data ≡ 8 + length body = rw h.data_is (length-append prefix body) in
    ground (arith, plain-frame m body h, size)

-- To another host, a message whose body has more than 504 bytes is sent as one buffer: the header
-- of compressed packets, the length of the compressed body in four bytes, and the compressed body.
pub send_data-compressed :
    (snappy : Snappy) (n : Network) (m : Messaging) (body : List ℕ) (written : UvStatus)
    → n.is_localhost ≡ false
    → 504 < length body
    → Holds m body
    → flatten (send_data snappy n m written).buffers
      ≡ frame compressed_header (snappy.raw_compress body)
unfolding send_data send_compressed_data flatten frame prefix
send_data-compressed snappy n m body written remote long h =
    let size : length m.network_data ≡ 8 + length body = rw h.data_is (length-append prefix body) in
    let tail : drop 8 m.network_data ≡ body = rw h.data_is refl in
    rw tail (ground (arith, size, append-nil (frame compressed_header (snappy.raw_compress body))))
