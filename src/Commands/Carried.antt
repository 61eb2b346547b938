-- ===== src/Commands/Carried.antt =====
-- The message of a command of src/util_commands.cpp is sent as a packet with the values of its request.
use mariadb_columnstore_api.Prelude.{
  ◌+◌, ◌^◌, ◌<◌, ◌≡◌, List, [], ◌∷◌, some, length, length-append, ltb, arith, Bool-cases, inl, inr,
}
use mathlib.Core.List.{flatten}
use mariadb_columnstore_api.Std.Compression.{Snappy, IsSnappy}
use mariadb_columnstore_api.Messaging.{empty}
use mariadb_columnstore_api.Messaging.Encode.{Item, put_all, encode, encode_all, put_all-encodes}
use mariadb_columnstore_api.Network.{Network, UvStatus, send_data}
use mariadb_columnstore_api.Network.Sending.{send_data-frame, send_data-compressed}
use mariadb_columnstore_api.Network.EndToEnd.{encode-nonempty}
use mariadb_columnstore_api.Commands.Completion.{Carries, plainly, packed}
use mariadb_columnstore_api.Commands.Protocol.{
  Asked, Port, write_engine, controller, process_monitor,
}
use mariadb_columnstore_api.Commands.Servers.{by_code, understood}

module _ (snappy : Snappy) (law : IsSnappy snappy) (n : Network) (written : UvStatus) where
  some_items-Carries :
      (i : Item) (is : List Item)
      → 8 + length (encode_all (i ∷ is)) < 256 ^ 4
      → 8 + length (snappy.raw_compress (encode_all (i ∷ is))) < 256 ^ 4
      → Carries snappy
          (encode_all (i ∷ is))
          (flatten (send_data snappy n (put_all empty (i ∷ is)) written).buffers)
  unfolding encode_all
  some_items-Carries i is bound packed_bound =
      let message = put_all empty (i ∷ is) in
      let body = encode_all (i ∷ is) in
      let some_bytes : 0 < length body =
        omega (arith, encode-nonempty i, length-append (encode i) (encode_all is)) in
      let holds = put_all-encodes i is in
      elim (Bool-cases n.is_localhost) [
        | inl local ↦
            plainly some_bytes bound
              (send_data-frame snappy n message body written (inl local) holds)
        | inr remote ↦ elim (Bool-cases (ltb 504 (length body))) [
          | inl long ↦ packed (law.starts_with_length body) packed_bound (
              send_data-compressed snappy n message body written remote (ground (arith, long))
                holds)
          | inr short ↦
              plainly some_bytes bound
                (send_data-frame snappy n message body written (inr (ground (arith, short))) holds)
        ]
      ]

  -- What a server understands has values, which are sent.
  pub understood-Carries :
      (p : Port) (a : Asked) (is : List Item)
      → understood p is ≡ some a
      → 8 + length (encode_all is) < 256 ^ 4
      → 8 + length (snappy.raw_compress (encode_all is)) < 256 ^ 4
      → Carries snappy
          (encode_all is)
          (flatten (send_data snappy n (put_all empty is) written).buffers)
  unfolding understood by_code
  understood-Carries (write_engine pm) a [] e bound packed_bound = ground (arith, e)
  understood-Carries controller a [] e bound packed_bound = ground (arith, e)
  understood-Carries process_monitor a [] e bound packed_bound = ground (arith, e)
  understood-Carries p a (i ∷ is) e bound packed_bound = some_items-Carries i is bound packed_bound
