-- ===== src/Commands/Completion.antt =====
-- A command whose connection works ends with what its reply says.
use mariadb_columnstore_api.Prelude.{
  ℕ, ◌+◌, ◌^◌, ◌<◌, ◌≡◌, refl, sym, ap, ◌∙◌, List, [], ◌∷◌, Option, some, length, All, arith,
}
use mathlib.Core.List.{flatten, map}
use mariadb_columnstore_api.Std.Compression.{Snappy, IsSnappy}
use mariadb_columnstore_api.Messaging.{Messaging, empty, header, compressed_header, skip_header}
use mariadb_columnstore_api.Messaging.Encode.{Item, put_all, encode_all}
use mariadb_columnstore_api.Network.{
  Network, ConStatus, Raised, UvStatus, send_data, send_compressed_data, write_data,
  read_data_start, on_write_data, deliver_all,
}
use mariadb_columnstore_api.Network.Sending.{frame}
use mariadb_columnstore_api.Network.Delivery.{Deliverable, bytes_of}
use mariadb_columnstore_api.Network.Packet.{Readable, read-plain, read-packed}
use mariadb_columnstore_api.Commands.Reader.{Result, Command}
use mariadb_columnstore_api.Commands.Gives.{Stands}
use mariadb_columnstore_api.Commands.Finishes.{Finishes}
use mariadb_columnstore_api.Commands.Loops.{Turn, settled, stop_or, end_round, run_solo_loop}
use mariadb_columnstore_api.Commands.Exchange.{
  Line, waited, unless_raised, request_packet, read_reply, send_request, exchange,
}
use Raised.{returned}

-- The bytes of a packet with a body, plain or compressed, of less than 2^32 bytes.
pub data Carries (snappy : Snappy) (body bytes : List ℕ) : Type 0 where
  plainly :
      0 < length body
      → 8 + length body < 256 ^ 4
      → bytes ≡ frame header body
      → Carries snappy body bytes
  packed :
      0 < length (snappy.raw_compress body)
      → 8 + length (snappy.raw_compress body) < 256 ^ 4
      → bytes ≡ frame compressed_header (snappy.raw_compress body)
      → Carries snappy body bytes

-- A connection that reads a packet has its body.
Carries-Readable :
    (snappy : Snappy)
    → IsSnappy snappy
    → (n : Network) (body : List ℕ) (cs : List (ℕ × List ℕ)) → All Deliverable cs
    → Carries snappy body (flatten (map bytes_of cs))
    → Readable (deliver_all snappy (read_data_start n UvStatus.success) cs) body
Carries-Readable snappy law n body cs fits (plainly nonempty bound bytes) =
    read-plain snappy n body cs nonempty bound fits bytes
Carries-Readable snappy law n body cs fits (packed nonempty bound bytes) =
    read-packed snappy law n body cs nonempty bound fits bytes

-- The first read of it stands behind the header.
skip_header-start : (m : Messaging) → m.position ≡ 0 → skip_header m ≡ record m { position = 8 }
unfolding skip_header
skip_header-start m h = ground arith

Readable-Stands :
    (r : Network × Raised) (body : List ℕ) (h : Readable r body)
    → Stands (r.0).message_out h.front body h.junk
Readable-Stands r body h = rw (skip_header-start (r.0).message_out h.position_is) record {
  data_is = h.data_is;
  position_is = sym h.front_is;
  used_is = omega (arith, h.used_is, h.front_is);
  behind_header = omega (arith, h.front_is);
}

-- A turn that leaves the connection idle ends the wait.
run_solo_loop-idle :
    (turn : Turn) (turns : List Turn) (n : Network)
    → (turn n).1 ≡ returned
    → (turn n).0.con_status ≡ ConStatus.idle
    → run_solo_loop (turn ∷ turns) n ≡ some ((turn n).0, Result.ok tt)
unfolding run_solo_loop end_round stop_or settled
run_solo_loop-idle turn turns n quiet idle = ground (arith, quiet, idle)

-- What a command ends with.
pub record Completes {A : Type 0} (o : Option (Network × Result A)) (result : Result A)
    : Type 0 where
  pub after : Network
  pub outcome : o ≡ some (after, result)
  pub is_idle : after.con_status ≡ ConStatus.idle

-- A line whose writes and reads go through: whatever connects it, the message is written, and the
-- reply comes in the pieces `cs`.
unfoldable pub working : Snappy → List Turn → List (ℕ × List ℕ) → Line
unfolding on_write_data deliver_all
working snappy connecting cs = record {
  connecting = connecting;
  written = UvStatus.success;
  writing = (λ n. (on_write_data n UvStatus.success, returned)) ∷ [];
  started = UvStatus.success;
  reading = (λ n. deliver_all snappy (n, returned) cs) ∷ [];
}

unless_raised-returned :
    {A : Type 0} (r : Network × Raised) (f : Network → Option (Network × Result A))
    → r.1 ≡ returned
    → unless_raised r f ≡ f r.0
unfolding unless_raised
unless_raised-returned (n, Raised.returned) f h = refl
unless_raised-returned (n, Raised.network_error) f h = ground (arith, h)

send_data-returned :
    (snappy : Snappy) (n : Network) (m : Messaging)
    → (send_data snappy n m UvStatus.success).result.1 ≡ returned
unfolding send_data send_compressed_data write_data
send_data-returned snappy n m = ground arith

-- The message goes out.
sends :
    {A : Type 0} (snappy : Snappy) (n : Network) (m : Messaging)
    (f : Network → Option (Network × Result A))
    → unless_raised (send_data snappy n m UvStatus.success).result f
      ≡ f (send_data snappy n m UvStatus.success).result.0
sends snappy n m f = unless_raised-returned _ f (send_data-returned snappy n m)

writes :
    {A : Type 0} (n : Network) (f : Network → Option (Network × Result A))
    → waited (run_solo_loop ((λ n. (on_write_data n UvStatus.success, returned)) ∷ []) n) f
      ≡ f (on_write_data n UvStatus.success)
unfolding waited on_write_data
writes n f = ap (λ o. waited o f) (run_solo_loop-idle _ [] n refl refl)

-- The reply comes in and is read.
reads :
    {A : Type 0} (snappy : Snappy) (n : Network) (body : List ℕ) (cs : List (ℕ × List ℕ))
    (f : Network → Option (Network × Result A))
    → Readable (deliver_all snappy (read_data_start n UvStatus.success) cs) body
    → unless_raised
        (read_data_start n UvStatus.success)
        (λ n4. waited (run_solo_loop ((λ n. deliver_all snappy (n, returned) cs) ∷ []) n4) f)
      ≡ f (deliver_all snappy (read_data_start n UvStatus.success) cs).0
unfolding read_data_start unless_raised waited
reads snappy n body cs f h =
    ap (λ o. waited o f) (run_solo_loop-idle _ [] _ h.is_returned h.is_idle)

-- A command on a connection that the first wait leaves idle, whose message is written and whose
-- reply is a packet that holds the bytes of a series of values, plain or compressed and in whatever
-- pieces it comes, each within the room that onAlloc was asked for, returns or throws as its reader
-- does on these values, and leaves the connection idle. The compression gives back what was
-- compressed.
pub exchange-Completes :
    {A : Type 0} (snappy : Snappy)
    → IsSnappy snappy
    → (connecting : List Turn) (n : Network) (c : Command A) (is : List Item) (result : Result A)
      (cs : List (ℕ × List ℕ))
    → Completes (run_solo_loop connecting n) (Result.ok tt)
    → All Deliverable cs
    → Carries snappy (encode_all is) (flatten (map bytes_of cs))
    → Finishes c.reply is result
    → Completes (exchange snappy (working snappy connecting cs) c n) result
unfolding exchange send_request request_packet read_reply working waited
exchange-Completes {A = A} snappy law connecting n c is result cs connected fits bytes gives =
    let line = working snappy connecting cs in
    let wrote : Network → Option (Network × Result A) =
      λ n'. waited (run_solo_loop line.writing n') (read_reply line c) in
    let n2 =
      (send_data snappy connected.after (put_all empty c.request) UvStatus.success).result.0 in
    let n3 = on_write_data n2 UvStatus.success in
    let r = deliver_all snappy (read_data_start n3 UvStatus.success) cs in
    let readable = Carries-Readable snappy law n3 (encode_all is) cs fits bytes in
    let gave =
      gives r.0 readable.front readable.junk (Readable-Stands r (encode_all is) readable) in
    record {
      after = gave.after;
      outcome =
          ap (λ o. waited o (send_request snappy line c)) connected.outcome
          ∙ sends snappy connected.after (put_all empty c.request) wrote
          ∙ writes n2 (read_reply line c)
          ∙ reads snappy n3 (encode_all is) cs (λ n5. some (c.reply n5)) readable
          ∙ ap some gave.outcome;
      is_idle = gave.status_is ∙ readable.is_idle;
    }
