-- ===== src/Network/Reading.antt =====
-- What a connection has read, when a packet arrives in pieces.
use mariadb_columnstore_api.Prelude.{
  ℕ, zero, suc, ◌+◌, ◌-◌, ◌^◌, ◌<◌, ◌≤◌, ◌≡◌, refl, sym, ap, ◌∙◌, ◌==◌, List, [], ◌∷◌, ◌++◌, true,
  length, length-append, length-replicate, drop-beyond, ltb, leb, if◌then◌else◌, take, drop,
  take-append, replicate, arith,
}
use mathlib.Core.List.{append_assoc, append-nil}
use mariadb_columnstore_api.Messaging.{
  Messaging, get_data_length, is_complete_packet, allocate_data_size,
}
use mariadb_columnstore_api.Messaging.Bytes.{to_le, of_le, of_le-to_le}
use mariadb_columnstore_api.Network.{Network, ConStatus, counted, on_alloc, store, overwrite}
use mariadb_columnstore_api.Network.Sending.{frame}

-- A part of a list does not depend on what follows the part.
window :
    (a b : ℕ) (xs ys zs : List ℕ)
    → a + b ≤ length xs
    → take b (drop a (xs ++ ys)) ≡ take b (drop a (xs ++ zs))
window zero zero xs ys zs h = refl
window zero (suc b) [] ys zs h = ground arith
window zero (suc b) (x ∷ xs) ys zs h = ap (◌∷◌ x) (window zero b xs ys zs (omega arith))
window (suc a) b [] ys zs h = ground arith
window (suc a) b (x ∷ xs) ys zs h = window a b xs ys zs (omega arith)

pub length-frame : (h : ℕ) (body : List ℕ) → length (frame h body) ≡ 8 + length body
unfolding frame to_le
length-frame h body = omega arith

field-frame : (h : ℕ) (body : List ℕ) → take 4 (drop 4 (frame h body)) ≡ to_le 4 (length body)
unfolding frame to_le
field-frame h body = refl

-- The length field of a message that has its first eight bytes.
data_length-frame :
    (m : Messaging) (h : ℕ) (body got more junk : List ℕ)
    → m.network_data ≡ got ++ junk
    → got ++ more ≡ frame h body
    → 8 ≤ length got
    → length body < 256 ^ 4
    → get_data_length m ≡ length body
unfolding get_data_length
data_length-frame m h body got more junk data_is parts long fits =
    let field : take 4 (drop 4 m.network_data) ≡ to_le 4 (length body) =
      ap (λ d. take 4 (drop 4 d)) data_is
      ∙ window 4 4 got junk more long
      ∙ ap (λ d. take 4 (drop 4 d)) parts
      ∙ field-frame h body in
    let value : of_le (take 4 (drop 4 m.network_data)) ≡ length body =
      ap of_le field ∙ of_le-to_le 4 (length body) fits in
    let size : 8 ≤ length m.network_data = rw data_is (omega (arith, length-append got junk)) in
    ground (arith, value, size)

-- What a message holds of a packet: `got`, with `more` to come.
pub record Arrived (m : Messaging) (packet got more junk : List ℕ) : Type 0 where
  pub data_is : m.network_data ≡ got ++ junk
  pub used_is : m.buffer_used ≡ length got
  pub parts : got ++ more ≡ packet

-- A message that holds the first bytes of a packet, followed by anything, is complete exactly when
-- nothing of the packet is to come. The body is not empty and the packet is shorter than 2^32
-- bytes.
pub is_complete_packet-frame :
    (m : Messaging) (h : ℕ) (body got more junk : List ℕ)
    → Arrived m (frame h body) got more junk
    → 0 < length body
    → 8 + length body < 256 ^ 4
    → is_complete_packet m ≡ (length more == 0)
unfolding is_complete_packet
is_complete_packet-frame m h body got more junk a nonempty fits =
    let total : length got + length more ≡ 8 + length body =
      sym (length-append got more) ∙ ap length a.parts ∙ length-frame h body in
    let value : 8 ≤ length got → get_data_length m ≡ length body =
      λ long. data_length-frame m h body got more junk a.data_is a.parts long (omega arith) in
    let used = a.used_is in ground (arith, value, total, used)

-- A connection that reads: `got` is in its message, with `more` to come.
pub record Receiving (n : Network) (packet got more : List ℕ) : Type 0 where
  pub is_busy : n.con_status ≡ ConStatus.busy
  pub position_is : n.message_out.position ≡ 0
  pub counted_is : n.data_in_buffer ≡ length got
  pub junk : List ℕ
  pub arrived : Arrived n.message_out packet got more junk

-- The room that allocateDataSize adds.
unfoldable pub extra : Messaging → ℕ → List ℕ
extra m s = if ltb (length m.network_data - m.buffer_used) s then replicate s 0 else []

pub allocate-extra :
    (m : Messaging) (s : ℕ)
    → allocate_data_size m s ≡ record m { network_data = m.network_data ++ extra m s }
unfolding allocate_data_size extra
allocate-extra m s = ground (arith, append-nil m.network_data)

-- onAlloc gives as much room as it is asked for.
pub extra-room :
    (m : Messaging) (s : ℕ)
    → m.buffer_used ≤ length m.network_data
    → s ≤ length (m.network_data ++ extra m s) - m.buffer_used
unfolding extra
extra-room m s used =
    let filled : length (replicate {A = ℕ} s 0) ≡ s = length-replicate s 0 in
    rw (length-append m.network_data (extra m s)) (ground (arith, filled))

-- onAlloc leaves what was read.
pub on_alloc-Receiving :
    (n : Network) (packet got more : List ℕ) (s : ℕ)
    → Receiving n packet got more
    → Receiving (on_alloc n s) packet got more
unfolding on_alloc
on_alloc-Receiving n packet got more s r = rw (allocate-extra n.message_out s) record {
  is_busy = r.is_busy;
  position_is = r.position_is;
  counted_is = r.counted_is;
  junk = r.junk ++ extra n.message_out s;
  arrived = record {
    data_is =
        ap (λ d. d ++ extra n.message_out s) r.arrived.data_is
        ∙ append_assoc got r.junk (extra n.message_out s);
    used_is = r.arrived.used_is;
    parts = r.arrived.parts;
  };
}

-- Bytes for which there is room arrive behind those that are there.
overwrite-behind :
    (got junk bytes : List ℕ)
    → length bytes ≤ length junk
    → overwrite (length got) bytes (got ++ junk) ≡ (got ++ bytes) ++ drop (length bytes) junk
unfolding overwrite
overwrite-behind got junk bytes room = rw (take-append, drop-beyond, append_assoc) refl

-- Bytes that libuv stores are counted behind those that are there.
pub store-Receiving :
    (n : Network) (packet got bytes more : List ℕ)
    → Receiving n packet got (bytes ++ more)
    → length bytes ≤ length n.message_out.network_data - n.message_out.buffer_used
    → Receiving (counted (store n bytes) (length bytes)) packet (got ++ bytes) more
unfolding store counted
store-Receiving n packet got bytes more r room =
    let fits : leb (length bytes) (length n.message_out.network_data - n.message_out.buffer_used)
        ≡ true =
      ground arith in
    let behind : length bytes ≤ length r.junk =
      omega
        (arith, ap length r.arrived.data_is, length-append got r.junk, r.arrived.used_is, room) in
    let data' : overwrite n.message_out.buffer_used bytes n.message_out.network_data
        ≡ (got ++ bytes) ++ drop (length bytes) r.junk =
      rw (r.arrived.data_is, r.arrived.used_is) (overwrite-behind got r.junk bytes behind) in
    rw fits record {
      is_busy = r.is_busy;
      position_is = r.position_is;
      counted_is = omega (arith, r.counted_is, length-append got bytes);
      junk = drop (length bytes) r.junk;
      arrived = record {
        data_is = data';
        used_is = omega (arith, r.counted_is, length-append got bytes);
        parts = append_assoc got bytes more ∙ r.arrived.parts;
      };
    }
