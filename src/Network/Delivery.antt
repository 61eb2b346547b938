-- ===== src/Network/Delivery.antt =====
-- What a connection makes of a packet that libuv delivers in pieces.
use mariadb_columnstore_api.Prelude.{
  ℕ, ◌+◌, ◌-◌, ◌^◌, ◌<◌, ◌≤◌, ◌≡◌, refl, sym, ap, ◌∙◌, ◌==◌, List, [], ◌∷◌, ◌++◌, true, false,
  Bool-cases, inl, inr, length, length-append, arith, All, if◌then◌else◌,
}
use mathlib.Core.List.{flatten, append-nil, map}
use mariadb_columnstore_api.Network.{
  Network, Raised, counted, on_alloc, store, on_packet, on_read_data, deliver, deliver_all,
  read_compressed, uncompress_data, fail_with, is_busy, reads_on,
}
use mariadb_columnstore_api.Network.Sending.{frame}
use mariadb_columnstore_api.Network.Reading.{
  Receiving, extra-room, allocate-extra, on_alloc-Receiving, store-Receiving,
  is_complete_packet-frame,
}
use mariadb_columnstore_api.Std.Compression.{Snappy}
use Raised.{returned}

-- The state in which onReadData looks for a complete packet.
unfoldable pub looked_at : Network → ℕ × List ℕ → Network
looked_at n (s, bytes) = counted (store (on_alloc n s) bytes) (length bytes)

-- A piece that libuv can deliver fits the room it suggests.
abbrev pub Deliverable : ℕ × List ℕ → Type 0
Deliverable (s, bytes) = length bytes ≤ s

unfoldable pub bytes_of : ℕ × List ℕ → List ℕ
bytes_of (s, bytes) = bytes

looked_at-Receiving :
    (n : Network) (packet got more : List ℕ) (c : ℕ × List ℕ)
    → Receiving n packet got (bytes_of c ++ more)
    → Deliverable c
    → Receiving (looked_at n c) packet (got ++ bytes_of c) more
unfolding looked_at bytes_of on_alloc
looked_at-Receiving n packet got more (s, bytes) r fits =
    let behind : n.message_out.buffer_used ≤ length n.message_out.network_data =
      omega (arith, ap length r.arrived.data_is, length-append got r.junk, r.arrived.used_is) in
    let room : length bytes
        ≤ length (on_alloc n s).message_out.network_data - (on_alloc n s).message_out.buffer_used =
      rw (allocate-extra n.message_out s) (omega (arith, extra-room n.message_out s behind)) in
    store-Receiving (on_alloc n s) packet got bytes more
      (on_alloc-Receiving n packet got (bytes ++ more) s r) room

-- One round of reading.
deliver-frame :
    (snappy : Snappy) (n : Network) (h : ℕ) (body got more : List ℕ) (c : ℕ × List ℕ)
    → Receiving n (frame h body) got (bytes_of c ++ more)
    → Deliverable c
    → 0 < length body
    → 8 + length body < 256 ^ 4
    → deliver snappy n c
      ≡ (if length more == 0 then on_packet snappy (looked_at n c) else (looked_at n c, returned))
unfolding deliver on_read_data looked_at bytes_of
deliver-frame snappy n h body got more (s, bytes) r fits nonempty bound =
    let next = looked_at-Receiving n (frame h body) got more (s, bytes) r fits in
    rw
      (is_complete_packet-frame (looked_at n (s, bytes)).message_out h body (got ++ bytes) more
        next.junk next.arrived nonempty bound)
      refl

-- When a packet was looked at, the connection is not busy any more.
on_packet-settles : (snappy : Snappy) (n : Network) → reads_on (on_packet snappy n) ≡ false
unfolding on_packet read_compressed uncompress_data reads_on is_busy fail_with
on_packet-settles snappy n = ground arith

-- Nothing more is read then.
deliver_all-settled :
    (snappy : Snappy) (r : Network × Raised) (cs : List (ℕ × List ℕ))
    → reads_on r ≡ false
    → deliver_all snappy r cs ≡ r
unfolding deliver_all
deliver_all-settled snappy r [] h = refl
deliver_all-settled snappy r (c ∷ cs) h =
    ap (λ b. if b then deliver_all snappy (deliver snappy r.0 c) cs else r) h

deliver_all-busy :
    (snappy : Snappy) (r : Network × Raised) (c : ℕ × List ℕ) (cs : List (ℕ × List ℕ))
    → reads_on r ≡ true
    → deliver_all snappy r (c ∷ cs) ≡ deliver_all snappy (deliver snappy r.0 c) cs
unfolding deliver_all
deliver_all-busy snappy r c cs h =
    ap (λ b. if b then deliver_all snappy (deliver snappy r.0 c) cs else r) h

length-zero : (xs : List ℕ) → length xs ≡ 0 → xs ≡ []
length-zero [] h = refl
length-zero (x ∷ xs) h = ground arith

-- When nothing is to come, what was read is the packet.
Receiving-all :
    (n : Network) (packet got more : List ℕ)
    → Receiving n packet got more
    → more ≡ []
    → Receiving n packet packet []
Receiving-all n packet got more r nil =
    let all : got ≡ packet =
      sym (append-nil got) ∙ ap (λ l. got ++ l) (sym nil) ∙ r.arrived.parts in
    record {
      is_busy = r.is_busy;
      position_is = r.position_is;
      counted_is = r.counted_is ∙ ap length all;
      junk = r.junk;
      arrived = record {
        data_is = r.arrived.data_is ∙ ap (λ g. g ++ r.junk) all;
        used_is = r.arrived.used_is ∙ ap length all;
        parts = append-nil packet;
      };
    }

-- The rounds that bring the rest of a packet end in a state in which all of it is looked at.
pub record Completed (snappy : Snappy) (n : Network) (cs : List (ℕ × List ℕ)) (packet : List ℕ)
    : Type 0 where
  pub whole : Network
  pub receiving : Receiving whole packet packet []
  pub outcome : deliver_all snappy (n, returned) cs ≡ on_packet snappy whole

module _ (snappy : Snappy) (h : ℕ) (body : List ℕ) (nonempty : 0 < length body)
    (bound : 8 + length body < 256 ^ 4) where
  first_round :
      (n : Network) (got more : List ℕ) (c : ℕ × List ℕ) (cs : List (ℕ × List ℕ))
      → Receiving n (frame h body) got (bytes_of c ++ more)
      → Deliverable c
      → deliver_all snappy (n, returned) (c ∷ cs)
        ≡ deliver_all snappy
            (if length more == 0
              then on_packet snappy (looked_at n c)
              else (looked_at n c, returned))
            cs
  unfolding reads_on is_busy
  first_round n got more c cs r fits =
      deliver_all-busy snappy (n, returned) c cs (rw r.is_busy refl)
      ∙ ap (λ x. deliver_all snappy x cs)
          (deliver-frame snappy n h body got more c r fits nonempty bound)

  pub rounds-Completed :
      (n : Network) (got more : List ℕ) (cs : List (ℕ × List ℕ))
      → Receiving n (frame h body) got more
      → flatten (map bytes_of cs) ≡ more
      → All Deliverable cs
      → 0 < length more
      → Completed snappy n cs (frame h body)
  unfolding flatten
  rounds-Completed n got more [] r whole fits some_more = ground arith
  rounds-Completed n got more (c ∷ cs) r whole (fit, fits) some_more =
      let rest = flatten (map bytes_of cs) in
      let here : Receiving n (frame h body) got (bytes_of c ++ rest) = rw whole r in
      let next = looked_at-Receiving n (frame h body) got rest c here fit in
      elim (Bool-cases (length rest == 0)) [
        | inl done ↦ record {
          whole = looked_at n c;
          receiving =
              Receiving-all (looked_at n c) (frame h body) (got ++ bytes_of c) rest next
                (length-zero rest (ground arith));
          outcome =
              first_round n got rest c cs here fit
              ∙ ap
                  (λ b.
                    deliver_all snappy
                      (if b then on_packet snappy (looked_at n c) else (looked_at n c, returned))
                      cs)
                  done
              ∙ deliver_all-settled snappy (on_packet snappy (looked_at n c)) cs
                  (on_packet-settles snappy (looked_at n c));
        }
        | inr more_left ↦
            let later =
              rounds-Completed (looked_at n c) (got ++ bytes_of c) rest cs next refl fits
                (ground arith) in
            record {
              whole = later.whole;
              receiving = later.receiving;
              outcome =
                  first_round n got rest c cs here fit
                  ∙ ap
                      (λ b.
                        deliver_all snappy
                          (if b
                            then on_packet snappy (looked_at n c)
                            else (looked_at n c, returned))
                          cs)
                      more_left
                  ∙ later.outcome;
            }
      ]
