-- ===== src/Messaging/Encode.antt =====
-- What a message holds after a series of `<<`.
use mariadb_columnstore_api.Prelude.{
  ℕ, ◌+◌, ◌<◌, ◌≡◌, refl, List, [], ◌∷◌, ◌++◌, length, length-append, arith,
}
use mathlib.Core.List.{append_assoc, append-nil}
use mariadb_columnstore_api.Messaging.Bytes.{to_le}
use mariadb_columnstore_api.Messaging.{
  Messaging, empty, append, add_header, put_u8, put_u16, put_u32, put_u64, put_str,
}

-- One value of a message.
pub data Item : Type 0 where
  u8 u16 u32 u64 : ℕ → Item
  str : List ℕ → Item

-- `m << v`
unfoldable pub put : Messaging → Item → Messaging
put m (u8 v) = put_u8 m v
put m (u16 v) = put_u16 m v
put m (u32 v) = put_u32 m v
put m (u64 v) = put_u64 m v
put m (str s) = put_str m s

unfoldable pub put_all : Messaging → List Item → Messaging
unfolding put
put_all m [] = m
put_all m (i ∷ is) = put_all (put m i) is

-- The bytes of one value, and of several.
unfoldable pub encode : Item → List ℕ
encode (u8 v) = to_le 1 v
encode (u16 v) = to_le 2 v
encode (u32 v) = to_le 4 v
encode (u64 v) = to_le 8 v
encode (str s) = to_le 4 (length s) ++ s

unfoldable pub encode_all : List Item → List ℕ
unfolding encode
encode_all [] = []
encode_all (i ∷ is) = encode i ++ encode_all is

-- The eight bytes in front: the header and a length that is not filled in.
unfoldable pub prefix : List ℕ
prefix = 0x37 ∷ 0xC1 ∷ 0xFB ∷ 0x14 ∷ 0 ∷ 0 ∷ 0 ∷ 0 ∷ []

unfoldable pub sum : List ℕ → ℕ
sum [] = 0
sum (n ∷ ns) = n + sum ns

sum-append : (ms ns : List ℕ) → sum (ms ++ ns) ≡ sum ms + sum ns
unfolding sum
sum-append [] ns = omega arith
sum-append (m ∷ ms) ns = omega (arith, sum-append ms ns)

-- A message that has been written to: `body` behind the prefix, in pieces of the recorded lengths.
pub record Holds (m : Messaging) (body : List ℕ) : Type 0 where
  pub data_is : m.network_data ≡ prefix ++ body
  pub lengths_sum : sum m.lengths ≡ length body

append-Holds : (m : Messaging) (body bs : List ℕ) → Holds m body → Holds (append m bs) (body ++ bs)
unfolding sum
append-Holds m body bs h = record {
  data_is = rw (h.data_is, append_assoc) refl;
  lengths_sum = rw (sum-append, h.lengths_sum, length-append) (omega arith);
}

pub add_header-full : (m : Messaging) → 0 < length m.network_data → add_header m ≡ m
unfolding add_header
add_header-full m h = ground arith

add_header-Holds : (m : Messaging) (body : List ℕ) → Holds m body → add_header m ≡ m
unfolding prefix
add_header-Holds m body h = add_header-full m (rw h.data_is (omega arith))

put-Holds :
    (m : Messaging) (body : List ℕ) (i : Item) → Holds m body → Holds (put m i) (body ++ encode i)
unfolding put encode put_u8 put_u16 put_u32 put_u64 put_str
put-Holds m body (u8 v) h = rw (add_header-Holds m body h) (append-Holds m body (to_le 1 v) h)
put-Holds m body (u16 v) h = rw (add_header-Holds m body h) (append-Holds m body (to_le 2 v) h)
put-Holds m body (u32 v) h = rw (add_header-Holds m body h) (append-Holds m body (to_le 4 v) h)
put-Holds m body (u64 v) h = rw (add_header-Holds m body h) (append-Holds m body (to_le 8 v) h)
put-Holds m body (str s) h =
    let counted = append-Holds m body (to_le 4 (length s)) h in
    rw (add_header-Holds m body h, ← append_assoc body (to_le 4 (length s)) s)
      (append-Holds (append m (to_le 4 (length s))) (body ++ to_le 4 (length s)) s counted)

pub put_all-Holds :
    (m : Messaging) (body : List ℕ) (is : List Item)
    → Holds m body
    → Holds (put_all m is) (body ++ encode_all is)
unfolding put_all encode_all
put_all-Holds m body [] h = rw (append-nil body) h
put_all-Holds m body (i ∷ is) h =
    rw (← append_assoc body (encode i) (encode_all is))
      (put_all-Holds (put m i) (body ++ encode i) is (put-Holds m body i h))

-- The first write into a new message puts the prefix in front.
put-empty : (i : Item) → Holds (put empty i) (encode i)
unfolding put encode put_u8 put_u16 put_u32 put_u64 put_str add_header prefix sum to_le
put-empty (u8 v) = record { data_is = refl; lengths_sum = refl }
put-empty (u16 v) = record { data_is = refl; lengths_sum = refl }
put-empty (u32 v) = record { data_is = refl; lengths_sum = refl }
put-empty (u64 v) = record { data_is = refl; lengths_sum = refl }
put-empty (str s) = record {
  data_is = refl;
  lengths_sum = omega (arith, length-append (to_le 4 (length s)) s);
}

-- After one or more writes into a new message its data is the eight bytes of the prefix and then
-- the bytes of the values in order, and the recorded lengths add up to the length of the body.
pub put_all-encodes :
    (i : Item) (is : List Item) → Holds (put_all empty (i ∷ is)) (encode_all (i ∷ is))
unfolding put_all encode_all
put_all-encodes i is = put_all-Holds (put empty i) (encode i) is (put-empty i)
