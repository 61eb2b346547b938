-- ===== src/Messaging/Decode.antt =====
-- What a series of `>>` gives on a message that holds the bytes of a series of values.
use mariadb_columnstore_api.Prelude.{
  ℕ, ◌+◌, ◌^◌, ◌<◌, ◌≤◌, ◌≡◌, refl, sym, ap, ◌∙◌, List, [], ◌∷◌, ◌++◌, length, length-append,
  take-append, drop-append, arith, Option, some, All,
}
use mathlib.Core.List.{append_assoc}
use mariadb_columnstore_api.Messaging.Bytes.{to_le, of_le, length-to_le, of_le-to_le}
use mariadb_columnstore_api.Messaging.{
  Messaging, at_position, skip_header, get_word, get_bytes, and_then, get_str,
}
use mariadb_columnstore_api.Messaging.Encode.{Item, encode, encode_all}
use Item.{u8, u16, u32, u64, str}

-- The type of the variable that a value is read into.
pub data Kind : Type 0 where
  as_u8 as_u16 as_u32 as_u64 as_str : Kind

unfoldable pub kind_of : Item → Kind
kind_of (u8 v) = Kind.as_u8
kind_of (u16 v) = Kind.as_u16
kind_of (u32 v) = Kind.as_u32
kind_of (u64 v) = Kind.as_u64
kind_of (str s) = Kind.as_str

-- A value that its C++ type can hold; for a string, its length.
abbrev pub FitsType : Item → Type 0
FitsType (u8 v) = v < 256 ^ 1
FitsType (u16 v) = v < 256 ^ 2
FitsType (u32 v) = v < 256 ^ 4
FitsType (u64 v) = v < 256 ^ 8
FitsType (str s) = length s < 256 ^ 4

-- `m >> v`
unfoldable pub get : Kind → Messaging → Messaging × Option Item
unfolding get_word get_str and_then
get Kind.as_u8 m = and_then (get_word 1 m) (λ v m'. (m', some (u8 v)))
get Kind.as_u16 m = and_then (get_word 2 m) (λ v m'. (m', some (u16 v)))
get Kind.as_u32 m = and_then (get_word 4 m) (λ v m'. (m', some (u32 v)))
get Kind.as_u64 m = and_then (get_word 8 m) (λ v m'. (m', some (u64 v)))
get Kind.as_str m = and_then (get_str m) (λ s m'. (m', some (str s)))

unfoldable pub kinds : List Item → List Kind
unfolding kind_of
kinds [] = []
kinds (i ∷ is) = kind_of i ∷ kinds is

-- `m >> v1; m >> v2; ...`: an exception ends the series.
unfoldable pub get_all : List Kind → Messaging → Messaging × Option (List Item)
unfolding get and_then
get_all [] m = (m, some [])
get_all (k ∷ ks) m =
    and_then (get k m) (λ i m'. and_then (get_all ks m') (λ is m''. (m'', some (i ∷ is))))

-- The position stands behind `front`, with `rest` to be read and `junk` behind what was received.
pub record At (m : Messaging) (front rest junk : List ℕ) : Type 0 where
  pub data_is : m.network_data ≡ front ++ (rest ++ junk)
  pub position_is : m.position ≡ length front
  pub used_is : m.buffer_used ≡ length front + length rest
  pub behind_header : 8 ≤ length front

pub skip-At : (m : Messaging) (front rest junk : List ℕ) → At m front rest junk → skip_header m ≡ m
unfolding skip_header
skip-At m front rest junk h = ground (arith, h.position_is, h.behind_header)

at_position-At :
    (m : Messaging) (front bs rest junk : List ℕ)
    → At m front (bs ++ rest) junk
    → at_position m (length bs) ≡ bs
at_position-At m front bs rest junk h =
    rw (h.data_is, h.position_is, drop-append, append_assoc, take-append) refl

-- The message behind `n` more bytes.
abbrev pub moved : Messaging → ℕ → Messaging
moved m n = record m { position = m.position + n }

pub moved-At :
    (m : Messaging) (front bs rest junk : List ℕ)
    → At m front (bs ++ rest) junk
    → At (moved m (length bs)) (front ++ bs) rest junk
moved-At m front bs rest junk h = record {
  data_is = rw (h.data_is, append_assoc, append_assoc) refl;
  position_is = omega (arith, h.position_is, length-append front bs);
  used_is = omega (arith, h.used_is, length-append front bs, length-append bs rest);
  behind_header = omega (arith, h.behind_header, length-append front bs);
}

-- A read of `n` bytes at a position where there are `n` bytes.
get_word-at :
    (n : ℕ) (m : Messaging)
    → skip_header m ≡ m
    → m.position + n ≤ m.buffer_used
    → get_word n m ≡ (moved m n, some (of_le (at_position m n)))
unfolding get_word
get_word-at n m skips room = rw skips (ground arith)

pub get_word-At :
    (n : ℕ) (m : Messaging) (front rest junk : List ℕ) (v : ℕ)
    → v < 256 ^ n
    → At m front (to_le n v ++ rest) junk
    → get_word n m ≡ (moved m n, some v)
get_word-At n m front rest junk v fits h =
    let room : m.position + n ≤ m.buffer_used =
      omega (arith, h.position_is, h.used_is, length-append (to_le n v) rest, length-to_le n v) in
    let bytes : at_position m n ≡ to_le n v =
      ap (at_position m) (sym (length-to_le n v))
      ∙ at_position-At m front (to_le n v) rest junk h in
    get_word-at n m (skip-At m front (to_le n v ++ rest) junk h) room
    ∙ ap (λ w. (moved m n, some w)) (ap of_le bytes ∙ of_le-to_le n v fits)

get_bytes-At :
    (m : Messaging) (front s rest junk : List ℕ)
    → At m front (s ++ rest) junk
    → get_bytes m (length s) ≡ (moved m (length s), some s)
unfolding get_bytes
get_bytes-At m front s rest junk h =
    let room : m.position + length s ≤ m.buffer_used =
      omega (arith, h.position_is, h.used_is, length-append s rest) in
    let bytes = at_position-At m front s rest junk h in ground (arith, room, bytes)

pub get_str-At :
    (m : Messaging) (front s rest junk : List ℕ)
    → length s < 256 ^ 4
    → At m front ((to_le 4 (length s) ++ s) ++ rest) junk
    → get_str m ≡ (moved m (length (to_le 4 (length s) ++ s)), some s)
unfolding get_str and_then
get_str-At m front s rest junk fits h =
    let count = to_le 4 (length s) in
    let here : At m front (count ++ (s ++ rest)) junk = rw (← append_assoc count s rest) h in
    let behind = moved-At m front count (s ++ rest) junk here in
    let body : get_bytes (moved m 4) (length s) ≡ (moved (moved m 4) (length s), some s) =
      ap (λ n. get_bytes (moved m n) (length s)) (sym (length-to_le 4 (length s)))
      ∙ get_bytes-At (moved m (length count)) (front ++ count) s rest junk behind
      ∙ ap (λ n. (moved (moved m n) (length s), some s)) (length-to_le 4 (length s)) in
    ap (λ r. and_then r (λ len m'. get_bytes m' len))
      (get_word-At 4 m front (s ++ rest) junk (length s) fits here)
    ∙ body
    ∙ ap (λ p. (record m { position = p }, some s))
        (omega (arith, length-append count s, length-to_le 4 (length s)))

-- One read gives the value and leaves the position behind it.
get-At :
    (m : Messaging) (front rest junk : List ℕ) (i : Item)
    → FitsType i
    → At m front (encode i ++ rest) junk
    → get (kind_of i) m ≡ (moved m (length (encode i)), some i)
unfolding get kind_of and_then encode
get-At m front rest junk (u8 v) fits h =
    rw (get_word-At 1 m front rest junk v fits h, length-to_le) refl
get-At m front rest junk (u16 v) fits h =
    rw (get_word-At 2 m front rest junk v fits h, length-to_le) refl
get-At m front rest junk (u32 v) fits h =
    rw (get_word-At 4 m front rest junk v fits h, length-to_le) refl
get-At m front rest junk (u64 v) fits h =
    rw (get_word-At 8 m front rest junk v fits h, length-to_le) refl
get-At m front rest junk (str s) fits h =
    ap (λ r. and_then r (λ t m'. (m', some (str t)))) (get_str-At m front s rest junk fits h)

-- Reads by the types of a series of values, each within its type, of a message that holds the bytes
-- of these values at its position, behind the header, give these values and move the position
-- behind them, whatever follows.
pub get_all-At :
    (m : Messaging) (front rest junk : List ℕ) (is : List Item)
    → All FitsType is
    → At m front (encode_all is ++ rest) junk
    → get_all (kinds is) m ≡ (moved m (length (encode_all is)), some is)
unfolding get_all kinds encode_all and_then
get_all-At m front rest junk [] fits h =
    ap (λ p. (record m { position = p }, some [])) (omega arith)
get_all-At m front rest junk (i ∷ is) (fit, fits) h =
    let here : At m front (encode i ++ (encode_all is ++ rest)) junk =
      rw (← append_assoc (encode i) (encode_all is) rest) h in
    let behind = moved-At m front (encode i) (encode_all is ++ rest) junk here in
    rw (get-At m front (encode_all is ++ rest) junk i fit here) (
      ap (λ r. and_then r (λ js m''. (m'', some (i ∷ js))))
        (get_all-At (moved m (length (encode i))) (front ++ encode i) rest junk is fits behind)
      ∙ ap (λ p. (record m { position = p }, some (i ∷ is)))
          (omega (arith, length-append (encode i) (encode_all is))))
