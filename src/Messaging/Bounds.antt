-- ===== src/Messaging/Bounds.antt =====
-- A read does not go beyond the bytes that were received.
use mariadb_columnstore_api.Prelude.{ℕ, ◌≤◌, ◌≡◌, refl, Option, none, some, arith, ◌∙◌}
use mariadb_columnstore_api.Messaging.{
  Messaging, skip_header, get_word, get_bytes, get_str, and_then,
}
use mariadb_columnstore_api.Messaging.Decode.{Kind, get}
use mariadb_columnstore_api.Messaging.Encode.{Item}

-- What a read of `m` leads to: the bytes and their number are as before, the position does not go
-- back, and where the read returned it is not behind the last byte received.
unfoldable pub Within : {A : Type 0} → Messaging → Messaging × Option A → Type 0
Within m (m', none) =
    (m'.network_data ≡ m.network_data)
    × (m'.buffer_used ≡ m.buffer_used)
    × (m.position ≤ m'.position)
Within m (m', some a) =
    (m'.network_data ≡ m.network_data)
    × (m'.buffer_used ≡ m.buffer_used)
    × (m.position ≤ m'.position)
    × (m'.position ≤ m.buffer_used)

get_word-Within : (n : ℕ) (m : Messaging) → Within m (get_word n m)
unfolding get_word skip_header Within
get_word-Within n m = ground arith

get_bytes-Within : (m : Messaging) (len : ℕ) → Within m (get_bytes m len)
unfolding get_bytes Within
get_bytes-Within m len = ground arith

and_then-Within :
    {A B : Type 0} (m : Messaging) (r : Messaging × Option A)
    (f : A → Messaging → Messaging × Option B)
    → Within m r
    → ((a : A) (m' : Messaging)
        → m'.position ≤ m.buffer_used
        → m'.buffer_used ≡ m.buffer_used
        → Within m' (f a m'))
    → Within m (and_then r f)
unfolding and_then Within
and_then-Within m (m', none) f h next = h
and_then-Within m (m', some a) f (data_is, used_is, forward, in_range) next =
    behind m m' (f a m') data_is used_is forward (next a m' in_range used_is)
  where
    behind :
        {B : Type 0} (m m' : Messaging) (r : Messaging × Option B)
        → m'.network_data ≡ m.network_data
        → m'.buffer_used ≡ m.buffer_used
        → m.position ≤ m'.position
        → Within m' r
        → Within m r
    behind m m' (m2, none) d u p (d', u', p') = (d' ∙ d, u' ∙ u, omega arith)
    behind m m' (m2, some b) d u p (d', u', p', q') = (d' ∙ d, u' ∙ u, omega arith, omega arith)

-- A value that was read stays in its message.
same_message :
    {A B : Type 0} (f : A → B) (m : Messaging)
    → m.position ≤ m.buffer_used
    → (a : A) → Within m (m, some (f a))
unfolding Within
same_message f m h a = (refl, refl, omega arith, h)

get_str-Within : (m : Messaging) → Within m (get_str m)
unfolding get_str
get_str-Within m =
    and_then-Within m (get_word 4 m) (λ len m'. get_bytes m' len) (get_word-Within 4 m)
      (λ len m' h e. get_bytes-Within m' len)

-- A read of any type, whether it returns or throws, leaves the bytes of a message and how many were
-- received, and does not move the position back; where it returns, the position is not behind the
-- last byte received.
pub get-Within : (k : Kind) (m : Messaging) → Within m (get k m)
unfolding get
get-Within Kind.as_u8 m =
    and_then-Within m (get_word 1 m) _ (get_word-Within 1 m)
      (λ v m' h e. same_message Item.u8 m' (rw e h) v)
get-Within Kind.as_u16 m =
    and_then-Within m (get_word 2 m) _ (get_word-Within 2 m)
      (λ v m' h e. same_message Item.u16 m' (rw e h) v)
get-Within Kind.as_u32 m =
    and_then-Within m (get_word 4 m) _ (get_word-Within 4 m)
      (λ v m' h e. same_message Item.u32 m' (rw e h) v)
get-Within Kind.as_u64 m =
    and_then-Within m (get_word 8 m) _ (get_word-Within 8 m)
      (λ v m' h e. same_message Item.u64 m' (rw e h) v)
get-Within Kind.as_str m =
    and_then-Within m (get_str m) _ (get_str-Within m)
      (λ s m' h e. same_message Item.str m' (rw e h) s)
