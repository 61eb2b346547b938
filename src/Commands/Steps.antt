-- ===== src/Commands/Steps.antt =====
-- One read in front of a series: what the readers of the replies are put together from.
use mariadb_columnstore_api.Prelude.{
  ℕ, ◌^◌, ◌<◌, ◌≡◌, refl, ap, ◌∙◌, List, [], ◌∷◌, ◌++◌, length, arith, All,
}
use mathlib.Core.List.{append-nil}
use mathlib.Core.Path.{subst}
use mariadb_columnstore_api.Messaging.Bytes.{to_le, length-to_le}
use mariadb_columnstore_api.Messaging.{
  Messaging, skip_header, get_word, get_bytes, get_str, and_then,
}
use mariadb_columnstore_api.Messaging.Encode.{Item, encode, encode_all}
use mariadb_columnstore_api.Messaging.Decode.{
  moved, moved-At, skip-At, get_word-At, get_str-At, FitsType,
}
use mariadb_columnstore_api.Network.{Network}
use mariadb_columnstore_api.Commands.Reader.{
  Reader, Result, ◌>>=◌, pure, of_read, read_word, read_str, read_many,
}
use mariadb_columnstore_api.Commands.Gives.{Gives, Stands, bind-Gives, pure-Gives}
use Item.{u8, u32, u64, str}

skip_header_twice : (m : Messaging) → skip_header (skip_header m) ≡ skip_header m
unfolding skip_header
skip_header_twice m = ground arith

get_word-skip : (k : ℕ) (m : Messaging) → get_word k m ≡ get_word k (skip_header m)
unfolding get_word
get_word-skip k m = rw (skip_header_twice m) refl

get_str-skip : (m : Messaging) → get_str m ≡ get_str (skip_header m)
unfolding get_str
get_str-skip m = ap (λ r. and_then r (λ len m'. get_bytes m' len)) (get_word-skip 4 m)

-- The connection behind the bytes of a value.
abbrev passed : Network → Item → Network
passed n i = record n { message_out = moved (skip_header n.message_out) (length (encode i)) }

read_word-Stands :
    (k : ℕ) (n : Network) (front rest junk : List ℕ) (v : ℕ)
    → v < 256 ^ k
    → Stands n.message_out front (to_le k v ++ rest) junk
    → read_word k n ≡ (record n { message_out = moved (skip_header n.message_out) k }, Result.ok v)
unfolding read_word of_read
read_word-Stands k n front rest junk v fits h = ap (of_read n) (
    get_word-skip k n.message_out
    ∙ get_word-At k (skip_header n.message_out) front rest junk v fits h)

read_str-Stands :
    (n : Network) (front rest junk s : List ℕ)
    → length s < 256 ^ 4
    → Stands n.message_out front ((to_le 4 (length s) ++ s) ++ rest) junk
    → read_str n ≡ (
      record n {
        message_out = moved (skip_header n.message_out) (length (to_le 4 (length s) ++ s));
      },
      Result.ok s,
    )
unfolding read_str of_read
read_str-Stands n front rest junk s fits h =
    ap (of_read n)
      (get_str-skip n.message_out ∙ get_str-At (skip_header n.message_out) front s rest junk fits h)

-- One value is read, by whatever reader reads its bytes.
value-Gives :
    {A : Type 0} (r : Reader A) (i : Item) (a : A)
    → ((n : Network) (front rest junk : List ℕ)
        → Stands n.message_out front (encode i ++ rest) junk
        → r n ≡ (passed n i, Result.ok a))
    → Gives r (i ∷ []) (Result.ok a)
unfolding encode_all
value-Gives r i a reads n front rest junk h =
    let here : Stands n.message_out front (encode i ++ rest) junk =
      rw (← append-nil (encode i)) h in
    let moved_on = moved-At (skip_header n.message_out) front (encode i) rest junk here in
    record {
      after = passed n i;
      outcome = reads n front rest junk here;
      behind =
          rw
            (
              append-nil (encode i),
              skip-At (moved (skip_header n.message_out) (length (encode i))) (front ++ encode i)
                  rest junk moved_on,
            )
            moved_on;
      status_is = refl;
    }

pub u8-Gives : (v : ℕ) → FitsType (u8 v) → Gives (read_word 1) (u8 v ∷ []) (Result.ok v)
unfolding encode
u8-Gives v fits =
    value-Gives (read_word 1) (u8 v) v
      (λ n front rest junk h. rw (length-to_le 1 v) (read_word-Stands 1 n front rest junk v fits h))

pub u32-Gives : (v : ℕ) → FitsType (u32 v) → Gives (read_word 4) (u32 v ∷ []) (Result.ok v)
unfolding encode
u32-Gives v fits =
    value-Gives (read_word 4) (u32 v) v
      (λ n front rest junk h. rw (length-to_le 4 v) (read_word-Stands 4 n front rest junk v fits h))

pub u64-Gives : (v : ℕ) → FitsType (u64 v) → Gives (read_word 8) (u64 v ∷ []) (Result.ok v)
unfolding encode
u64-Gives v fits =
    value-Gives (read_word 8) (u64 v) v
      (λ n front rest junk h. rw (length-to_le 8 v) (read_word-Stands 8 n front rest junk v fits h))

pub str-Gives : (s : List ℕ) → FitsType (str s) → Gives read_str (str s ∷ []) (Result.ok s)
unfolding encode
str-Gives s fits =
    value-Gives read_str (str s) s
      (λ n front rest junk h. read_str-Stands n front rest junk s fits h)

module _ {B : Type 0} {is : List Item} {result : Result B} where
  -- Each is a read in front of a series.
  pub then_u8 :
      (v : ℕ) (f : ℕ → Reader B)
      → FitsType (u8 v)
      → Gives (f v) is result
      → Gives (read_word 1 >>= f) (u8 v ∷ is) result
  then_u8 v f fits next = bind-Gives (read_word 1) f (u8 v ∷ []) is v result (u8-Gives v fits) next

  pub then_u32 :
      (v : ℕ) (f : ℕ → Reader B)
      → FitsType (u32 v)
      → Gives (f v) is result
      → Gives (read_word 4 >>= f) (u32 v ∷ is) result
  then_u32 v f fits next =
      bind-Gives (read_word 4) f (u32 v ∷ []) is v result (u32-Gives v fits) next

  pub then_u64 :
      (v : ℕ) (f : ℕ → Reader B)
      → FitsType (u64 v)
      → Gives (f v) is result
      → Gives (read_word 8 >>= f) (u64 v ∷ is) result
  then_u64 v f fits next =
      bind-Gives (read_word 8) f (u64 v ∷ []) is v result (u64-Gives v fits) next

  pub then_str :
      (s : List ℕ) (f : List ℕ → Reader B)
      → FitsType (str s)
      → Gives (f s) is result
      → Gives (read_str >>= f) (str s ∷ is) result
  then_str s f fits next = bind-Gives read_str f (str s ∷ []) is s result (str-Gives s fits) next

-- The loop gives what its rounds give.
unfoldable pub each : {A : Type 0} → (A → List Item) → List A → List Item
each items [] = []
each items (a ∷ as') = items a ++ each items as'

pub read_many-Gives :
    {A : Type 0} (r : Reader A) (items : A → List Item) (as' : List A)
    → All (λ a. Gives r (items a) (Result.ok a)) as'
    → Gives (read_many r (length as')) (each items as') (Result.ok as')
unfolding read_many each
read_many-Gives r items [] h = pure-Gives []
read_many-Gives {A = A} r items (a ∷ as') (one, more) =
    bind-Gives r _ (items a) (each items as') a (Result.ok (a ∷ as')) one (
      subst
        (λ is. Gives (read_many r (length as') >>= λ bs. pure (a ∷ bs)) is (Result.ok (a ∷ as')))
        (append-nil (each items as'))
        (bind-Gives (read_many r (length as')) _ (each items as') [] as' (Result.ok (a ∷ as'))
          (read_many-Gives r items as' more) (pure-Gives (a ∷ as'))))
