-- ===== src/Commands/Finishes.antt =====
-- What a series of reads gives on a message that ends with the bytes of a series of values.
use mariadb_columnstore_api.Prelude.{ℕ, ◌≡◌, refl, ap, ◌∙◌, List, [], ◌++◌, none, arith}
use mathlib.Core.List.{append-nil}
use mariadb_columnstore_api.Messaging.{
  Messaging, skip_header, get_word, get_bytes, and_then, get_str,
}
use mariadb_columnstore_api.Messaging.Encode.{Item, encode_all}
use mariadb_columnstore_api.Network.{Network}
use mariadb_columnstore_api.Commands.Reader.{
  Reader, Result, Failure, and_do, ◌>>=◌, of_read, read_str,
}
use mariadb_columnstore_api.Commands.Gives.{Stands, Gives, encode_all-append}

-- The run of a reader: it ends as `result` says, and the status of the connection is as before.
pub record Finished {A : Type 0} (r : Reader A) (n : Network) (result : Result A) : Type 0 where
  pub after : Network
  pub outcome : r n ≡ (after, result)
  pub status_is : after.con_status ≡ n.con_status

-- The same of every message that ends with the values `is` behind its position.
abbrev pub Finishes : {A : Type 0} → Reader A → List Item → Result A → Type 0
Finishes r is result =
    (n : Network) (front junk : List ℕ)
    → Stands n.message_out front (encode_all is) junk
    → Finished r n result

pub Gives-Finishes :
    {A : Type 0} (r : Reader A) (is : List Item) (result : Result A)
    → Gives r is result
    → Finishes r is result
Gives-Finishes r is result h n front junk stands =
    let gave = h n front [] junk (rw (append-nil (encode_all is)) stands) in
    record { after = gave.after; outcome = gave.outcome; status_is = gave.status_is }

-- A read in front of a reader that goes on with the value.
pub bind-Finishes :
    {A B : Type 0} (r : Reader A) (f : A → Reader B) (is js : List Item) (a : A) (result : Result B)
    → Gives r is (Result.ok a)
    → Finishes (f a) js result
    → Finishes (r >>= f) (is ++ js) result
unfolding and_do
bind-Finishes r f is js a result first second n front junk h =
    let here : Stands n.message_out front (encode_all is ++ encode_all js) junk =
      rw (← encode_all-append is js) h in
    let one = first n front (encode_all js) junk here in
    let two = second one.after (front ++ encode_all is) junk one.behind in
    record {
      after = two.after;
      outcome = ap (λ x. and_do x f) one.outcome ∙ two.outcome;
      status_is = two.status_is ∙ one.status_is;
    }

-- An exception ends the series.
pub stop-Finishes :
    {A B : Type 0} (r : Reader A) (f : A → Reader B) (is : List Item) (e : Failure)
    → Finishes r is (Result.failed e)
    → Finishes (r >>= f) is (Result.failed e)
unfolding and_do
stop-Finishes r f is e first n front junk h =
    let one = first n front junk h in
    record {
      after = one.after;
      outcome = ap (λ x. and_do x f) one.outcome;
      status_is = one.status_is;
    }

-- There is no word behind the end of a message.
get_word-end :
    (m : Messaging) (front junk : List ℕ)
    → Stands m front [] junk
    → get_word 4 m ≡ (skip_header m, none)
unfolding get_word
get_word-end m front junk h = ground (arith, h.position_is, h.used_is)

-- A text that is read behind the end of a message is a ColumnStoreBufferError.
pub read_str-end : Finishes read_str [] (Result.failed Failure.buffer_error)
unfolding read_str of_read get_str and_then encode_all
read_str-end n front junk h = record {
  after = record n { message_out = skip_header n.message_out };
  outcome =
      ap (λ r. of_read n (and_then r (λ len m'. get_bytes m' len)))
        (get_word-end n.message_out front junk h);
  status_is = refl;
}
