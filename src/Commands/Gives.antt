-- ===== src/Commands/Gives.antt =====
-- What a series of reads gives on a message that holds the bytes of a series of values.
use mariadb_columnstore_api.Prelude.{ℕ, ◌≡◌, refl, sym, ap, ◌∙◌, List, [], ◌∷◌, ◌++◌, true}
use mathlib.Core.List.{append_assoc, append-nil}
use mariadb_columnstore_api.Messaging.{Messaging, skip_header}
use mariadb_columnstore_api.Messaging.Encode.{Item, encode, encode_all}
use mariadb_columnstore_api.Messaging.Decode.{At}
use mariadb_columnstore_api.Network.{Network}
use mariadb_columnstore_api.Commands.Reader.{
  Reader, Result, ServerText, Failure, and_do, ◌>>=◌, pure, delete_message, refuse,
}

-- The next read of a message starts behind `front`; the first read of a message skips the header.
abbrev pub Stands : Messaging → List ℕ → List ℕ → List ℕ → Type 0
Stands m front rest junk = At (skip_header m) front rest junk

-- The run of a reader on a message that holds the values `is` at its position: it ends as `result`
-- says, the position is behind the values, and the status of the connection is as before.
pub record Gave {A : Type 0} (r : Reader A) (n : Network) (front rest junk : List ℕ)
    (is : List Item) (result : Result A) : Type 0 where
  pub after : Network
  pub outcome : r n ≡ (after, result)
  pub behind : Stands after.message_out (front ++ encode_all is) rest junk
  pub status_is : after.con_status ≡ n.con_status

-- The same of every such message, whatever precedes and follows the values.
abbrev pub Gives : {A : Type 0} → Reader A → List Item → Result A → Type 0
Gives r is result =
    (n : Network) (front rest junk : List ℕ)
    → Stands n.message_out front (encode_all is ++ rest) junk
    → Gave r n front rest junk is result

pub encode_all-append : (is js : List Item) → encode_all (is ++ js) ≡ encode_all is ++ encode_all js
unfolding encode_all
encode_all-append [] js = refl
encode_all-append (i ∷ is) js =
    rw (encode_all-append is js) (sym (append_assoc (encode i) (encode_all is) (encode_all js)))

-- A step that reads nothing.
nothing-At :
    (m : Messaging) (front rest junk : List ℕ)
    → Stands m front (encode_all [] ++ rest) junk
    → Stands m (front ++ encode_all []) rest junk
unfolding encode_all
nothing-At m front rest junk h = rw (append-nil front) h

pub pure-Gives : {A : Type 0} (a : A) → Gives (pure a) [] (Result.ok a)
pure-Gives a n front rest junk h = record {
  after = n;
  outcome = refl;
  behind = nothing-At n.message_out front rest junk h;
  status_is = refl;
}

pub refuse-Gives :
    {A : Type 0} (text : ServerText)
    → Gives {A = A} (refuse text) [] (Result.failed (Failure.server_error text))
unfolding refuse
refuse-Gives text n front rest junk h = record {
  after = record n { deleted = true };
  outcome = refl;
  behind = nothing-At n.message_out front rest junk h;
  status_is = refl;
}

pub delete-Gives : Gives delete_message [] (Result.ok tt)
delete-Gives n front rest junk h = record {
  after = record n { deleted = true };
  outcome = refl;
  behind = nothing-At n.message_out front rest junk h;
  status_is = refl;
}

-- A read in front of a reader that goes on with the value.
pub bind-Gives :
    {A B : Type 0} (r : Reader A) (f : A → Reader B) (is js : List Item) (a : A) (result : Result B)
    → Gives r is (Result.ok a)
    → Gives (f a) js result
    → Gives (r >>= f) (is ++ js) result
unfolding and_do
bind-Gives r f is js a result first second n front rest junk h =
    let here : Stands n.message_out front (encode_all is ++ (encode_all js ++ rest)) junk =
      rw (← append_assoc (encode_all is) (encode_all js) rest, ← encode_all-append is js) h in
    let one = first n front (encode_all js ++ rest) junk here in
    let two = second one.after (front ++ encode_all is) rest junk one.behind in
    record {
      after = two.after;
      outcome = ap (λ x. and_do x f) one.outcome ∙ two.outcome;
      behind =
          rw (encode_all-append is js, ← append_assoc front (encode_all is) (encode_all js))
            two.behind;
      status_is = two.status_is ∙ one.status_is;
    }

-- An exception ends the series.
pub stop-Gives :
    {A B : Type 0} (r : Reader A) (f : A → Reader B) (is : List Item) (e : Failure)
    → Gives r is (Result.failed e)
    → Gives (r >>= f) is (Result.failed e)
unfolding and_do
stop-Gives r f is e first n front rest junk h =
    let one = first n front rest junk h in
    record {
      after = one.after;
      outcome = ap (λ x. and_do x f) one.outcome;
      behind = one.behind;
      status_is = one.status_is;
    }

-- The result, where more values follow than are read.
pub Gives-result :
    {A : Type 0} (r : Reader A) (is js : List Item) (result : Result A)
    → Gives r is result
    → (n : Network) (front rest junk : List ℕ)
    → Stands n.message_out front (encode_all (is ++ js) ++ rest) junk
    → (r n).1 ≡ result
Gives-result r is js result h n front rest junk stands =
    let here : Stands n.message_out front (encode_all is ++ (encode_all js ++ rest)) junk =
      rw (← append_assoc (encode_all is) (encode_all js) rest, ← encode_all-append is js) stands in
    ap (λ x. x.1) (h n front (encode_all js ++ rest) junk here).outcome
