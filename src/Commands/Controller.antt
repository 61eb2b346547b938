-- ===== src/Commands/Controller.antt =====
-- The replies of the DBRM controller, as the server lays them out: src/util_commands.cpp.
use mariadb_columnstore_api.Prelude.{ℕ, suc, ◌≡◌, List, [], ◌∷◌, arith}
use mathlib.Core.List.{append-nil}
use mathlib.Core.Path.{subst}
use mariadb_columnstore_api.Messaging.Encode.{Item}
use mariadb_columnstore_api.Messaging.Decode.{FitsType}
use mariadb_columnstore_api.Commands.Reader.{
  Reader, Result, ServerText, Failure, ◌>>=◌, ◌>>◌, pure, delete_message, refuse, unless_zero,
}
use mariadb_columnstore_api.Commands.Gives.{
  Gives, bind-Gives, stop-Gives, pure-Gives, delete-Gives, refuse-Gives,
}
use mariadb_columnstore_api.Commands.Steps.{then_u8}
use mariadb_columnstore_api.Commands.Brm.{expect_ok, only_ok}
use Item.{u8}

-- A step at the end of the values, which reads nothing more.
pub end_with :
    {A B : Type 0} (r : Reader A) (f : A → Reader B) (is : List Item) (a : A) (result : Result B)
    → Gives r is (Result.ok a)
    → Gives (f a) [] result
    → Gives (r >>= f) is result
end_with r f is a result first second =
    subst (λ js. Gives (r >>= f) js result) (append-nil is)
      (bind-Gives r f is [] a result first second)

-- deleteReadMessage and a return.
pub delete_pure-Gives : {A : Type 0} (a : A) → Gives (delete_message >> pure a) [] (Result.ok a)
delete_pure-Gives a =
    bind-Gives delete_message (λ _. pure a) [] [] tt (Result.ok a) delete-Gives (pure-Gives a)

-- The check of a good reply.
pub expect_ok-Gives :
    {A : Type 0} (text : ServerText) (f : Unit → Reader A) (is : List Item) (result : Result A)
    → Gives (f tt) is result
    → Gives (expect_ok text >>= f) (u8 0 ∷ is) result
unfolding expect_ok unless_zero
expect_ok-Gives text f is result next =
    bind-Gives (expect_ok text) f (u8 0 ∷ []) is tt result
      (then_u8 0 _ (omega arith) (pure-Gives tt)) next

pub unless_zero-suc : (e : ℕ) (fail : Reader Unit) → unless_zero (suc e) fail ≡ fail
unfolding unless_zero
unless_zero-suc e fail = ground arith

-- A reply that refuses.
pub refused-Gives :
    {A : Type 0} (text : ServerText) (f : Unit → Reader A) (e : ℕ)
    → FitsType (u8 (suc e))
    → Gives (expect_ok text >>= f) (u8 (suc e) ∷ []) (Result.failed (Failure.server_error text))
unfolding expect_ok
refused-Gives text f e fits =
    stop-Gives (expect_ok text) f (u8 (suc e) ∷ []) (Failure.server_error text) (
      then_u8 (suc e) (λ response. unless_zero response (refuse text)) fits
        (rw (unless_zero-suc e (refuse text)) (refuse-Gives text)))

-- A reply that is read no further.
pub only_ok-Gives : (text : ServerText) → Gives (only_ok text) (u8 0 ∷ []) (Result.ok tt)
unfolding only_ok
only_ok-Gives text = expect_ok-Gives text _ [] (Result.ok tt) delete-Gives

pub only_ok-refused :
    (text : ServerText) (e : ℕ)
    → FitsType (u8 (suc e))
    → Gives (only_ok text) (u8 (suc e) ∷ []) (Result.failed (Failure.server_error text))
unfolding only_ok
only_ok-refused text e fits = refused-Gives text _ e fits
