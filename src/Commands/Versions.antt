-- ===== src/Commands/Versions.antt =====
-- What procMonCheckVersion of src/util_commands.cpp accepts.
use mariadb_columnstore_api.Prelude.{
  ℕ, ◌<◌, ◌^◌, ◌-◌, ◌≡◌, refl, sym, ap, ◌∙◌, min, leb, not, ◌||◌, arith, List, [], ◌∷◌, ◌++◌, Bool,
  true, false, ◌&&◌, ◌==◌, if◌then◌else◌, All, Bool-cases, inl, inr,
}
use mathlib.Core.Path.{subst}
use mariadb_columnstore_api.Prelude.Digits.{to_string}
use mariadb_columnstore_api.Std.Scan.{sscanf, sscanf_from, starts_digit, Directive}
use mariadb_columnstore_api.Std.Spelled.{Stops, number-to_string}
use mariadb_columnstore_api.Messaging.Encode.{Item, encode_all}
use mariadb_columnstore_api.Messaging.Decode.{FitsType}
use mariadb_columnstore_api.Commands.Reader.{Result, ◌>>◌, pure, delete_message}
use mariadb_columnstore_api.Network.{Network}
use mariadb_columnstore_api.Commands.Gives.{Gives, Gives-result, Stands, pure-Gives}
use mariadb_columnstore_api.Commands.Steps.{then_u8, then_str}
use mariadb_columnstore_api.Commands.Controller.{delete_pure-Gives}
use mariadb_columnstore_api.Commands.Version.{
  version_fits, read_version, read_answered, proc_mon_check_version, version_part, below_one,
  version_format,
}
use Item.{u8, str}

-- How the reply of the process monitor starts: a code, the command again, the version.
abbrev pub version_items : ℕ → ℕ → List ℕ → List Item
version_items response command version = u8 response ∷ u8 command ∷ str version ∷ []

-- A version as text: two numbers with a dot between them, and what follows, which starts with no
-- digit.
abbrev pub version_text : ℕ → ℕ → List ℕ → List ℕ
version_text major minor tail = to_string major ++ (46 ∷ (to_string minor ++ tail))

dot-Stops : (s : List ℕ) → Stops (46 ∷ s)
unfolding starts_digit
dot-Stops s = refl

literal_values :
    (ds : List Directive) (s : List ℕ)
    → (sscanf_from false (Directive.literal 46 ∷ ds) (46 ∷ s)).values
      ≡ (sscanf_from false ds s).values
unfolding sscanf_from
literal_values ds s = refl

-- The two numbers are read back.
version_values :
    (major minor : ℕ) (tail : List ℕ)
    → Stops tail
    → (sscanf version_format (version_text major minor tail)).values
      ≡ (false, min major (2 ^ 64 - 1))
        ∷ (false, min minor (2 ^ 64 - 1))
        ∷ (sscanf_from false (Directive.literal 46 ∷ Directive.number ∷ []) tail).values
unfolding sscanf
version_values major minor tail stops =
    let behind_minor : List Directive = Directive.literal 46 ∷ Directive.number ∷ [] in
    let behind_dot : List Directive = Directive.number ∷ behind_minor in
    let second = 46 ∷ (to_string minor ++ tail) in
    number-to_string true (Directive.literal 46 ∷ behind_dot) major second
      (dot-Stops (to_string minor ++ tail))
    ∙ ap (◌∷◌ (false, min major (2 ^ 64 - 1))) (
        literal_values behind_dot (to_string minor ++ tail)
        ∙ number-to_string false behind_minor minor tail stops)

version_fits-text :
    (stale_major stale_minor major minor : ℕ) (tail : List ℕ)
    → major < 2 ^ 31
    → minor < 2 ^ 31
    → Stops tail
    → version_fits stale_major stale_minor (version_text major minor tail)
      ≡ (leb 1 major && leb 1 minor)
unfolding version_fits version_part
version_fits-text stale_major stale_minor major minor tail h k stops =
    ap
      (λ parts. not (
        below_one (version_part stale_major 0 parts)
        || below_one (version_part stale_minor 1 parts)))
      (version_values major minor tail stops)
    ∙ ground (arith, h, k)

module _ (stale_major stale_minor : ℕ) where
  read_version-Gives :
      (version : List ℕ)
      → FitsType (str version)
      → Gives
          (read_version stale_major stale_minor)
          (str version ∷ [])
          (Result.ok (version_fits stale_major stale_minor version))
  unfolding read_version
  read_version-Gives version fits =
      then_str version _ fits
        (elim (version_fits stale_major stale_minor version)
          as (λ b.
            Gives (if b then (delete_message >> pure true) else pure false) [] (Result.ok b)) [
              | true ↦ delete_pure-Gives true
              | false ↦ pure-Gives false
            ])

  read_answered-Gives :
      (command : ℕ) (version : List ℕ)
      → FitsType (u8 command)
      → FitsType (str version)
      → (command == 0x0E) ≡ true
      → Gives
          (read_answered stale_major stale_minor)
          (u8 command ∷ str version ∷ [])
          (Result.ok (version_fits stale_major stale_minor version))
  unfolding read_answered
  read_answered-Gives command version fc fv same = then_u8 command _ fc (
      subst
        (λ b.
          Gives (if b then read_version stale_major stale_minor else pure false) (str version ∷ [])
            (Result.ok (version_fits stale_major stale_minor version)))
        (sym same) (read_version-Gives version fv))

  read_answered-other :
      (command : ℕ)
      → FitsType (u8 command)
      → (command == 0x0E) ≡ false
      → Gives (read_answered stale_major stale_minor) (u8 command ∷ []) (Result.ok false)
  unfolding read_answered
  read_answered-other command fc other = then_u8 command _ fc (
      subst
        (λ b.
          Gives (if b then read_version stale_major stale_minor else pure false) []
            (Result.ok false))
        (sym other) (pure-Gives false))

  -- The first of the values decides whether the others are read.
  reply-Gives :
      (response : ℕ) (is : List Item) (answer : Bool)
      → FitsType (u8 response)
      → Gives
          (if response == 1 then read_answered stale_major stale_minor else pure false)
          is
          (Result.ok answer)
      → Gives
          (proc_mon_check_version stale_major stale_minor).reply
          (u8 response ∷ is)
          (Result.ok answer)
  unfolding proc_mon_check_version
  reply-Gives response is answer fr next = then_u8 response _ fr next

  answered :
      (response : ℕ) (is : List Item) (answer : Bool)
      → (response == 1) ≡ true
      → Gives (read_answered stale_major stale_minor) is (Result.ok answer)
      → Gives
          (if response == 1 then read_answered stale_major stale_minor else pure false)
          is
          (Result.ok answer)
  answered response is answer good h =
      subst
        (λ b.
          Gives (if b then read_answered stale_major stale_minor else pure false) is
            (Result.ok answer))
        (sym good) h

  refused :
      (response : ℕ)
      → (response == 1) ≡ false
      → Gives
          (if response == 1 then read_answered stale_major stale_minor else pure false)
          []
          (Result.ok false)
  refused response bad =
      subst
        (λ b.
          Gives (if b then read_answered stale_major stale_minor else pure false) []
            (Result.ok false))
        (sym bad) (pure-Gives false)

  reply_is :
      (response command : ℕ) (version front rest junk : List ℕ) (n : Network)
      → All FitsType (version_items response command version)
      → Stands n.message_out front
          (encode_all (version_items response command version) ++ rest)
          junk
      → ((proc_mon_check_version stale_major stale_minor).reply n).1
        ≡ Result.ok
            ((response == 1) && (command == 0x0E) && version_fits stale_major stale_minor version)
  reply_is response command version front rest junk n (fr, (fc, (fv, _))) h =
      let reply = (proc_mon_check_version stale_major stale_minor).reply in
      let fits = version_fits stale_major stale_minor version in
      elim (Bool-cases (response == 1)) [
        | inl good ↦ elim (Bool-cases (command == 0x0E)) [
          | inl same ↦
              rw (good, same)
                (Gives-result reply (version_items response command version) [] (Result.ok fits)
                  (reply-Gives response _ fits fr (
                    answered response _ fits good (read_answered-Gives command version fc fv same)))
                  n front rest junk h)
          | inr other ↦
              rw (good, other)
                (Gives-result reply (u8 response ∷ u8 command ∷ []) (str version ∷ [])
                  (Result.ok false)
                  (reply-Gives response _ false fr
                    (answered response _ false good (read_answered-other command fc other)))
                  n front rest junk h)
        ]
        | inr bad ↦ rw bad (
            Gives-result reply (u8 response ∷ []) (u8 command ∷ str version ∷ []) (Result.ok false)
              (reply-Gives response [] false fr (refused response bad)) n front rest junk h)
      ]

  -- procMonCheckVersion answers true to a version of two numbers below 2^31 with a dot between them,
  -- whatever follows that is no digit, exactly when the response is one, the command is the one that
  -- was sent, and both numbers are one at least; the values fit their types on the wire.
  pub proc_mon_check_version-accepts :
      (response command major minor : ℕ) (tail front rest junk : List ℕ) (n : Network)
      → major < 2 ^ 31
      → minor < 2 ^ 31
      → Stops tail
      → All FitsType (version_items response command (version_text major minor tail))
      → Stands n.message_out front
          (encode_all (version_items response command (version_text major minor tail)) ++ rest)
          junk
      → ((proc_mon_check_version stale_major stale_minor).reply n).1
        ≡ Result.ok ((response == 1) && (command == 0x0E) && (leb 1 major && leb 1 minor))
  proc_mon_check_version-accepts response command major minor tail front rest junk n h k stops fits
        stands =
      reply_is response command (version_text major minor tail) front rest junk n fits stands
      ∙ ap (λ b. Result.ok ((response == 1) && (command == 0x0E) && b))
          (version_fits-text stale_major stale_minor major minor tail h k stops)
