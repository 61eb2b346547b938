-- ===== src/Commands/Version.antt =====
-- procMonCheckVersion, of src/util_commands.cpp.
use mariadb_columnstore_api.Prelude.{
  ℕ, zero, suc, ◌^◌, ◌-◌, ◌%◌, List, [], ◌∷◌, Bool, true, false, ◌||◌, not, if◌then◌else◌, ◌==◌,
  leb,
}
use mariadb_columnstore_api.Std.Scan.{sscanf, Directive}
use mariadb_columnstore_api.Messaging.Encode.{Item}
use mariadb_columnstore_api.Commands.Reader.{
  Reader, Command, pure, ◌>>=◌, ◌>>◌, and_do, read_word, read_u8, read_str, delete_message,
}
use Item.{u8}

-- A number of the version as `int`; `stale` is what the variable holds where `sscanf` sets none.
unfoldable pub version_part : ℕ → ℕ → List (Bool × ℕ) → ℕ
version_part stale i [] = stale
version_part stale zero ((minus, n) ∷ vs) = if minus then (2 ^ 64 - n) % 2 ^ 32 else n % 2 ^ 32
version_part stale (suc i) (v ∷ vs) = version_part stale i vs

-- `v < 1` of a word that stands for an `int`.
abbrev pub below_one : ℕ → Bool
below_one v = (v == 0) || leb (2 ^ 31) v

abbrev pub version_format : List Directive
version_format =
    Directive.number
    ∷ Directive.literal 46
    ∷ Directive.number
    ∷ Directive.literal 46
    ∷ Directive.number
    ∷ []

-- The test of the version's text.
unfoldable pub version_fits : ℕ → ℕ → List ℕ → Bool
unfolding sscanf version_part
version_fits stale_major stale_minor version =
    let parts = (sscanf version_format version).values in
    not
      (below_one (version_part stale_major 0 parts) || below_one (version_part stale_minor 1 parts))

-- The replies of procMonCheckVersion behind its first and its second check.
unfoldable pub read_version : ℕ → ℕ → Reader Bool
unfolding and_do read_str version_fits
read_version stale_major stale_minor = do
  version ← read_str
  if version_fits stale_major stale_minor version then (delete_message >> pure true) else pure false

unfoldable pub read_answered : ℕ → ℕ → Reader Bool
unfolding and_do read_word read_version
read_answered stale_major stale_minor = do
  command ← read_u8
  if command == 0x0E then read_version stale_major stale_minor else pure false

-- procMonCheckVersion: an early `return false` leaves the message.
unfoldable pub proc_mon_check_version : ℕ → ℕ → Command Bool
unfolding and_do read_word read_answered
proc_mon_check_version stale_major stale_minor = record {
  request = u8 0x0E ∷ [];
  reply = do
    response ← read_u8
    if response == 1 then read_answered stale_major stale_minor else pure false;
}
