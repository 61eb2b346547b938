-- ===== src/Prelude/Digits.antt =====
-- Decimal text: `std::to_string` on integers, and the zero-padded conversions of `snprintf`.
use Prim.Native.Nat.{ℕ, zero, suc, ◌+◌, ◌-◌, ◌/◌, ◌%◌}
use mathlib.Core.List.{List, [], ◌∷◌, ◌++◌}
use package.mariadb_columnstore_api.Prelude.Tests.{ltb, if◌then◌else◌}
use package.mariadb_columnstore_api.Prelude.Lists.{length, replicate}
use package.mariadb_columnstore_api.Prelude.Int.{ℤ, pos, negsuc}

-- The digits of `n` in front of `out`. Each round divides by ten, so `n` rounds are enough.
unfoldable pub digits_onto : ℕ → ℕ → List ℕ → List ℕ
digits_onto zero n out = (b'0' + n % 10) ∷ out
digits_onto (suc fuel) n out =
    let rest = digits_onto fuel (n / 10) ((b'0' + n % 10) ∷ out) in
    if ltb n 10 then (b'0' + n % 10) ∷ out else rest

-- `std::to_string(uint64_t)`
unfoldable pub to_string : ℕ → List ℕ
unfolding digits_onto
to_string n = digits_onto n n []

-- `std::to_string(int64_t)`
unfoldable pub to_string_ℤ : ℤ → List ℕ
unfolding to_string
to_string_ℤ (pos n) = to_string n
to_string_ℤ (negsuc n) = b'-' ∷ to_string (suc n)

-- `%.*u`: at least `width` digits.
unfoldable pub padded : ℕ → ℕ → List ℕ
unfolding to_string
padded width n = replicate (width - length (to_string n)) b'0' ++ to_string n

-- `%.*d`: a sign if the value is negative, then at least `width` digits.
unfoldable pub padded_ℤ : ℕ → ℤ → List ℕ
unfolding padded
padded_ℤ width (pos n) = padded width n
padded_ℤ width (negsuc n) = b'-' ∷ padded width (suc n)
