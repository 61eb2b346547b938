-- ===== src/Decimal.antt =====
-- ColumnStoreDecimalImpl, of src/mcsapi_types.cpp. The decimal numbers are those of
-- Boost.Multiprecision, which this repository does not hold: their type and operations are the
-- parameter `Decimals`.
use mariadb_columnstore_api.Prelude.{
  ℕ, ◌^◌, ℤ, pos, ◌-ℤ◌, ltb_ℤ, List, Bool, if◌then◌else◌, to_word,
}
use mariadb_columnstore_api.Std.{Floats}

pub record Decimals (fp : Floats) : Type 1 where
  pub Number : Type 0
  -- `decNum == 0`, `ilogb`, and `decNum * pow(10, n)`
  pub is_zero : Number → Bool
  pub ilogb : Number → ℤ
  pub times_pow10 : Number → ℤ → Number
  -- `*= pow(Decimal18(10), n)` and `/= pow(Decimal18(10), n)`
  pub scale_up : Number → ℤ → Number
  pub scale_down : Number → ℤ → Number
  -- `static_cast<int64_t>`, `convert_to<double>`, `str(18)`
  pub to_int64 : Number → ℤ
  pub to_double : Number → fp.Double
  pub str18 : Number → List ℕ
  -- `llround`
  pub llround : fp.Double → ℤ

module _ {fp : Floats} (dec : Decimals fp) where
  open dec use {
    Number, is_zero, ilogb, times_pow10, scale_up, scale_down, to_int64, to_double, llround,
  }

  -- getDecimalInt: the result is a `uint64_t`.
  pub get_decimal_int : Number → ℕ → ℕ
  get_decimal_int n scale =
      let decimal_scale = pos 18 -ℤ ilogb n in
      let converted = times_pow10 n decimal_scale in
      let rescaled =
        if ltb_ℤ decimal_scale (pos scale)
        then scale_up converted (pos scale -ℤ decimal_scale)
        else if ltb_ℤ (pos scale) decimal_scale
        then scale_down converted (decimal_scale -ℤ pos scale)
        else converted in
      if is_zero n then 0 else to_word (2 ^ 64) (to_int64 rescaled)

  -- getDouble
  pub get_double : Number → fp.Double
  get_double n = to_double n

  -- getInt
  pub get_int : Number → ℤ
  unfolding get_double
  get_int n = llround (get_double n)
