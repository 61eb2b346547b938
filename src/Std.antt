-- ===== src/Std.antt =====
-- What the library takes from the C++ implementation and cannot be read in this repository: the
-- floating-point operations of the conversions. Their results are values of the parameter, and no
-- theorem relies on a law about them.
pub mod Scan
pub mod Spelled
pub mod Compression
use mariadb_columnstore_api.Prelude.{ℕ, ℤ, Bool, List}

pub record Floats : Type 1 where
  pub Double : Type 0
  pub Float : Type 0
  -- `(double) v`, and the product and the power that scale a decimal
  pub of_uint : ℕ → Double
  pub of_int : ℤ → Double
  pub mul : Double → Double → Double
  pub pow10 : ℕ → Double
  -- `(uint64_t) d` and `(int64_t) d`
  pub to_uint : Double → ℕ
  pub to_int : Double → ℤ
  -- `(float) v` from each source, and the bytes that `memcpy` takes from a value
  pub float_of_uint : ℕ → Float
  pub float_of_int : ℤ → Float
  pub float_of_double : Double → Float
  pub float_bits : Float → ℕ
  pub double_bits : Double → ℕ
  -- narrowing casts, `d > n` and `d < n` for an integer, and the sign tests
  pub to_u8 : Double → ℕ
  pub to_u16 : Double → ℕ
  pub to_u32 : Double → ℕ
  pub exceeds : Double → ℤ → Bool
  pub below_zero : Double → Bool
  pub float_below_zero : Float → Bool
  -- `std::to_string(double)`, and `strtod`: the value, `*tmp == '\0'`, and whether `errno` is set
  pub to_text : Double → List ℕ
  pub strtod : List ℕ → Double × Bool × Bool
