-- ===== src/Tests/Fixtures.antt =====
-- The data of the runs, and parameters of the model that are given concrete functions.
use mariadb_columnstore_api.Prelude.{
  ℕ, refl, ℤ, pos, ltb_ℤ, pos_part, List, [], ◌∷◌, false, Option, none, some, length, arith,
  to_word, ◌^◌,
}
use mariadb_columnstore_api.Types.{DataType, Column}
use mariadb_columnstore_api.Std.{Floats}
use mariadb_columnstore_api.Std.Compression.{Snappy, IsSnappy}
use mariadb_columnstore_api.Decimal.{Decimals}

-- Whole numbers in the place of floating-point numbers.
abbrev pub whole : Floats
whole = record {
  Double = ℤ;
  Float = ℤ;
  of_uint = pos;
  of_int = λ v. v;
  mul = λ a b. a;
  pow10 = pos;
  to_uint = pos_part;
  to_int = λ v. v;
  float_of_uint = pos;
  float_of_int = λ v. v;
  float_of_double = λ v. v;
  float_bits = to_word (2 ^ 32);
  double_bits = to_word (2 ^ 64);
  to_u8 = to_word (2 ^ 8);
  to_u16 = to_word (2 ^ 16);
  to_u32 = to_word (2 ^ 32);
  exceeds = λ d n. ltb_ℤ n d;
  below_zero = λ d. ltb_ℤ d (pos 0);
  float_below_zero = λ d. ltb_ℤ d (pos 0);
  to_text = λ d. [];
  strtod = λ s. (pos 0, false, false);
}

abbrev pub whole_decimals : Decimals whole
whole_decimals = record {
  Number = ℤ;
  is_zero = λ n. false;
  ilogb = λ n. pos 0;
  times_pow10 = λ n k. n;
  scale_up = λ n k. n;
  scale_down = λ n k. n;
  to_int64 = λ n. n;
  to_double = λ n. n;
  str18 = λ n. [];
  llround = λ d. d;
}

unfoldable pub unmarked : List ℕ → Option (List ℕ)
unmarked [] = none
unmarked (b ∷ bs) = some bs

unfoldable pub unmarked_length : List ℕ → Option ℕ
unmarked_length [] = none
unmarked_length (b ∷ bs) = some (length bs)

-- A compression that puts a byte in front.
unfoldable pub marker : Snappy
unfolding unmarked unmarked_length
marker = record {
  raw_compress = λ bs. 7 ∷ bs;
  uncompressed_length = unmarked_length;
  raw_uncompress = unmarked;
}

pub marker-IsSnappy : IsSnappy marker
unfolding marker unmarked unmarked_length
marker-IsSnappy = record {
  starts_with_length = λ bytes. omega arith;
  length_back = λ bytes. refl;
  bytes_back = λ bytes. refl;
}

-- A column that takes NULL.
abbrev pub column : DataType → ℕ → Column
column kind width = record {
  oid = 3000;
  name = 99 ∷ [];
  dict_oid = 0;
  kind = kind;
  width = width;
  position = 0;
  default_val = [];
  autoincrement = 0;
  precision = 9;
  scale = 0;
  nullable = 1;
  compression = 0;
}
