-- ===== src/Time/Packing.antt =====
-- The integer of `getTimeInt`, field by field.
use Prim.Native.Nat.{bit_or}
use mariadb_columnstore_api.Prelude.{
  ℕ, ◌+◌, ◌*◌, ◌/◌, ◌%◌, ◌^◌, ◌≤◌, ◌<◌, ◌≡◌, ◌↔◌, ℤ, pos, negsuc, ◌≤ℤ◌, Bool, true, false, ◌||◌,
  ◌-◌, ◌==◌, ltb_ℤ, arith, of_word, refl,
}
use mariadb_columnstore_api.Prelude.Bits.{bit_or-disjoint, bit_or-shifted, bit_and-mask}
use mariadb_columnstore_api.Time.{Time, validate_time, get_time_int, of_bool}

pub record IsValid (t : Time) : Type 0 where
  pub hour_low : negsuc 837 ≤ℤ t.hour
  pub hour_high : t.hour ≤ℤ pos 838
  pub minute_in : t.minute ≤ 59
  pub second_in : t.second ≤ 59

-- `validateTime` accepts exactly the valid times.
pub validate_time_iff : (t : Time) → (validate_time t ≡ true) ↔ IsValid t
unfolding validate_time
validate_time_iff t = (λ h. ground arith, λ v. ground arith)

-- What a reader takes out of the TIME integer: the sign bit, an hour of twelve bits that is read as
-- signed, and the rest.
abbrev pub unpack_time : ℕ → Time
unpack_time w = record {
  is_neg = w / 2 ^ 63 == 1;
  hour = of_word (2 ^ 12) (w / 2 ^ 40 % 2 ^ 12);
  minute = w / 2 ^ 32 % 2 ^ 8;
  second = w / 2 ^ 24 % 2 ^ 8;
  microsecond = w % 2 ^ 24;
}

-- The fields below the hour do not overlap, nor do they reach the bits from 40 on.
or_tail :
    (b n c m : ℕ)
    → b % 2 ^ 40 ≡ 0
    → n < 2 ^ 8
    → c < 2 ^ 8
    → m < 2 ^ 24
    → bit_or (bit_or (bit_or b (n * 2 ^ 32)) (c * 2 ^ 24)) m ≡ b + n * 2 ^ 32 + c * 2 ^ 24 + m
or_tail b n c m hb hn hc hm = ground (
  arith,
  bit_or-disjoint 40 b (n * 2 ^ 32),
  bit_or-disjoint 32 (b + n * 2 ^ 32) (c * 2 ^ 24),
  bit_or-disjoint 24 (b + n * 2 ^ 32 + c * 2 ^ 24) m,
)

-- The bits from 40 on, for an hour that is not negative and for one that is: the sign extension
-- of a negative hour sets the sign bit by itself.
head_pos :
    (s h : ℕ)
    → s < 2
    → h < 2 ^ 11
    → bit_or (bit_or (s * 2 ^ 63) (0x7ff * 2 ^ 52)) (h % 2 ^ 64 * 2 ^ 40 % 2 ^ 64)
      ≡ s * 2 ^ 63 + 0x7ff * 2 ^ 52 + h * 2 ^ 40
head_pos s h hs hh = ground (
  arith,
  bit_or-disjoint 63 (s * 2 ^ 63) (0x7ff * 2 ^ 52),
  bit_or-disjoint 52 (s * 2 ^ 63 + 0x7ff * 2 ^ 52) (h % 2 ^ 64 * 2 ^ 40 % 2 ^ 64),
)

ones : (s : Bool) → bit_or (of_bool s * 2 ^ 11 + 0x7ff) 0xfff ≡ 0xfff
ones true = refl
ones false = refl

head_neg :
    (s : Bool) (k : ℕ)
    → k < 2 ^ 11
    → bit_or
        (bit_or (of_bool s * 2 ^ 63) (0x7ff * 2 ^ 52))
        ((2 ^ 64 - 1 - k % 2 ^ 64) * 2 ^ 40 % 2 ^ 64)
      ≡ 0xfff * 2 ^ 52 + (2 ^ 12 - 1 - k) * 2 ^ 40
head_neg s k hk = ground (
  arith,
  bit_or-disjoint 63 (of_bool s * 2 ^ 63) (0x7ff * 2 ^ 52),
  bit_or-shifted 52 (of_bool s * 2 ^ 11 + 0x7ff) 0xfff ((2 ^ 12 - 1 - k) * 2 ^ 40),
  ones s,
)

get_time_int-pos :
    (s : Bool) (h n c m : ℕ)
    → h < 2 ^ 11
    → n < 2 ^ 8
    → c < 2 ^ 8
    → get_time_int (record { is_neg = s; hour = pos h; minute = n; second = c; microsecond = m })
      ≡ of_bool s * 2 ^ 63 + 0x7ff * 2 ^ 52 + h * 2 ^ 40 + n * 2 ^ 32 + c * 2 ^ 24 + m % 2 ^ 24
unfolding get_time_int
get_time_int-pos s h n c m hh hn hc = ground (
  arith,
  head_pos (of_bool s) h,
  or_tail (of_bool s * 2 ^ 63 + 0x7ff * 2 ^ 52 + h * 2 ^ 40) n c (m % 2 ^ 24),
  bit_and-mask 24 m,
)

get_time_int-negsuc :
    (s : Bool) (k n c m : ℕ)
    → k < 2 ^ 11
    → n < 2 ^ 8
    → c < 2 ^ 8
    → get_time_int (record { is_neg = s; hour = negsuc k; minute = n; second = c; microsecond = m })
      ≡ 0xfff * 2 ^ 52 + (2 ^ 12 - 1 - k) * 2 ^ 40 + n * 2 ^ 32 + c * 2 ^ 24 + m % 2 ^ 24
unfolding get_time_int
get_time_int-negsuc s k n c m hh hn hc = ground (
  arith,
  head_neg s k,
  or_tail (0xfff * 2 ^ 52 + (2 ^ 12 - 1 - k) * 2 ^ 40) n c (m % 2 ^ 24),
  bit_and-mask 24 m,
)

unpack-sign :
    (s : Bool) (h : ℤ) (n c m : ℕ)
    → negsuc 837 ≤ℤ h
    → h ≤ℤ pos 838
    → n ≤ 59
    → c ≤ 59
    → unpack_time
        (get_time_int (record { is_neg = s; hour = h; minute = n; second = c; microsecond = m }))
      ≡ record {
        is_neg = s || ltb_ℤ h (pos 0);
        hour = h;
        minute = n;
        second = c;
        microsecond = m % 2 ^ 24;
      }
unpack-sign s (pos h) n c m lo hi hn hc = ground (arith, get_time_int-pos s h n c m)
unpack-sign s (negsuc k) n c m lo hi hn hc = ground (arith, get_time_int-negsuc s k n c m)

-- A valid time is read back from its integer, but for the microseconds, of which 24 bits are kept,
-- and the sign, which a negative hour sets too.
pub unpack_time-get_time_int :
    (t : Time)
    → IsValid t
    → unpack_time (get_time_int t)
      ≡ record t { is_neg = t.is_neg || ltb_ℤ t.hour (pos 0); microsecond = t.microsecond % 2 ^ 24 }
unpack_time-get_time_int t v =
    unpack-sign t.is_neg t.hour t.minute t.second t.microsecond v.hour_low v.hour_high v.minute_in
      v.second_in
