-- ===== src/DateTime/Packing.antt =====
-- The integers of `getDateInt` and `getDateTimeInt`, field by field.
use mariadb_columnstore_api.Prelude.{ℕ, ◌+◌, ◌*◌, ◌/◌, ◌%◌, ◌^◌, ◌<◌, ◌≡◌, ◌⊎◌, ◌↔◌, arith}
use mariadb_columnstore_api.Prelude.Bits.{bit_or-disjoint, bit_and-mask}
use mariadb_columnstore_api.DateTime.{DateTime, get_date_int, get_date_time_int}

-- The ranges that the bit fields hold.
pub record Fits (d : DateTime) : Type 0 where
  pub year_in : d.year < 2 ^ 16
  pub month_in : d.month < 2 ^ 4
  pub day_in : d.day < 2 ^ 6
  pub hour_in : d.hour < 2 ^ 6
  pub minute_in : d.minute < 2 ^ 6
  pub second_in : d.second < 2 ^ 6

pub get_date_int-sum :
    (d : DateTime)
    → Fits d
    → get_date_int d ≡ d.year * 2 ^ 16 + d.month * 2 ^ 12 + d.day * 2 ^ 6 + 62
unfolding get_date_int
get_date_int-sum d f = ground (
  arith,
  bit_or-disjoint 16 (d.year * 2 ^ 16 % 2 ^ 32) (d.month * 2 ^ 12),
  bit_or-disjoint 12 (d.year * 2 ^ 16 % 2 ^ 32 + d.month * 2 ^ 12) (d.day * 2 ^ 6),
  bit_or-disjoint 6 (d.year * 2 ^ 16 % 2 ^ 32 + d.month * 2 ^ 12 + d.day * 2 ^ 6) 62,
)

pub get_date_time_int-sum :
    (d : DateTime)
    → Fits d
    → get_date_time_int d
      ≡ d.year * 2 ^ 48
        + d.month * 2 ^ 44
        + d.day * 2 ^ 38
        + d.hour * 2 ^ 32
        + d.minute * 2 ^ 26
        + d.second * 2 ^ 20
        + d.microsecond % 2 ^ 20
unfolding get_date_time_int
get_date_time_int-sum d f =
    let y = d.year * 2 ^ 48 % 2 ^ 64 in
    let m = y + d.month * 2 ^ 44 in
    let a = m + d.day * 2 ^ 38 in
    let h = a + d.hour * 2 ^ 32 in
    let n = h + d.minute * 2 ^ 26 in
    ground (
      arith,
      bit_or-disjoint 48 y (d.month * 2 ^ 44),
      bit_or-disjoint 44 m (d.day * 2 ^ 38),
      bit_or-disjoint 38 a (d.hour * 2 ^ 32),
      bit_or-disjoint 32 h (d.minute * 2 ^ 26),
      bit_or-disjoint 26 n (d.second * 2 ^ 20),
      bit_or-disjoint 20 (n + d.second * 2 ^ 20) (d.microsecond % 2 ^ 20),
      bit_and-mask 20 d.microsecond,
    )

-- What a reader takes out of the DATE integer: year, month, day.
abbrev pub unpack_date : ℕ → ℕ × ℕ × ℕ
unpack_date w = (w / 2 ^ 16, w / 2 ^ 12 % 2 ^ 4, w / 2 ^ 6 % 2 ^ 6)

-- What a reader takes out of the DATETIME integer.
abbrev pub unpack_date_time : ℕ → DateTime
unpack_date_time w = record {
  year = w / 2 ^ 48;
  month = w / 2 ^ 44 % 2 ^ 4;
  day = w / 2 ^ 38 % 2 ^ 6;
  hour = w / 2 ^ 32 % 2 ^ 6;
  minute = w / 2 ^ 26 % 2 ^ 6;
  second = w / 2 ^ 20 % 2 ^ 6;
  microsecond = w % 2 ^ 20;
}

-- The year, month and day of a date whose fields fit their bits are read back from the integer of
-- `getDateInt`.
pub unpack_date-get_date_int :
    (d : DateTime) → Fits d → unpack_date (get_date_int d) ≡ (d.year, d.month, d.day)
unpack_date-get_date_int d f = ground (arith, get_date_int-sum d f)

-- A date and time whose fields fit their bits is read back from the integer of `getDateTimeInt`,
-- but for the microseconds, of which the lowest 20 bits are kept.
pub unpack_date_time-get_date_time_int :
    (d : DateTime)
    → Fits d
    → unpack_date_time (get_date_time_int d) ≡ record d { microsecond = d.microsecond % 2 ^ 20 }
unpack_date_time-get_date_time_int d f = ground (arith, get_date_time_int-sum d f)

-- Calendar order: the first field from the year down that differs decides.
abbrev pub Earlier : DateTime → DateTime → Type 0
Earlier a b =
    a.year < b.year
    ⊎ ((a.year ≡ b.year) × (a.month < b.month ⊎ ((a.month ≡ b.month) × a.day < b.day)))

-- The calendar order of two dates whose fields fit their bits is the order of their integers.
pub get_date_int-Earlier :
    (a b : DateTime) → Fits a → Fits b → Earlier a b ↔ (get_date_int a < get_date_int b)
get_date_int-Earlier a b fa fb =
    let first = get_date_int-sum a fa in
    let second = get_date_int-sum b fb in
    (ground (arith, first, second), ground (arith, first, second))
