-- ===== src/Tests/Dates.antt =====
-- Runs of the dates and times.
use mariadb_columnstore_api.Prelude.{◌^◌, ◌%◌, ◌≡◌, ◌↔◌, pos, negsuc, arith, true, ltb_ℤ, ◌||◌}
use mariadb_columnstore_api.DateTime.{DateTime, validate_date, get_date_time_int}
use mariadb_columnstore_api.DateTime.Calendar
use mariadb_columnstore_api.DateTime.Calendar.{IsLeap, is_leap_iff, validate_date_iff, make_iff}
use mariadb_columnstore_api.DateTime.Packing.{
  Fits, unpack_date_time, unpack_date_time-get_date_time_int,
}
use mariadb_columnstore_api.Time.{Time, validate_time, get_time_int}
use mariadb_columnstore_api.Time.Packing
use mariadb_columnstore_api.Time.Packing.{validate_time_iff, unpack_time, unpack_time-get_time_int}

abbrev leap_day : DateTime
leap_day = record {
  year = 2020;
  month = 2;
  day = 29;
  hour = 1;
  minute = 2;
  second = 3;
  microsecond = 4;
}

abbrev next_day : DateTime
next_day = record leap_day { month = 3; day = 1 }

leap_day-Fits : Fits leap_day
leap_day-Fits = ground arith

next_day-Fits : Fits next_day
next_day-Fits = ground arith

validate_date_iff_example : (validate_date leap_day ≡ true) ↔ Calendar.IsValid leap_day
validate_date_iff_example = validate_date_iff leap_day

unpack_date_time-get_date_time_int_example :
    unpack_date_time (get_date_time_int leap_day)
    ≡ record leap_day { microsecond = leap_day.microsecond % 2 ^ 20 }
unpack_date_time-get_date_time_int_example =
    unpack_date_time-get_date_time_int leap_day leap_day-Fits

abbrev before_noon : Time
before_noon = record { is_neg = true; hour = negsuc 4; minute = 6; second = 7; microsecond = 8 }

before_noon-IsValid : Packing.IsValid before_noon
before_noon-IsValid = ground arith

validate_time_iff_example : (validate_time before_noon ≡ true) ↔ Packing.IsValid before_noon
validate_time_iff_example = validate_time_iff before_noon

unpack_time-get_time_int_example : unpack_time (get_time_int before_noon) ≡ record before_noon {
  is_neg = before_noon.is_neg || ltb_ℤ before_noon.hour (pos 0);
  microsecond = before_noon.microsecond % 2 ^ 24;
}
unpack_time-get_time_int_example = unpack_time-get_time_int before_noon before_noon-IsValid
