-- ===== src/DateTime.antt =====
-- src/_time.c: the date and time of a header field.
pub mod Bounds
pub mod PointerSize
pub mod RoundTrip
pub mod Field
pub mod Names
pub mod Zone
use smtp_nel_filter.Prelude.{ℕ, Bool, true, false, Bytes, if◌then◌else◌, ℤ, pos, int32}
use smtp_nel_filter.Outcome.{
  Outcome, ok, error_parse, error_continue, error_memory, out_of_fuel, fault, Parser, bind, ◌>>=◌,
  ◌>>◌, skip,
}
use smtp_nel_filter.Platform.{Platform}
use smtp_nel_filter.Mime.Scan.{number_parse}
use smtp_nel_filter.Mime.Space.{
  fws_parse, cfws_parse, unstrict_crlf_parse, comma_parse, colon_parse,
}
use Names.{day_name_parse, month_name_parse}
use Zone.{zone_parse}

-- `struct smtp_date_time`
pub record DateTime : Type 0 where
  pub dt_day : ℤ
  pub dt_month : ℤ
  pub dt_year : ℤ
  pub dt_hour : ℤ
  pub dt_min : ℤ
  pub dt_sec : ℤ
  pub dt_zone : ℤ

-- Seven `int`s of four bytes. No memory is SMTP_ERROR_MEMORY in the one caller.
unfoldable pub date_time_new : Platform → DateTime → Parser DateTime
date_time_new platform fields s = if platform.malloc 28 then ok fields s else error_memory

unfoldable pub day_of_week_parse : Platform → ℕ → Parser ℕ
day_of_week_parse platform fuel = skip (cfws_parse fuel) >> day_name_parse platform

-- A number stored in an `int`.
unfoldable pub int_parse : Parser ℤ
int_parse = number_parse >>= λ n. ok (int32 n)

unfoldable pub day_parse : ℕ → Parser ℤ
day_parse fuel = skip (cfws_parse fuel) >> int_parse

unfoldable pub month_parse : Platform → ℕ → Parser ℕ
month_parse platform fuel = skip (cfws_parse fuel) >> month_name_parse platform

unfoldable pub year_parse : ℕ → Parser ℤ
year_parse fuel = skip (cfws_parse fuel) >> int_parse

pub record Date : Type 0 where
  pub day : ℤ
  pub month : ℤ
  pub year : ℤ

unfoldable pub date_parse : Platform → ℕ → Parser Date
date_parse platform fuel = do
  day ← day_parse fuel
  month ← month_parse platform fuel
  year ← year_parse fuel
  ok (record { day = day; month = pos month; year = year })

abbrev pub hour_parse : Parser ℤ
hour_parse = int_parse

abbrev pub minute_parse : Parser ℤ
minute_parse = int_parse

abbrev pub second_parse : Parser ℤ
second_parse = int_parse

pub record TimeOfDay : Type 0 where
  pub hour : ℤ
  pub min : ℤ
  pub sec : ℤ

-- The seconds, on the result of the second smtp_colon_parse at the cursor `here`.
unfoldable pub seconds_parse : Bytes → Outcome (Unit {0}) → Outcome ℤ
seconds_parse here (ok _ rest) = second_parse rest
seconds_parse here error_parse = ok (pos 0) here
seconds_parse here error_continue = error_continue
seconds_parse here error_memory = error_memory
seconds_parse here out_of_fuel = out_of_fuel
seconds_parse here fault = fault

unfoldable pub time_of_day_parse : ℕ → Parser TimeOfDay
time_of_day_parse fuel = do
  hour ← hour_parse
  colon_parse fuel
  min ← minute_parse
  sec ← λ s. seconds_parse s (colon_parse fuel s)
  ok (record { hour = hour; min = min; sec = sec })

pub record Time : Type 0 where
  pub of_day : TimeOfDay
  pub zone : ℤ

-- A zone that does not parse is 0.
unfoldable pub zone_or_zero : Bytes → Outcome ℤ → Outcome ℤ
zone_or_zero here (ok zone rest) = ok zone rest
zone_or_zero here error_parse = ok (pos 0) here
zone_or_zero here error_continue = error_continue
zone_or_zero here error_memory = error_memory
zone_or_zero here out_of_fuel = out_of_fuel
zone_or_zero here fault = fault

unfoldable pub time_parse : ℕ → Parser Time
time_parse fuel = do
  skip (cfws_parse fuel)
  of_day ← time_of_day_parse fuel
  skip fws_parse
  zone ← λ s. zone_or_zero s (zone_parse fuel s)
  ok (record { of_day = of_day; zone = zone })

-- The comma is required after a day of the week, and only there.
unfoldable pub weekday_comma : ℕ → Bytes → Outcome ℕ → Outcome (Unit {0})
weekday_comma fuel here (ok _ rest) = comma_parse fuel rest
weekday_comma fuel here error_parse = ok tt here
weekday_comma fuel here error_continue = error_continue
weekday_comma fuel here error_memory = error_memory
weekday_comma fuel here out_of_fuel = out_of_fuel
weekday_comma fuel here fault = fault

unfoldable pub date_time_parse : Platform → ℕ → Parser DateTime
date_time_parse platform fuel = do
  λ s. weekday_comma fuel s (day_of_week_parse platform fuel s)
  date ← date_parse platform fuel
  fws_parse
  time ← time_parse fuel
  date_time_new platform (record {
    dt_day = date.day;
    dt_month = date.month;
    dt_year = date.year;
    dt_hour = time.of_day.hour;
    dt_min = time.of_day.min;
    dt_sec = time.of_day.sec;
    dt_zone = time.zone;
  })
