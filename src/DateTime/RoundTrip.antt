-- ===== src/DateTime/RoundTrip.antt =====
-- A date that is written out in the form of RFC 2822 is read back, where a pointer has four bytes.
use smtp_nel_filter.Prelude.{
  ℕ, suc, ◌%◌, ◌<◌, ◌≤◌, ◌≡◌, refl, Bool, true, false, [], ◌∷◌, ◌++◌, Bytes, All, arith, u32_mod, ℤ,
  pos, int32, Option, none, some,
}
use smtp_nel_filter.Outcome.{ok, error_parse}
use smtp_nel_filter.Platform.{Platform}
use smtp_nel_filter.Mime.Chars.{is_digit, is_wsp}
use smtp_nel_filter.Mime.Scan.{char_parse}
use smtp_nel_filter.Mime.Scan.Number.{decimal, number-digits}
use smtp_nel_filter.Mime.Space.{cfws_parse, fws_parse, unstrict_char_parse}
use smtp_nel_filter.Mime.Space.Plain.{
  is_plain, fws-blanks, cfws-plain, cfws-blanks, unstrict_char-plain,
}
use smtp_nel_filter.DateTime.Names.{
  name_parse, guess_day_name, day_name, month_name, day_name_parse,
}
use smtp_nel_filter.DateTime.Names.Table.{
  day_name-IsName, month_name-IsName, IsName-plain, day_name_parse-day_name,
  month_name_parse-month_name,
}
use smtp_nel_filter.DateTime.Zone.Offsets.{signed, sign_byte, zone_parse-signed}
use smtp_nel_filter.DateTime.{
  DateTime, date_time_new, day_of_week_parse, int_parse, day_parse, month_parse, year_parse,
  date_parse, seconds_parse, TimeOfDay, time_of_day_parse, zone_or_zero, time_parse, weekday_comma,
  date_time_parse,
}

-- A nonempty run of digits, and the number it denotes.
pub record Digits : Type 0 where
  pub first : ℕ
  pub more : Bytes

abbrev pub value : Digits → ℕ
value d = decimal 0 (d.first ∷ d.more)

abbrev pub IsDigits : Digits → Type 0
IsDigits d = All is_digit (d.first ∷ d.more) × (value d < 2147483648)

-- The digits, and what follows them.
abbrev pub digits : Digits → Bytes → Bytes
digits d rest = d.first ∷ (d.more ++ rest)

digit-plain : (c : ℕ) → is_digit c ≡ true → is_plain c ≡ true
unfolding is_plain is_digit
digit-plain c h = ground arith

int_parse-digits :
    (d : Digits) (c : ℕ) (rest : Bytes)
    → IsDigits d
    → is_digit c ≡ false
    → int_parse (digits d (c ∷ rest)) ≡ ok (pos (value d)) (c ∷ rest)
unfolding int_parse int32
int_parse-digits d c rest (h, lt) e =
    let small : value d % u32_mod ≡ value d = omega arith in
    rw (number-digits d.first d.more c rest h e, small) (ground arith)

cfws_blank :
    (fuel : ℕ) (c : ℕ) (s : Bytes)
    → is_plain c ≡ true
    → cfws_parse (suc fuel) (b' ' ∷ c ∷ s) ≡ ok tt (c ∷ s)
cfws_blank fuel c s h = cfws-blanks c s h fuel b' ' [] (unfold is_wsp in refl, tt)

fws_blank : (c : ℕ) (s : Bytes) → is_plain c ≡ true → fws_parse (b' ' ∷ c ∷ s) ≡ ok tt (c ∷ s)
fws_blank c s h = fws-blanks c s h b' ' [] (unfold is_wsp in refl, tt)

-- A number behind one blank.
day_parse-digits :
    (fuel : ℕ) (d : Digits) (c : ℕ) (rest : Bytes)
    → IsDigits d
    → is_digit c ≡ false
    → day_parse (suc fuel) (b' ' ∷ digits d (c ∷ rest)) ≡ ok (pos (value d)) (c ∷ rest)
unfolding day_parse
day_parse-digits fuel d c rest h e =
    rw (cfws_blank fuel d.first (d.more ++ c ∷ rest) (digit-plain _ h.0.0))
      (int_parse-digits d c rest h e)

year_parse-digits :
    (fuel : ℕ) (d : Digits) (c : ℕ) (rest : Bytes)
    → IsDigits d
    → is_digit c ≡ false
    → year_parse (suc fuel) (b' ' ∷ digits d (c ∷ rest)) ≡ ok (pos (value d)) (c ∷ rest)
unfolding year_parse
year_parse-digits fuel d c rest h e =
    rw (cfws_blank fuel d.first (d.more ++ c ∷ rest) (digit-plain _ h.0.0))
      (int_parse-digits d c rest h e)

month_parse-name :
    (platform : Platform) (fuel m : ℕ) (rest : Bytes)
    → platform.sizeof_ptr ≡ 4
    → 1 ≤ m
    → m ≤ 12
    → month_parse platform (suc fuel) (b' ' ∷ (month_name m ++ rest)) ≡ ok m rest
unfolding month_parse
month_parse-name platform fuel m rest four p q =
    let (c, r, e, plain) = IsName-plain rest (month_name-IsName m) in
    let blank : cfws_parse (suc fuel) (b' ' ∷ (month_name m ++ rest))
        ≡ ok tt (month_name m ++ rest) =
      rw e (cfws_blank fuel c r plain) in
    rw blank (month_name_parse-month_name platform m rest four p q)

-- A date as RFC 2822 writes it; the day of the week and the seconds may be missing.
pub record DateText : Type 0 where
  pub weekday : Option ℕ
  pub day : Digits
  pub month : ℕ
  pub year : Digits
  pub hour : Digits
  pub min : Digits
  pub sec : Option Digits
  pub plus : Bool
  pub zone : Digits

abbrev pub IsWeekday : Option ℕ → Type 0
IsWeekday none = Unit
IsWeekday (some w) = (1 ≤ w) × (w ≤ 7)

abbrev pub IsSeconds : Option Digits → Type 0
IsSeconds none = Unit
IsSeconds (some d) = IsDigits d

pub record IsDateText (t : DateText) : Type 0 where
  pub weekday_ok : IsWeekday t.weekday
  pub day_ok : IsDigits t.day
  pub month_pos : 1 ≤ t.month
  pub month_le : t.month ≤ 12
  pub year_ok : IsDigits t.year
  pub hour_ok : IsDigits t.hour
  pub min_ok : IsDigits t.min
  pub sec_ok : IsSeconds t.sec
  pub zone_ok : IsDigits t.zone

abbrev pub write_weekday : Option ℕ → Bytes → Bytes
write_weekday none rest = rest
write_weekday (some w) rest = day_name w ++ b',' ∷ rest

abbrev pub write_seconds : Option Digits → Bytes → Bytes
write_seconds none rest = rest
write_seconds (some d) rest = b':' ∷ digits d rest

abbrev pub write_zone : DateText → Bytes → Bytes
write_zone t rest = b' ' ∷ sign_byte t.plus ∷ digits t.zone rest

abbrev pub write_time : DateText → Bytes → Bytes
write_time t rest = digits t.hour (b':' ∷ digits t.min (write_seconds t.sec (write_zone t rest)))

abbrev pub write_date : DateText → Bytes → Bytes
write_date t rest = b' ' ∷ digits t.day (b' ' ∷ (month_name t.month ++ b' ' ∷ digits t.year rest))

-- "Mon, 12 Jan 2004 10:20:30 -0130", and what follows it.
abbrev pub write : DateText → Bytes → Bytes
write t rest = write_weekday t.weekday (write_date t (b' ' ∷ write_time t rest))

abbrev pub seconds_value : Option Digits → ℤ
seconds_value none = pos 0
seconds_value (some d) = pos (value d)

-- What the text denotes.
abbrev pub denotes : DateText → DateTime
denotes t = record {
  dt_day = pos (value t.day);
  dt_month = pos t.month;
  dt_year = pos (value t.year);
  dt_hour = pos (value t.hour);
  dt_min = pos (value t.min);
  dt_sec = seconds_value t.sec;
  dt_zone = signed t.plus (value t.zone);
}

comma : (fuel : ℕ) (s : Bytes) → unstrict_char_parse (suc fuel) b',' (b',' ∷ s) ≡ ok tt s
comma fuel s = unstrict_char-plain fuel b',' s (unfold is_plain in refl)

colon : (fuel : ℕ) (s : Bytes) → unstrict_char_parse (suc fuel) b':' (b':' ∷ s) ≡ ok tt s
colon fuel s = unstrict_char-plain fuel b':' s (unfold is_plain in refl)

no_day_name :
    (platform : Platform) (c : ℕ) (rest : Bytes)
    → is_digit c ≡ true
    → day_name_parse platform (c ∷ rest) ≡ error_parse
unfolding day_name_parse name_parse guess_day_name is_digit
no_day_name platform c rest h = let e : guess_day_name (c ∷ rest) ≡ none = ground arith in rw e

weekday_comma-write :
    (platform : Platform) (fuel : ℕ) (w : Option ℕ) (c : ℕ) (rest : Bytes)
    → platform.sizeof_ptr ≡ 4
    → IsWeekday w
    → is_digit c ≡ true
    → let s = write_weekday w (b' ' ∷ c ∷ rest) in
      weekday_comma (suc fuel) s (day_of_week_parse platform (suc fuel) s) ≡ ok tt (b' ' ∷ c ∷ rest)
unfolding weekday_comma day_of_week_parse
weekday_comma-write platform fuel none c rest four h e =
    rw (cfws_blank fuel c rest (digit-plain c e), no_day_name platform c rest e)
weekday_comma-write platform fuel (some w) c rest four h e =
    let (x, r, split, plain) = IsName-plain (b',' ∷ b' ' ∷ c ∷ rest) (day_name-IsName w) in
    let none_there : cfws_parse (suc fuel) (day_name w ++ b',' ∷ b' ' ∷ c ∷ rest) ≡ error_parse =
      rw split (cfws-plain x r plain fuel) in
    rw (none_there, day_name_parse-day_name platform w (b',' ∷ b' ' ∷ c ∷ rest) four h.0 h.1)
      (comma fuel (b' ' ∷ c ∷ rest))

sign-plain : (plus : Bool) → is_plain (sign_byte plus) ≡ true
unfolding is_plain
sign-plain true = refl
sign-plain false = refl

-- The time of day ends at the blank before the zone, whether it has seconds or not.
seconds_parse-write :
    (fuel : ℕ) (sec : Option Digits) (plus : Bool) (rest : Bytes)
    → IsSeconds sec
    → let s = write_seconds sec (b' ' ∷ sign_byte plus ∷ rest) in
      seconds_parse s (unstrict_char_parse (suc fuel) b':' s)
      ≡ ok (seconds_value sec) (b' ' ∷ sign_byte plus ∷ rest)
unfolding seconds_parse
seconds_parse-write fuel none plus rest h = rw (no_colon plus)
  where
    no_colon :
        (plus : Bool)
        → unstrict_char_parse (suc fuel) b':' (b' ' ∷ sign_byte plus ∷ rest) ≡ error_parse
    no_colon true =
        unfold unstrict_char_parse in
        rw (cfws_blank fuel b'+' rest (unfold is_plain in refl)) (unfold char_parse in refl)
    no_colon false =
        unfold unstrict_char_parse in
        rw (cfws_blank fuel b'-' rest (unfold is_plain in refl)) (unfold char_parse in refl)
seconds_parse-write fuel (some d) plus rest h =
    rw (colon fuel (digits d (b' ' ∷ sign_byte plus ∷ rest)))
      (int_parse-digits d b' ' (sign_byte plus ∷ rest) h (unfold is_digit in refl))

abbrev time_of_day : DateText → TimeOfDay
time_of_day t = record {
  hour = pos (value t.hour);
  min = pos (value t.min);
  sec = seconds_value t.sec;
}

-- The byte behind the minutes is no digit.
min-ends :
    (sec : Option Digits) (r : Bytes)
    → (c : ℕ) × (s : Bytes) × (write_seconds sec (b' ' ∷ r) ≡ c ∷ s) × (is_digit c ≡ false)
unfolding is_digit
min-ends none r = (b' ', r, refl, refl)
min-ends (some d) r = (b':', digits d (b' ' ∷ r), refl, refl)

min_parse-write :
    (t : DateText) (r : Bytes)
    → IsDateText t
    → int_parse (digits t.min (write_seconds t.sec (b' ' ∷ r)))
      ≡ ok (pos (value t.min)) (write_seconds t.sec (b' ' ∷ r))
min_parse-write t r h =
    let (c, s, e, no_digit) = min-ends t.sec r in
    rw e (int_parse-digits t.min c s h.min_ok no_digit)

time_of_day_parse-write :
    (fuel : ℕ) (t : DateText) (rest : Bytes)
    → IsDateText t
    → time_of_day_parse (suc fuel) (write_time t rest) ≡ ok (time_of_day t) (write_zone t rest)
unfolding time_of_day_parse
time_of_day_parse-write fuel t rest h = rw (
  int_parse-digits t.hour b':' (digits t.min (write_seconds t.sec (write_zone t rest))) h.hour_ok
      (unfold is_digit in refl),
  colon fuel (digits t.min (write_seconds t.sec (write_zone t rest))),
  min_parse-write t (sign_byte t.plus ∷ digits t.zone rest) h,
  seconds_parse-write fuel t.sec t.plus (digits t.zone rest) h.sec_ok,
)

time_parse-write :
    (fuel : ℕ) (t : DateText) (c : ℕ) (rest : Bytes)
    → IsDateText t
    → is_digit c ≡ false
    → time_parse (suc fuel) (write_time t (c ∷ rest))
      ≡ ok (record { of_day = time_of_day t; zone = signed t.plus (value t.zone) }) (c ∷ rest)
unfolding time_parse zone_or_zero
time_parse-write fuel t c rest h e = rw (
  cfws-plain t.hour.first _ (digit-plain _ h.hour_ok.0.0) fuel,
  time_of_day_parse-write fuel t (c ∷ rest) h,
  fws_blank (sign_byte t.plus) (digits t.zone (c ∷ rest)) (sign-plain t.plus),
  zone_parse-signed fuel t.plus t.zone.first t.zone.more c rest h.zone_ok.0 e h.zone_ok.1,
)

date_parse-write :
    (platform : Platform) (fuel : ℕ) (t : DateText) (rest : Bytes)
    → platform.sizeof_ptr ≡ 4
    → IsDateText t
    → date_parse platform (suc fuel) (write_date t (b' ' ∷ rest))
      ≡ ok
          (record { day = pos (value t.day); month = pos t.month; year = pos (value t.year) })
          (b' ' ∷ rest)
unfolding date_parse
date_parse-write platform fuel t rest four h = rw (
  day_parse-digits fuel t.day b' ' (month_name t.month ++ b' ' ∷ digits t.year (b' ' ∷ rest))
      h.day_ok (unfold is_digit in refl),
  month_parse-name platform fuel t.month (b' ' ∷ digits t.year (b' ' ∷ rest)) four h.month_pos
      h.month_le,
  year_parse-digits fuel t.year b' ' rest h.year_ok (unfold is_digit in refl),
)

-- Where pointers have four bytes and memory is granted, smtp_date_time_parse reads back every date
-- that is written out, with or without a day of the week and seconds, and stops at the byte behind
-- it, which is no digit.
pub date_time_parse-write :
    (platform : Platform) (fuel : ℕ) (t : DateText) (c : ℕ) (rest : Bytes)
    → platform.sizeof_ptr ≡ 4
    → platform.malloc 28 ≡ true
    → IsDateText t
    → is_digit c ≡ false
    → date_time_parse platform (suc fuel) (write t (c ∷ rest)) ≡ ok (denotes t) (c ∷ rest)
unfolding date_time_parse date_time_new
date_time_parse-write platform fuel t c rest four memory h e = rw (
  weekday_comma-write platform fuel t.weekday t.day.first _ four h.weekday_ok h.day_ok.0.0,
  date_parse-write platform fuel t (write_time t (c ∷ rest)) four h,
  fws_blank t.hour.first _ (digit-plain _ h.hour_ok.0.0),
  time_parse-write fuel t c rest h e,
  memory,
)
