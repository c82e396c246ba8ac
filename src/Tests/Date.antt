-- ===== src/Tests/Date.antt =====
-- Dates, names and zones at concrete inputs.
use smtp_nel_filter.Prelude.{
  All-all, ◌≡◌, refl, codes, Bytes, [], ◌∷◌, ◌++◌, ℕ, some, false, pos, negsuc, arith, int32,
}
use smtp_nel_filter.Outcome.{ok, error_parse, Parser}
use smtp_nel_filter.Platform.{Platform, ilp32, lp64}
use smtp_nel_filter.Mime.Chars.{is_wsp, is_digit}
use smtp_nel_filter.Mime.Scan.{
  wsp_loop, char_parse, crlf_parse, number_parse, token_case_insensitive_len_parse, advance,
}
use smtp_nel_filter.Mime.Space.{
  fws_end, fws_crlf, fws_parse, comment_parse, repeat, repeat_next, cfws_fws_comment_parse,
  cfws_parse, unstrict_char_parse,
}
use smtp_nel_filter.DateTime.Names.{
  guess_day_name, day_name, name_parse, day_name_parse, guess_month, month_name, month_name_parse,
}
use smtp_nel_filter.DateTime.Zone.{
  zone_loop, zone_minus, zone_sign, zone_number_parse, zone_switch, zone_named_parse, zone_parse,
}
use smtp_nel_filter.DateTime.RoundTrip.{Digits, DateText, IsDateText, write, date_time_parse-write}
use smtp_nel_filter.DateTime.PointerSize.{HasNul, date_time_parse-HasNul}
use smtp_nel_filter.Mime.Unstructured.Folding.{is_inline}
use smtp_nel_filter.DateTime.Field.{orig_date_parse, orig_date_parse-write}
use smtp_nel_filter.Outcome.Suffix.{IsWithin}
use smtp_nel_filter.DateTime.Bounds.{date_time-IsWithin}
use smtp_nel_filter.DateTime.{
  DateTime, date_time_new, day_of_week_parse, int_parse, day_parse, month_parse, year_parse,
  date_parse, seconds_parse, time_of_day_parse, zone_or_zero, time_parse, weekday_comma,
  date_time_parse,
}

-- Opens all that a run of smtp_date_time_parse computes with.
run : Platform → ℕ → Parser DateTime
unfolding date_time_parse date_time_new day_of_week_parse int_parse day_parse month_parse year_parse
    date_parse seconds_parse time_of_day_parse zone_or_zero time_parse weekday_comma zone_loop
    zone_minus zone_sign zone_number_parse zone_switch zone_named_parse zone_parse guess_day_name
    day_name name_parse day_name_parse guess_month month_name month_name_parse fws_end fws_crlf
    fws_parse comment_parse repeat repeat_next cfws_fws_comment_parse cfws_parse unstrict_char_parse
    wsp_loop char_parse crlf_parse number_parse token_case_insensitive_len_parse advance int32
run = date_time_parse

-- The date of both texts below.
abbrev value : DateTime
value = record {
  dt_day = pos 12;
  dt_month = pos 1;
  dt_year = pos 2004;
  dt_hour = pos 10;
  dt_min = pos 20;
  dt_sec = pos 30;
  dt_zone = negsuc 129;
}

abbrev two : ℕ → ℕ → Digits
two a b = record { first = a; more = b ∷ [] }

abbrev sample : DateText
sample = record {
  weekday = some 1;
  day = two b'1' b'2';
  month = 1;
  year = record { first = b'2'; more = codes "004" };
  hour = two b'1' b'0';
  min = two b'2' b'0';
  sec = some (two b'3' b'0');
  plus = false;
  zone = record { first = b'0'; more = codes "130" };
}

sample-IsDateText : IsDateText sample
unfolding is_digit
sample-IsDateText = record {
  weekday_ok = omega arith;
  day_ok = (All-all is_digit (codes "12") refl, omega arith);
  month_pos = omega arith;
  month_le = omega arith;
  year_ok = (All-all is_digit (codes "2004") refl, omega arith);
  hour_ok = (All-all is_digit (codes "10") refl, omega arith);
  min_ok = (All-all is_digit (codes "20") refl, omega arith);
  sec_ok = (All-all is_digit (codes "30") refl, omega arith);
  zone_ok = (All-all is_digit (codes "0130") refl, omega arith);
}

sample_written : write sample (codes "\r") ≡ codes "Mon, 12 Jan 2004 10:20:30 -0130\r"
unfolding day_name month_name
sample_written = refl

date_time_parse-write_example :
    date_time_parse ilp32 1 (write sample (codes "\r")) ≡ ok value (codes "\r")
unfolding is_digit
date_time_parse-write_example =
    date_time_parse-write ilp32 0 sample b'\r' [] refl refl sample-IsDateText refl

-- The ordinary text is refused where a pointer has eight bytes.
lp64_refuses : date_time_parse lp64 3 (codes "Mon, 12 Jan 2004 10:20:30 -0130\r") ≡ error_parse
unfolding run
lp64_refuses = refl

-- There, a NUL behind the month gets it through.
abbrev nul_text : Bytes
nul_text = codes "12 Jan" ++ 0 ∷ codes "xxx 2004 10:20:30 -0130\r"

nul_text_run : date_time_parse lp64 3 nul_text ≡ ok value (codes "\r")
unfolding run
nul_text_run = refl

date_time_parse-HasNul_example : HasNul nul_text
date_time_parse-HasNul_example = date_time_parse-HasNul lp64 3 nul_text refl nul_text_run

date_time-IsWithin_example : IsWithin nul_text (date_time_parse lp64 3 nul_text)
date_time-IsWithin_example = date_time-IsWithin lp64 3 nul_text

-- A comment behind the date, folded onto a second line, and the next field.
orig_date_parse-write_example :
    orig_date_parse ilp32 1 (write sample (codes " (CET,\r\n GMT+1)\r\nTo:"))
    ≡ ok (record { dt_date_time = value }) (codes "To:")
unfolding is_digit is_wsp
orig_date_parse-write_example =
    orig_date_parse-write ilp32 0 sample (codes " (CET,")
      (record { blank = b' '; first = b'G'; more = codes "MT+1)" } ∷ []) (codes "To:") refl refl
      refl sample-IsDateText refl (All-all is_inline (codes " (CET,") refl)
      ((refl, refl, All-all is_inline (codes "MT+1)") refl), tt) refl
