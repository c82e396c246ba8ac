-- ===== src/DateTime/Bounds.antt =====
-- Every parser of src/_time.c leaves a suffix of its input.
use smtp_nel_filter.Prelude.{ℕ, [], ◌∷◌, Bytes, Option, none, some, ℤ}
use smtp_nel_filter.Outcome.{Outcome, Parser, skip, ◌>>◌}
use smtp_nel_filter.Outcome.Suffix.{
  Suffix, here, later, Leaves, leaves, leaves_parse, leaves_continue, leaves_memory, leaves_fuel,
  Advances, Leaves-if, Leaves-bind, Leaves-lenient, Leaves-weaken, Reads, Reads-then, Reads-bind,
  IsWithin, Reads-IsWithin,
}
use smtp_nel_filter.Platform.{Platform}
use smtp_nel_filter.Mime.Scan.Bounds.{number-Advances, number-Reads, token-Advances}
use smtp_nel_filter.Mime.Space.{cfws_parse}
use smtp_nel_filter.Mime.Space.Bounds.{fws-Advances, cfws-Advances, unstrict_char-Advances}
use smtp_nel_filter.DateTime.Names.{name_parse, day_name_parse, month_name_parse}
use smtp_nel_filter.DateTime.Zone.{
  ZoneState, zone_minus, zone_sign, zone_number_parse, zone_switch, zone_named_parse, zone_parse,
}
use smtp_nel_filter.DateTime.{
  date_time_new, day_of_week_parse, int_parse, day_parse, month_parse, year_parse, date_parse,
  seconds_parse, time_of_day_parse, zone_or_zero, time_parse, weekday_comma, date_time_parse,
}

name-Advances :
    (platform : Platform) (str : ℕ → Bytes) (o : Option ℕ) → Advances (name_parse platform str o)
unfolding name_parse
name-Advances platform str none s = leaves_parse
name-Advances platform str (some n) s =
    Leaves-bind (token-Advances (str n) _ s) (λ _ r. leaves here)

day_name-Advances : (platform : Platform) → Advances (day_name_parse platform)
unfolding day_name_parse
day_name-Advances platform s = name-Advances platform _ _ s

month_name-Advances : (platform : Platform) → Advances (month_name_parse platform)
unfolding month_name_parse
month_name-Advances platform s = name-Advances platform _ _ s

zone_minus-Leaves : {s : Bytes} {o : Outcome (Unit {0})} → Leaves s o → Leaves s (zone_minus s o)
unfolding zone_minus
zone_minus-Leaves (leaves p) = leaves p
zone_minus-Leaves leaves_parse = leaves here
zone_minus-Leaves leaves_continue = leaves_continue
zone_minus-Leaves leaves_memory = leaves_memory
zone_minus-Leaves leaves_fuel = leaves_fuel

zone_sign-Leaves :
    (fuel : ℕ) {s : Bytes} {o : Outcome (Unit {0})} → Leaves s o → Leaves s (zone_sign fuel s o)
unfolding zone_sign
zone_sign-Leaves fuel (leaves p) = leaves p
zone_sign-Leaves fuel {s} leaves_parse = zone_minus-Leaves (unstrict_char-Advances fuel b'-' s)
zone_sign-Leaves fuel leaves_continue = leaves_continue
zone_sign-Leaves fuel leaves_memory = leaves_memory
zone_sign-Leaves fuel leaves_fuel = leaves_fuel

zone_number-Advances : (fuel : ℕ) → Advances (zone_number_parse fuel)
unfolding zone_number_parse
zone_number-Advances fuel s =
    Leaves-bind (zone_sign-Leaves fuel (unstrict_char-Advances fuel b'+' s))
      (λ sign r. Leaves-bind (number-Advances r) (λ n t. leaves here))

zone_switch-Leaves :
    (fuel : ℕ) {s r : Bytes} (z : ZoneState × ℕ) → Suffix r s → Leaves s (zone_switch fuel s r z)
unfolding zone_switch
zone_switch-Leaves fuel (ZoneState.zone_ok, z) p = leaves p
zone_switch-Leaves fuel (ZoneState.zone_err, z) p = leaves_parse
zone_switch-Leaves fuel {s} (ZoneState.zone_1, z) p = zone_number-Advances fuel s
zone_switch-Leaves fuel {s} (ZoneState.zone_2, z) p = zone_number-Advances fuel s
zone_switch-Leaves fuel {s} (ZoneState.zone_3, z) p = zone_number-Advances fuel s
zone_switch-Leaves fuel {s} (ZoneState.zone_cont, z) p = zone_number-Advances fuel s

zone_named-Advances : (fuel : ℕ) → Advances (zone_named_parse fuel)
unfolding zone_named_parse
zone_named-Advances fuel (a ∷ b ∷ c ∷ r) = zone_switch-Leaves fuel _ (later (later (later here)))
zone_named-Advances fuel [] = zone_number-Advances fuel []
zone_named-Advances fuel (a ∷ []) = zone_number-Advances fuel (a ∷ [])
zone_named-Advances fuel (a ∷ b ∷ []) = zone_number-Advances fuel (a ∷ b ∷ [])

pub zone-Advances : (fuel : ℕ) → Advances (zone_parse fuel)
unfolding zone_parse
zone-Advances fuel [] = zone_named-Advances fuel []
zone-Advances fuel (a ∷ []) = zone_named-Advances fuel (a ∷ [])
zone-Advances fuel (a ∷ b ∷ r) =
    Leaves-if _ (leaves (later (later here))) (zone_named-Advances fuel (a ∷ b ∷ r))

skip_cfws {ℓ} :
    {A : Type ℓ} (fuel : ℕ) (p : Parser A) → Advances p → Advances (skip (cfws_parse fuel) >> p)
skip_cfws fuel p k s = Leaves-bind (Leaves-lenient (cfws-Advances fuel s) here) (λ _. k)

int-Advances : Advances int_parse
unfolding int_parse
int-Advances s = Leaves-bind (number-Advances s) (λ n r. leaves here)

weekday-Leaves :
    (fuel : ℕ) {s : Bytes} {o : Outcome ℕ} → Leaves s o → Leaves s (weekday_comma fuel s o)
unfolding weekday_comma
weekday-Leaves fuel (leaves {r} p) = Leaves-weaken p (unstrict_char-Advances fuel b',' r)
weekday-Leaves fuel leaves_parse = leaves here
weekday-Leaves fuel leaves_continue = leaves_continue
weekday-Leaves fuel leaves_memory = leaves_memory
weekday-Leaves fuel leaves_fuel = leaves_fuel

seconds-Leaves : {s : Bytes} {o : Outcome (Unit {0})} → Leaves s o → Leaves s (seconds_parse s o)
unfolding seconds_parse
seconds-Leaves (leaves {r} p) = Leaves-weaken p (int-Advances r)
seconds-Leaves leaves_parse = leaves here
seconds-Leaves leaves_continue = leaves_continue
seconds-Leaves leaves_memory = leaves_memory
seconds-Leaves leaves_fuel = leaves_fuel

zone_or_zero-Leaves : {s : Bytes} {o : Outcome ℤ} → Leaves s o → Leaves s (zone_or_zero s o)
unfolding zone_or_zero
zone_or_zero-Leaves (leaves p) = leaves p
zone_or_zero-Leaves leaves_parse = leaves here
zone_or_zero-Leaves leaves_continue = leaves_continue
zone_or_zero-Leaves leaves_memory = leaves_memory
zone_or_zero-Leaves leaves_fuel = leaves_fuel

pub day-Advances : (fuel : ℕ) → Advances (day_parse fuel)
unfolding day_parse
day-Advances fuel = skip_cfws fuel _ int-Advances

pub day_of_week-Leaves :
    (platform : Platform) (fuel : ℕ) (s : Bytes)
    → Leaves s (weekday_comma fuel s (day_of_week_parse platform fuel s))
unfolding day_of_week_parse
day_of_week-Leaves platform fuel s =
    weekday-Leaves fuel (skip_cfws fuel _ (day_name-Advances platform) s)

time_of_day-Advances : (fuel : ℕ) → Advances (time_of_day_parse fuel)
unfolding time_of_day_parse
time_of_day-Advances fuel s = Leaves-bind (int-Advances s) λ _ r.
    Leaves-bind (unstrict_char-Advances fuel b':' r) λ _ t.
      Leaves-bind (int-Advances t)
        λ _ u. Leaves-bind (seconds-Leaves (unstrict_char-Advances fuel b':' u)) λ _ v. leaves here

time-Advances : (fuel : ℕ) → Advances (time_parse fuel)
unfolding time_parse
time-Advances fuel s =
    skip_cfws fuel _
      (λ r. Leaves-bind (time_of_day-Advances fuel r) λ _ t.
        Leaves-bind (Leaves-lenient (fws-Advances t) here)
          λ _ u. Leaves-bind (zone_or_zero-Leaves (zone-Advances fuel u)) λ _ v. leaves here)
      s

day-Reads : (fuel : ℕ) (s : Bytes) → Reads s (day_parse fuel s)
unfolding day_parse int_parse
day-Reads fuel s =
    Reads-then (Leaves-lenient (cfws-Advances fuel s) here)
      λ _ r. Reads-bind (number-Reads r) (λ n t. leaves here)

date-Reads : (platform : Platform) (fuel : ℕ) (s : Bytes) → Reads s (date_parse platform fuel s)
unfolding date_parse month_parse year_parse
date-Reads platform fuel s = Reads-bind (day-Reads fuel s) λ _ r.
    Leaves-bind (skip_cfws fuel _ (month_name-Advances platform) r)
      λ _ t. Leaves-bind (skip_cfws fuel _ int-Advances t) λ _ u. leaves here

date_time-Reads :
    (platform : Platform) (fuel : ℕ) (s : Bytes) → Reads s (date_time_parse platform fuel s)
unfolding date_time_parse date_time_new
date_time-Reads platform fuel s = Reads-then (day_of_week-Leaves platform fuel s) λ _ r.
    Reads-bind (date-Reads platform fuel r) λ _ t.
      Leaves-bind (fws-Advances t)
        λ _ u. Leaves-bind (time-Advances fuel u) λ _ v. Leaves-if _ (leaves here) leaves_memory

-- On every input smtp_date_time_parse moves no cursor behind the end of the buffer, which would be a
-- fault, and if it reads a date, the bytes it has used are a prefix of the input with one byte at
-- least.
pub date_time-IsWithin :
    (platform : Platform) (fuel : ℕ) (s : Bytes) → IsWithin s (date_time_parse platform fuel s)
date_time-IsWithin platform fuel s = Reads-IsWithin (date_time-Reads platform fuel s)
