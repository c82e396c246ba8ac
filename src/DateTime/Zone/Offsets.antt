-- ===== src/DateTime/Zone/Offsets.antt =====
-- What smtp_zone_parse stores: the North American zones as the table of its comment has them, and
-- signed numbers.
use smtp_nel_filter.Prelude.{
  ℕ, zero, suc, ◌-◌, ◌*◌, ◌%◌, ◌<◌, ◌≡◌, refl, ◌∙◌, Bool, true, false, ◌||◌, [], ◌∷◌, ◌++◌, Bytes,
  ◌==◌, if◌then◌else◌, All, arith, u32_mod, ℤ, pos, negsuc, int32, Option, none, some,
}
use smtp_nel_filter.Outcome.{ok, error_parse}
use smtp_nel_filter.Mime.Chars.{is_digit}
use smtp_nel_filter.Mime.Scan.{number_parse, number_loop}
use smtp_nel_filter.Mime.Scan.Number.{decimal, number-digits}
use smtp_nel_filter.Mime.Space.Plain.{is_plain, unstrict_char-plain, unstrict_char-ne}
use smtp_nel_filter.DateTime.Zone.{
  ZoneState, is_running, zone_loop, zone_minus, zone_sign, zone_number_parse, zone_switch,
  zone_named_parse, zone_parse,
}

-- The loop ends by its test within the three rounds: `state <= 2` is false after them.
pub zone_loop-ends : (a b c : ℕ) → is_running (zone_loop 3 ZoneState.zone_1 0 a b c).0 ≡ false
unfolding zone_loop
zone_loop-ends a b c = ground arith

-- Hours behind Greenwich in standard time: Eastern, Central, Mountain and Pacific.
abbrev pub hours_behind : ℕ → Option ℕ
hours_behind a =
    if a == b'E'
    then some 5
    else if a == b'C'
    then some 6
    else if a == b'M'
    then some 7
    else if a == b'P'
    then some 8
    else none

-- "EST" to "PST" and "EDT" to "PDT" are the hours times 100 below zero, one hour less with
-- daylight saving, for any input behind them.
pub zone_parse-american :
    (fuel a h : ℕ) (rest : Bytes)
    → hours_behind a ≡ some h
    → (zone_parse fuel (a ∷ b'S' ∷ b'T' ∷ rest) ≡ ok (negsuc (h * 100 - 1)) rest)
      × (zone_parse fuel (a ∷ b'D' ∷ b'T' ∷ rest) ≡ ok (negsuc ((h - 1) * 100 - 1)) rest)
unfolding zone_parse zone_named_parse zone_switch zone_loop int32
zone_parse-american fuel a h rest e = (ground arith, ground arith)

pub zone_parse-gmt :
    (fuel : ℕ) (rest : Bytes) → zone_parse fuel (b'G' ∷ b'M' ∷ b'T' ∷ rest) ≡ ok (pos 0) rest
unfolding zone_parse zone_named_parse zone_switch zone_loop int32
zone_parse-gmt fuel rest = refl

-- A byte that is no letter of a named zone leaves the whole work to the number.
zone_parse-number :
    (fuel c : ℕ) (s : Bytes)
    → (c == b'G' || c == b'E' || c == b'C' || c == b'M' || c == b'P') ≡ false
    → zone_parse fuel (c ∷ s) ≡ zone_number_parse fuel (c ∷ s)
unfolding zone_parse zone_named_parse zone_switch zone_loop
zone_parse-number fuel c [] h = refl
zone_parse-number fuel c (d ∷ []) h = ground arith
zone_parse-number fuel c (d ∷ e ∷ s) h = ground arith

-- The obsolete zone "UT" is not read: one byte is compared with both letters.
pub zone_parse-ut :
    (fuel : ℕ) (rest : Bytes) → zone_parse (suc fuel) (b'U' ∷ b'T' ∷ rest) ≡ error_parse
zone_parse-ut fuel rest = zone_parse-number (suc fuel) b'U' (b'T' ∷ rest) refl ∙ signless
  where
    signless : zone_number_parse (suc fuel) (b'U' ∷ b'T' ∷ rest) ≡ error_parse
    signless =
        unfold zone_number_parse zone_sign zone_minus in
        rw
          (
            unstrict_char-ne fuel b'+' b'U' (b'T' ∷ rest) (unfold is_plain in refl) refl,
            unstrict_char-ne fuel b'-' b'U' (b'T' ∷ rest) (unfold is_plain in refl) refl,
          )
          (unfold number_parse number_loop in refl)

-- A sign and a run of digits.
abbrev pub signed : Bool → ℕ → ℤ
signed true n = pos n
signed false n = if n == 0 then pos 0 else negsuc (n - 1)

abbrev pub sign_byte : Bool → ℕ
sign_byte true = b'+'
sign_byte false = b'-'

digit_value : (n : ℕ) → n < 2147483648 → int32 ((n % u32_mod * 1) % u32_mod) ≡ pos n
unfolding int32
digit_value n h = let e : (n % u32_mod * 1) % u32_mod ≡ n = omega arith in rw e (ground arith)

minus_value :
    (n : ℕ) → n < 2147483648 → int32 ((n % u32_mod * (u32_mod - 1)) % u32_mod) ≡ signed false n
unfolding int32
minus_value zero h = refl
minus_value (suc n) h =
    let e : (suc n % u32_mod * (u32_mod - 1)) % u32_mod ≡ 4294967295 - n = omega arith in
    rw e (ground arith)

-- "+hhmm" and "-hhmm", of any number of digits whose value fits an `int`.
pub zone_parse-signed :
    (fuel : ℕ) (plus : Bool) (d : ℕ) (ds : Bytes) (c : ℕ) (rest : Bytes)
    → All is_digit (d ∷ ds)
    → is_digit c ≡ false
    → decimal 0 (d ∷ ds) < 2147483648
    → zone_parse (suc fuel) (sign_byte plus ∷ d ∷ (ds ++ c ∷ rest))
      ≡ ok (signed plus (decimal 0 (d ∷ ds))) (c ∷ rest)
zone_parse-signed fuel true d ds c rest h e lt =
    zone_parse-number (suc fuel) b'+' (d ∷ (ds ++ c ∷ rest)) refl ∙ number
  where
    number :
        zone_number_parse (suc fuel) (b'+' ∷ d ∷ (ds ++ c ∷ rest))
        ≡ ok (pos (decimal 0 (d ∷ ds))) (c ∷ rest)
    number =
        unfold zone_number_parse zone_sign in
        rw (
          unstrict_char-plain fuel b'+' (d ∷ (ds ++ c ∷ rest)) (unfold is_plain in refl),
          number-digits d ds c rest h e,
          digit_value _ lt,
        )
zone_parse-signed fuel false d ds c rest h e lt =
    zone_parse-number (suc fuel) b'-' (d ∷ (ds ++ c ∷ rest)) refl ∙ number
  where
    number :
        zone_number_parse (suc fuel) (b'-' ∷ d ∷ (ds ++ c ∷ rest))
        ≡ ok (signed false (decimal 0 (d ∷ ds))) (c ∷ rest)
    number =
        unfold zone_number_parse zone_sign zone_minus in
        rw (
          unstrict_char-ne fuel b'+' b'-' (d ∷ (ds ++ c ∷ rest)) (unfold is_plain in refl) refl,
          unstrict_char-plain fuel b'-' (d ∷ (ds ++ c ∷ rest)) (unfold is_plain in refl),
          number-digits d ds c rest h e,
          minus_value _ lt,
        )
