-- ===== src/DateTime/Zone.antt =====
-- smtp_zone_parse of src/_time.c. `zone` is a `uint32_t`, so the offsets west of Greenwich are
-- kept modulo 2^32 and become negative when they are stored in `*result`.
pub mod Offsets
use smtp_nel_filter.Prelude.{
  ℕ, zero, suc, ◌+◌, ◌-◌, ◌*◌, ◌%◌, Bool, true, false, ◌&&◌, ◌∷◌, Bytes, ◌==◌, if◌then◌else◌,
  u32_mod, ℤ, int32,
}
use smtp_nel_filter.Outcome.{
  Outcome, ok, error_parse, error_continue, error_memory, out_of_fuel, fault, Parser, bind,
}
use smtp_nel_filter.Mime.Scan.{number_parse}
use smtp_nel_filter.Mime.Space.{plus_parse, minus_parse}

pub data ZoneState : Type 0 where
  zone_1 zone_2 zone_3 zone_ok zone_err zone_cont : ZoneState

-- One round of the loop over `a b c`, the bytes at `cur_token`, `+ 1` and `+ 2`.
unfoldable pub zone_step : ZoneState → ℕ → ℕ → ℕ → ℕ → ZoneState × ℕ
zone_step zone_1 zone a b c =
    if a == b'G'
    then (if b == b'M' && c == b'T' then (zone_ok, 0) else (zone_err, zone))
    else if a == b'E'
    then (zone_2, u32_mod - 5)
    else if a == b'C'
    then (zone_2, u32_mod - 6)
    else if a == b'M'
    then (zone_2, u32_mod - 7)
    else if a == b'P'
    then (zone_2, u32_mod - 8)
    else (zone_cont, zone)
zone_step zone_2 zone a b c =
    if b == b'S'
    then (zone_3, zone)
    else if b == b'D'
    then (zone_3, (zone + 1) % u32_mod)
    else (zone_err, zone)
zone_step zone_3 zone a b c =
    if c == b'T' then (zone_ok, (zone * 100) % u32_mod) else (zone_err, zone)
zone_step state zone a b c = (state, zone)

-- `state <= 2`
unfoldable pub is_running : ZoneState → Bool
is_running zone_1 = true
is_running zone_2 = true
is_running zone_3 = true
is_running zone_ok = false
is_running zone_err = false
is_running zone_cont = false

-- `while (state <= 2)`, with a number of rounds.
unfoldable pub zone_loop : ℕ → ZoneState → ℕ → ℕ → ℕ → ℕ → ZoneState × ℕ
unfolding zone_step is_running
zone_loop zero state zone a b c = (state, zone)
zone_loop (suc rounds) state zone a b c =
    let (state', zone') = zone_step state zone a b c in
    let rest = zone_loop rounds state' zone' a b c in
    if is_running state then rest else (state, zone)

-- The sign, on the result of smtp_plus_parse and then of smtp_minus_parse. -1 is 2^32 - 1 when
-- `zone * sign` is computed.
unfoldable pub zone_minus : Bytes → Outcome (Unit {0}) → Outcome ℕ
zone_minus here (ok _ rest) = ok (u32_mod - 1) rest
zone_minus here error_parse = ok 1 here
zone_minus here error_continue = error_continue
zone_minus here error_memory = error_memory
zone_minus here out_of_fuel = out_of_fuel
zone_minus here fault = fault

unfoldable pub zone_sign : ℕ → Bytes → Outcome (Unit {0}) → Outcome ℕ
zone_sign fuel here (ok _ rest) = ok 1 rest
zone_sign fuel here error_parse = zone_minus here (minus_parse fuel here)
zone_sign fuel here error_continue = error_continue
zone_sign fuel here error_memory = error_memory
zone_sign fuel here out_of_fuel = out_of_fuel
zone_sign fuel here fault = fault

-- The part after the named zones.
unfoldable pub zone_number_parse : ℕ → Parser ℤ
zone_number_parse fuel s =
    bind (zone_sign fuel s (plus_parse fuel s))
      λ sign rest. bind (number_parse rest) λ zone rest'. ok (int32 ((zone * sign) % u32_mod)) rest'

-- The `switch` behind the loop: on another state the code goes on to the number at `here`.
unfoldable pub zone_switch : ℕ → Bytes → Bytes → ZoneState × ℕ → Outcome ℤ
zone_switch fuel here rest (zone_ok, zone) = ok (int32 zone) rest
zone_switch fuel here rest (zone_err, zone) = error_parse
zone_switch fuel here rest (_, zone) = zone_number_parse fuel here

unfoldable pub zone_named_parse : ℕ → Parser ℤ
zone_named_parse fuel (a ∷ b ∷ c ∷ rest) =
    zone_switch fuel (a ∷ b ∷ c ∷ rest) rest (zone_loop 3 zone_1 0 a b c)
zone_named_parse fuel s = zone_number_parse fuel s

-- The first test compares one byte with two letters; its branch stores TRUE.
unfoldable pub zone_parse : ℕ → Parser ℤ
zone_parse fuel (a ∷ b ∷ rest) =
    if a == b'U' && a == b'T' then ok (int32 1) rest else zone_named_parse fuel (a ∷ b ∷ rest)
zone_parse fuel s = zone_named_parse fuel s
