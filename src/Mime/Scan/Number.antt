-- ===== src/Mime/Scan/Number.antt =====
-- smtp_number_parse reads a maximal run of digits, and its value modulo 2^32.
use smtp_nel_filter.Prelude.{
  ℕ, ◌+◌, ◌-◌, ◌*◌, ◌%◌, ◌≡◌, Bool, true, false, [], ◌∷◌, ◌++◌, Bytes, All, arith, u32_mod,
}
use smtp_nel_filter.Outcome.{ok}
use smtp_nel_filter.Mime.Chars.{is_digit}
use smtp_nel_filter.Mime.Scan.{number_loop, number_parse}

-- The number that a run of digits denotes, behind the digits of `n`.
abbrev pub decimal : ℕ → Bytes → ℕ
decimal n [] = n
decimal n (c ∷ s) = decimal (n * 10 + (c - b'0')) s

digit_step : (n d : ℕ) → (((n % u32_mod) * 10) % u32_mod + d) % u32_mod ≡ (n * 10 + d) % u32_mod
digit_step n d = omega arith

number_loop-digits :
    (parsed : Bool) (n : ℕ) (digits : Bytes) (c : ℕ) (rest : Bytes)
    → All is_digit digits
    → is_digit c ≡ false
    → number_loop true (n % u32_mod) (digits ++ c ∷ rest)
      ≡ ok (decimal n digits % u32_mod) (c ∷ rest)
unfolding number_loop
number_loop-digits parsed n [] c rest ds e = rw e
number_loop-digits parsed n (d ∷ ds) c rest (h, hs) e =
    rw (h, digit_step n (d - b'0')) (number_loop-digits true (n * 10 + (d - b'0')) ds c rest hs e)

-- The value and the cursor after a nonempty run of digits that a byte other than a digit ends.
pub number-digits :
    (d : ℕ) (ds : Bytes) (c : ℕ) (rest : Bytes)
    → All is_digit (d ∷ ds)
    → is_digit c ≡ false
    → number_parse (d ∷ (ds ++ c ∷ rest)) ≡ ok (decimal 0 (d ∷ ds) % u32_mod) (c ∷ rest)
unfolding number_parse
number-digits d ds c rest (h, hs) e =
    rw (h, digit_step 0 (d - b'0')) (number_loop-digits true (0 * 10 + (d - b'0')) ds c rest hs e)
