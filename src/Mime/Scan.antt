-- ===== src/Mime/Scan.antt =====
-- The scanners of src/mime.c that call no other grammar rule: one byte, white space, digits and
-- numbers, keywords, CRLF, quoted pairs.
pub mod Bounds
pub mod Keyword
pub mod Number
use smtp_nel_filter.Prelude.{
  ℕ, zero, suc, ◌+◌, ◌-◌, ◌*◌, ◌%◌, Bool, true, false, ◌&&◌, ◌||◌, [], ◌∷◌, Bytes, leb, ltb, ◌==◌,
  if◌then◌else◌, length, drop, u32_mod,
}
use smtp_nel_filter.Outcome.{
  fault, ok, error_parse, error_continue, Parser, bind, lenient, ◌>>◌, skip,
}
use smtp_nel_filter.Mime.Chars.{is_wsp, is_digit}

unfoldable pub wsp_parse : Parser (Unit {0})
unfolding is_wsp
wsp_parse [] = error_continue
wsp_parse (c ∷ s) = if is_wsp c then ok tt s else error_parse

-- `while (1)` around smtp_wsp_parse until it reports a mismatch; the flag says whether a byte
-- was read. A run that reaches the end of the buffer is SMTP_ERROR_CONTINUE.
unfoldable pub wsp_loop : Bool → Parser Bool
unfolding is_wsp
wsp_loop seen [] = error_continue
wsp_loop seen (c ∷ s) = if is_wsp c then wsp_loop true s else ok seen (c ∷ s)

unfoldable pub wsps_parse : Parser (Unit {0})
unfolding wsp_loop
wsps_parse s = bind (wsp_loop false s) λ _ rest. ok tt rest

-- The loop of smtp_mime_lwsp_parse, which stops at the end of the buffer too.
lwsp_loop : Bool → Parser (Unit {0})
unfolding is_wsp
lwsp_loop seen [] = if seen then ok tt [] else error_parse
lwsp_loop seen (c ∷ s) =
    if is_wsp c then lwsp_loop true s else if seen then ok tt (c ∷ s) else error_parse

unfoldable pub mime_lwsp_parse : Parser (Unit {0})
unfolding lwsp_loop
mime_lwsp_parse [] = error_continue
mime_lwsp_parse (c ∷ s) = lwsp_loop false (c ∷ s)

unfoldable pub char_parse : ℕ → Parser (Unit {0})
char_parse token [] = error_continue
char_parse token (c ∷ s) = if c == token then ok tt s else error_parse

unfoldable pub digit_parse : Parser ℕ
unfolding is_digit
digit_parse [] = error_continue
digit_parse (c ∷ s) = if is_digit c then ok (c - b'0') s else error_parse

-- The loop of smtp_number_parse: `number *= 10; number += digit;` in `uint32_t`.
unfoldable pub number_loop : Bool → ℕ → Parser ℕ
unfolding is_digit
number_loop parsed number [] = error_continue
number_loop parsed number (c ∷ s) =
    if is_digit c
    then number_loop true (((number * 10) % u32_mod + (c - b'0')) % u32_mod) s
    else if parsed
    then ok number (c ∷ s)
    else error_parse

unfoldable pub number_parse : Parser ℕ
unfolding number_loop
number_parse = number_loop false 0

-- `toupper`/`tolower` of the C locale, as `strncasecmp` and the guessers of _time.c use them.
unfoldable pub toupper : ℕ → ℕ
toupper c = if leb b'a' c && leb c b'z' then c - 32 else c

-- `strncasecmp (a, b, n) == 0`, where both end at a NUL at the latest; `a` is long enough.
unfoldable pub strncasecmp_eq : ℕ → Bytes → Bytes → Bool
unfolding toupper
strncasecmp_eq zero a b = true
strncasecmp_eq (suc n) [] [] = true
strncasecmp_eq (suc n) [] (y ∷ b) = y == 0
strncasecmp_eq (suc n) (x ∷ a) [] = x == 0
strncasecmp_eq (suc n) (x ∷ a) (y ∷ b) = toupper x == toupper y && (x == 0 || strncasecmp_eq n a b)

-- A cursor that moves over so many bytes: behind the last one it would leave the buffer.
unfoldable pub advance : ℕ → Parser (Unit {0})
advance zero s = ok tt s
advance (suc n) [] = fault
advance (suc n) (c ∷ s) = advance n s

-- `cur_token + token_length - 1 >= length` asks for more input; token_length is not 0.
unfoldable pub token_case_insensitive_len_parse : Bytes → ℕ → Parser (Unit {0})
unfolding strncasecmp_eq
token_case_insensitive_len_parse token token_length s =
    if ltb (length s) token_length
    then error_continue
    else if strncasecmp_eq token_length s token
    then advance token_length s
    else error_parse

-- The CR may be missing.
unfoldable pub crlf_parse : Parser (Unit {0})
unfolding char_parse
crlf_parse s = bind (lenient (char_parse b'\r' s) s) λ _. char_parse b'\n'

unfoldable pub wsp_unstrict_char_parse : ℕ → Parser (Unit {0})
unfolding wsps_parse char_parse
wsp_unstrict_char_parse token = skip wsps_parse >> char_parse token

unfoldable pub quoted_pair_parse : Parser ℕ
quoted_pair_parse [] = error_continue
quoted_pair_parse (c ∷ []) = error_continue
quoted_pair_parse (c ∷ d ∷ s) = if c == b'\\' then ok d s else error_parse
