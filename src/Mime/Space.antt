-- ===== src/Mime/Space.antt =====
-- Folding white space and comments of src/mime.c: FWS, ccontent, comment, CFWS, and the tokens
-- that allow CFWS before them.
pub mod Bounds
pub mod Stuck
pub mod Comments
pub mod Fuel
pub mod Plain
use smtp_nel_filter.Prelude.{
  ℕ, zero, suc, Bool, true, false, not, ◌&&◌, [], ◌∷◌, Bytes, if◌then◌else◌,
}
use smtp_nel_filter.Outcome.{
  Outcome, ok, error_parse, error_continue, error_memory, out_of_fuel, fault, Parser, bind, ◌>>◌,
  skip,
}
use smtp_nel_filter.Mime.Chars.{is_ctext}
use smtp_nel_filter.Mime.Scan.{wsp_loop, char_parse, crlf_parse, quoted_pair_parse}

-- The two checks at the end of smtp_fws_parse; `final_token` is the cursor before the CRLF.
unfoldable pub fws_end : Bool → Bool → Bytes → Bytes → Outcome (Unit {0})
fws_end fws_1 fws_3 final_token cur_token =
    if not fws_1 && not fws_3
    then error_parse
    else ok tt (if not fws_3 then final_token else cur_token)

-- The `switch` on the result of smtp_crlf_parse.
unfoldable pub fws_crlf : Bool → Bytes → Outcome (Unit {0}) → Outcome (Unit {0})
fws_crlf fws_1 final_token (ok _ rest) =
    bind (wsp_loop false rest) λ fws_3. fws_end fws_1 fws_3 final_token
fws_crlf fws_1 final_token error_parse = fws_end fws_1 false final_token final_token
fws_crlf fws_1 final_token error_continue = error_continue
fws_crlf fws_1 final_token error_memory = error_memory
fws_crlf fws_1 final_token out_of_fuel = out_of_fuel
fws_crlf fws_1 final_token fault = fault

unfoldable pub fws_parse : Parser (Unit {0})
fws_parse s =
    bind (wsp_loop false s) λ fws_1 final_token. fws_crlf fws_1 final_token (crlf_parse final_token)

-- The `else` branch of smtp_ccontent_parse at the cursor `here`, after the quoted pair: only a
-- mismatch is an error there, and any other code falls through to SMTP_NO_ERROR.
unfoldable pub ccontent_result {ℓ} : {A : Type ℓ} → Bytes → Outcome A → Outcome (Unit {0})
ccontent_result here (ok _ rest) = ok tt rest
ccontent_result here error_parse = error_parse
ccontent_result here error_continue = ok tt here
ccontent_result here error_memory = ok tt here
ccontent_result here out_of_fuel = out_of_fuel
ccontent_result here fault = fault

unfoldable pub ccontent_pair : Parser (Unit {0}) → Bytes → Outcome ℕ → Outcome (Unit {0})
ccontent_pair comment here error_parse = ccontent_result here (comment here)
ccontent_pair comment here (ok _ rest) = ok tt rest
ccontent_pair comment here error_continue = ok tt here
ccontent_pair comment here error_memory = ok tt here
ccontent_pair comment here out_of_fuel = out_of_fuel
ccontent_pair comment here fault = fault

-- `comment` is smtp_comment_parse, which calls this function.
unfoldable pub ccontent_parse : Parser (Unit {0}) → Parser (Unit {0})
ccontent_parse comment [] = error_continue
ccontent_parse comment (c ∷ s) =
    if is_ctext c then ok tt s else ccontent_pair comment (c ∷ s) (quoted_pair_parse (c ∷ s))

unfoldable pub comment_fws_ccontent_parse : Parser (Unit {0}) → Parser (Unit {0})
comment_fws_ccontent_parse comment = skip fws_parse >> ccontent_parse comment

-- `while (1)` around a parser until it reports a mismatch. The flag says whether it succeeded.
-- `go_on` is the rest of the loop.
unfoldable pub repeat_next : Parser Bool → Bool → Bytes → Outcome (Unit {0}) → Outcome Bool
repeat_next go_on seen here (ok _ rest) = go_on rest
repeat_next go_on seen here error_parse = ok seen here
repeat_next go_on seen here error_continue = error_continue
repeat_next go_on seen here error_memory = error_memory
repeat_next go_on seen here out_of_fuel = out_of_fuel
repeat_next go_on seen here fault = fault

unfoldable pub repeat : ℕ → Parser (Unit {0}) → Bool → Parser Bool
repeat zero p seen s = out_of_fuel
repeat (suc fuel) p seen s = repeat_next (repeat fuel p true) seen s (p s)

-- The fuel bounds the depth of nesting, and the rounds of the loop at each depth.
unfoldable pub comment_parse : ℕ → Parser (Unit {0})
comment_parse zero s = out_of_fuel
comment_parse (suc fuel) s =
    (char_parse b'('
        >> repeat fuel (comment_fws_ccontent_parse (comment_parse fuel)) false
        >> skip fws_parse
        >> char_parse b')')
      s

unfoldable pub cfws_fws_comment_parse : ℕ → Parser (Unit {0})
cfws_fws_comment_parse fuel = skip fws_parse >> comment_parse fuel

unfoldable pub cfws_parse : ℕ → Parser (Unit {0})
cfws_parse fuel s =
    bind (repeat fuel (cfws_fws_comment_parse fuel) false s)
      λ has_comment rest. if has_comment then ok tt rest else fws_parse rest

unfoldable pub unstrict_char_parse : ℕ → ℕ → Parser (Unit {0})
unstrict_char_parse fuel token = skip (cfws_parse fuel) >> char_parse token

-- The result of smtp_cfws_parse is not looked at: only its cursor counts, which every error
-- leaves alone.
unfoldable pub crlf_after : Bytes → Outcome (Unit {0}) → Outcome (Unit {0})
crlf_after here (ok _ rest) = crlf_parse rest
crlf_after here error_parse = crlf_parse here
crlf_after here error_continue = crlf_parse here
crlf_after here error_memory = crlf_parse here
crlf_after here out_of_fuel = out_of_fuel
crlf_after here fault = fault

unfoldable pub unstrict_crlf_parse : ℕ → Parser (Unit {0})
unstrict_crlf_parse fuel s = crlf_after s (cfws_parse fuel s)

abbrev pub comma_parse : ℕ → Parser (Unit {0})
comma_parse fuel = unstrict_char_parse fuel b','

abbrev pub colon_parse : ℕ → Parser (Unit {0})
colon_parse fuel = unstrict_char_parse fuel b':'

abbrev pub plus_parse : ℕ → Parser (Unit {0})
plus_parse fuel = unstrict_char_parse fuel b'+'

abbrev pub minus_parse : ℕ → Parser (Unit {0})
minus_parse fuel = unstrict_char_parse fuel b'-'

abbrev pub semi_colon_parse : ℕ → Parser (Unit {0})
semi_colon_parse fuel = unstrict_char_parse fuel b';'

abbrev pub lower_parse : ℕ → Parser (Unit {0})
lower_parse fuel = unstrict_char_parse fuel b'<'

abbrev pub greater_parse : ℕ → Parser (Unit {0})
greater_parse fuel = unstrict_char_parse fuel b'>'

abbrev pub obracket_parse : ℕ → Parser (Unit {0})
obracket_parse fuel = unstrict_char_parse fuel b'['

abbrev pub cbracket_parse : ℕ → Parser (Unit {0})
cbracket_parse fuel = unstrict_char_parse fuel b']'

abbrev pub at_sign_parse : ℕ → Parser (Unit {0})
at_sign_parse fuel = unstrict_char_parse fuel b'@'

abbrev pub point_parse : ℕ → Parser (Unit {0})
point_parse fuel = unstrict_char_parse fuel b'.'
