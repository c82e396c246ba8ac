-- ===== src/MsgId.antt =====
-- src/msg-id.c: message identifiers, and the tokens around them that smtp_unstrict_msg_id_parse is
-- to skip.
pub mod RoundTrip
use smtp_nel_filter.Prelude.{ℕ, zero, suc, Bool, true, false, Option, List, Bytes}
use smtp_nel_filter.Outcome.{ok, out_of_fuel, Outcome, Parser, bind, or_else, ◌>>=◌, ◌>>◌, skip}
use smtp_nel_filter.Platform.{Platform}
use smtp_nel_filter.Mime.Space.{
  cfws_parse, lower_parse, greater_parse, semi_colon_parse, comma_parse, plus_parse, colon_parse,
  point_parse, at_sign_parse,
}
use smtp_nel_filter.Mime.Words.{MmapString, word_parse}
use smtp_nel_filter.Mime.Lists.{struct_multiple_parse}
use smtp_nel_filter.Address.{Env, addr_spec_parse}

unfoldable pub msg_id_parse : Platform → ℕ → Parser (Option Bytes)
msg_id_parse platform fuel = do
  skip (cfws_parse fuel)
  lower_parse fuel
  msg_id ← addr_spec_parse platform fuel
  greater_parse fuel
  ok msg_id

-- One token of a round: it sets `token_parsed`, and a mismatch does nothing.
abbrev pub attempt : {A : Type 0} → Parser A → Bool → Parser Bool
attempt token token_parsed s = or_else (bind (token s) λ _ rest. ok true rest) (ok token_parsed s)

unfoldable pub unwanted_round : Platform → MmapString → ℕ → Parser Bool
unwanted_round platform m fuel =
    attempt (word_parse platform m fuel) false
    >>= attempt (semi_colon_parse fuel)
    >>= attempt (comma_parse fuel)
    >>= attempt (plus_parse fuel)
    >>= attempt (colon_parse fuel)
    >>= attempt (point_parse fuel)
    >>= attempt (at_sign_parse fuel)

abbrev pub unwanted_again : Parser (Unit {0}) → Bool → Parser (Unit {0})
unwanted_again go_on true s = go_on s
unwanted_again go_on false s = ok tt s

-- The first number bounds the rounds.
unfoldable pub unwanted_loop : Platform → MmapString → ℕ → ℕ → Parser (Unit {0})
unwanted_loop platform m fuel zero s = out_of_fuel
unwanted_loop platform m fuel (suc rounds) s =
    bind (unwanted_round platform m fuel s)
      λ token_parsed. unwanted_again (unwanted_loop platform m fuel rounds) token_parsed

-- The loop moves `cur_token`, which is never stored in `*index`.
unfoldable pub parse_unwanted_msg_id : Platform → MmapString → ℕ → Parser (Unit {0})
parse_unwanted_msg_id platform m fuel s = bind (unwanted_loop platform m fuel fuel s) λ _ _. ok tt s

unfoldable pub unstrict_msg_id_parse : Platform → MmapString → ℕ → Parser (Option Bytes)
unstrict_msg_id_parse platform m fuel = do
  skip (cfws_parse fuel)
  parse_unwanted_msg_id platform m fuel
  msgid ← msg_id_parse platform fuel
  parse_unwanted_msg_id platform m fuel
  ok msgid
