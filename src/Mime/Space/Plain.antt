-- ===== src/Mime/Space/Plain.antt =====
-- CFWS before a byte that starts neither white space nor a comment: there is none, or a run of
-- blanks. With that, the tokens that allow CFWS read their byte.
use smtp_nel_filter.Prelude.{
  ℕ, zero, suc, ◌<◌, Bool, true, false, not, ◌||◌, [], ◌∷◌, ◌++◌, Bytes, ◌==◌, ◌≡◌, arith, All,
}
use smtp_nel_filter.Outcome.{ok, error_parse}
use smtp_nel_filter.Mime.Chars.{is_wsp}
use smtp_nel_filter.Mime.Scan.{wsp_loop, char_parse, crlf_parse}
use smtp_nel_filter.Mime.Space.{
  fws_end, fws_crlf, fws_parse, comment_parse, repeat, repeat_next, cfws_fws_comment_parse,
  cfws_parse, unstrict_char_parse,
}

-- The byte starts no FWS, no CRLF and no comment.
unfoldable pub is_plain : ℕ → Bool
is_plain c = not (c == b' ' || c == b'\t' || c == b'\r' || c == b'\n' || c == b'(')

module _ (c : ℕ) (s : Bytes) (plain : is_plain c ≡ true) where
  pub fws-plain : fws_parse (c ∷ s) ≡ error_parse
  unfolding fws_parse is_plain fws_crlf fws_end wsp_loop crlf_parse
  fws-plain = ground arith

  pub wsp_loop-blanks :
      (seen : Bool) (blanks : Bytes)
      → All is_wsp blanks
      → wsp_loop seen (blanks ++ c ∷ s) ≡ ok (elim blanks [ [] ↦ seen | _ ∷ _ ↦ true ]) (c ∷ s)
  unfolding wsp_loop is_plain
  wsp_loop-blanks seen [] h = ground arith
  wsp_loop-blanks seen (b ∷ []) (h, hs) = rw h (wsp_loop-blanks true [] hs)
  wsp_loop-blanks seen (b ∷ b' ∷ bs) (h, hs) = rw h (wsp_loop-blanks true (b' ∷ bs) hs)

  -- A run of blanks before such a byte is FWS.
  pub fws-blanks :
      (b : ℕ) (blanks : Bytes)
      → All is_wsp (b ∷ blanks)
      → fws_parse (b ∷ (blanks ++ c ∷ s)) ≡ ok tt (c ∷ s)
  unfolding fws_parse fws_crlf fws_end is_plain crlf_parse
  fws-blanks b blanks h = rw (wsp_loop-blanks false (b ∷ blanks) h) (ground arith)

  comment-plain : (fuel : ℕ) → comment_parse (suc fuel) (c ∷ s) ≡ error_parse
  unfolding comment_parse is_plain char_parse
  comment-plain fuel = ground arith

  pub cfws-plain : (fuel : ℕ) → cfws_parse (suc fuel) (c ∷ s) ≡ error_parse
  unfolding cfws_parse cfws_fws_comment_parse repeat repeat_next
  cfws-plain fuel = rw (fws-plain, comment-plain fuel) fws-plain

  pub cfws-blanks :
      (fuel b : ℕ) (blanks : Bytes)
      → All is_wsp (b ∷ blanks)
      → cfws_parse (suc fuel) (b ∷ (blanks ++ c ∷ s)) ≡ ok tt (c ∷ s)
  unfolding cfws_parse cfws_fws_comment_parse repeat repeat_next
  cfws-blanks fuel b blanks h =
      rw (fws-blanks b blanks h, comment-plain fuel) (fws-blanks b blanks h)

-- The token itself, with nothing before it.
pub unstrict_char-plain :
    (fuel c : ℕ) (s : Bytes)
    → is_plain c ≡ true
    → unstrict_char_parse (suc fuel) c (c ∷ s) ≡ ok tt s
unfolding unstrict_char_parse char_parse
unstrict_char-plain fuel c s h = rw (cfws-plain c s h fuel) (ground arith)

-- The same with enough fuel for one round.
pub unstrict_char-first :
    (fuel c : ℕ) (s : Bytes)
    → 0 < fuel
    → is_plain c ≡ true
    → unstrict_char_parse fuel c (c ∷ s) ≡ ok tt s
unstrict_char-first zero c s h plain = absurd (omega arith)
unstrict_char-first (suc fuel) c s h plain = unstrict_char-plain fuel c s plain

-- No CFWS, and another byte: a mismatch.
pub unstrict_char-mismatch :
    (fuel token c : ℕ) (s : Bytes)
    → cfws_parse fuel (c ∷ s) ≡ error_parse
    → (c == token) ≡ false
    → unstrict_char_parse fuel token (c ∷ s) ≡ error_parse
unfolding unstrict_char_parse char_parse
unstrict_char-mismatch fuel token c s none e = rw (none, e)

-- Another byte is a mismatch.
pub unstrict_char-ne :
    (fuel token c : ℕ) (s : Bytes)
    → is_plain c ≡ true
    → (c == token) ≡ false
    → unstrict_char_parse (suc fuel) token (c ∷ s) ≡ error_parse
unfolding unstrict_char_parse char_parse
unstrict_char-ne fuel token c s h e = rw (cfws-plain c s h fuel, e)

-- A line end that no white space follows is no FWS.
pub fws-line_end :
    (c : ℕ) (s : Bytes) → is_wsp c ≡ false → fws_parse (b'\r' ∷ b'\n' ∷ c ∷ s) ≡ error_parse
unfolding fws_parse fws_crlf fws_end wsp_loop crlf_parse
fws-line_end c s h = rw h

pub cfws-line_end :
    (fuel c : ℕ) (s : Bytes)
    → is_wsp c ≡ false
    → cfws_parse (suc fuel) (b'\r' ∷ b'\n' ∷ c ∷ s) ≡ error_parse
unfolding cfws_parse cfws_fws_comment_parse repeat repeat_next comment_parse char_parse
cfws-line_end fuel c s h = rw (fws-line_end c s h) (fws-line_end c s h)
