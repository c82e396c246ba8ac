-- ===== src/Version.antt =====
-- src/version.c: the MIME-Version field.
use smtp_nel_filter.Prelude.{
  ℕ, suc, ◌+◌, ◌*◌, ◌%◌, true, ◌∷◌, ◌++◌, Bytes, ◌≡◌, refl, arith, All, u32_mod,
}
use smtp_nel_filter.Outcome.{ok, Parser, ◌>>=◌, ◌>>◌, skip, pure}
use smtp_nel_filter.Mime.Chars.{is_digit}
use smtp_nel_filter.Mime.Scan.{wsp_parse, number_parse}
use smtp_nel_filter.Mime.Scan.Number.{decimal, number-digits}
use smtp_nel_filter.Mime.Space.{cfws_parse, unstrict_char_parse, unstrict_crlf_parse}
use smtp_nel_filter.Mime.Space.Plain.{is_plain, cfws-plain, unstrict_char-plain}
use smtp_nel_filter.Mime.Unstructured.Folding.{Unfolded}
use smtp_nel_filter.DateTime.Field.{unstrict_crlf-end}

-- (hi << 16) + low in `uint32_t`
unfoldable pub version_of : ℕ → ℕ → ℕ
version_of hi low = ((hi * 65536) % u32_mod + low) % u32_mod

unfoldable pub version_parse : ℕ → Parser ℕ
version_parse fuel = do
  skip wsp_parse
  hi ← number_parse
  unstrict_char_parse fuel b'.'
  skip (cfws_parse fuel)
  low ← number_parse
  unstrict_crlf_parse fuel
  pure (version_of hi low)

digit-plain : (c : ℕ) → is_digit c ≡ true → is_plain c ≡ true
unfolding is_plain is_digit
digit-plain c h = ground arith

wsp-digit : (c : ℕ) (s : Bytes) → is_digit c ≡ true → skip wsp_parse (c ∷ s) ≡ ok tt (c ∷ s)
unfolding wsp_parse is_digit
wsp-digit c s h = ground arith

version_of-mod :
    (hi low : ℕ) → version_of (hi % u32_mod) (low % u32_mod) ≡ (hi * 65536 + low) % u32_mod
unfolding version_of
version_of-mod hi low = omega arith

-- Two numbers with a dot between them, and a line end that no white space follows, are read as a
-- version: the first number in the upper half of 32 bits, the second added to it.
pub version_parse-digits :
    (fuel a b : ℕ) (major minor rest : Bytes)
    → All is_digit (a ∷ major)
    → All is_digit (b ∷ minor)
    → Unfolded rest
    → version_parse (suc fuel) (a ∷ (major ++ b'.' ∷ b ∷ (minor ++ b'\r' ∷ b'\n' ∷ rest)))
      ≡ ok ((decimal 0 (a ∷ major) * 65536 + decimal 0 (b ∷ minor)) % u32_mod) rest
unfolding version_parse is_digit
version_parse-digits fuel a b major minor rest ha hb end = rw (
  wsp-digit a (major ++ b'.' ∷ b ∷ (minor ++ b'\r' ∷ b'\n' ∷ rest)) ha.0,
  number-digits a major b'.' (b ∷ (minor ++ b'\r' ∷ b'\n' ∷ rest)) ha refl,
  unstrict_char-plain fuel b'.' (b ∷ (minor ++ b'\r' ∷ b'\n' ∷ rest)) (unfold is_plain in refl),
  cfws-plain b (minor ++ b'\r' ∷ b'\n' ∷ rest) (digit-plain b hb.0) fuel,
  number-digits b minor b'\r' (b'\n' ∷ rest) hb refl,
  unstrict_crlf-end fuel rest end,
  version_of-mod (decimal 0 (a ∷ major)) (decimal 0 (b ∷ minor)),
)
