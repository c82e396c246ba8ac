-- ===== src/Mime/Words/Quoted.antt =====
-- Quoted strings: every text can be quoted, and is read back.
use mathlib.Core.List.{append_assoc, append-nil}
use smtp_nel_filter.Prelude.{
  ℕ, zero, suc, ◌+◌, ◌<◌, true, false, [], ◌∷◌, ◌++◌, Bytes, ◌≡◌, ◌==◌, ◌||◌, refl, ◌∙◌, ap, arith,
  length, if◌then◌else◌, some, Bool-cases, inl, inr,
}
use smtp_nel_filter.Outcome.{ok, error_parse}
use smtp_nel_filter.Platform.{Platform}
use smtp_nel_filter.Mime.Chars.{is_qtext}
use smtp_nel_filter.Mime.Scan.{wsp_loop, crlf_parse, char_parse, quoted_pair_parse}
use smtp_nel_filter.Mime.Space.{fws_end, fws_crlf, fws_parse}
use smtp_nel_filter.Mime.Space.Plain.{is_plain, cfws-plain}
use smtp_nel_filter.Mime.Words.{
  MmapString, c_string, new_string, qcontent_parse, quoted_fws, quoted_content, quoted_loop,
  quoted_text_parse, quoted_string_parse, fws_quoted_string_parse,
}

-- What mmapstring promises as long as memory lasts.
pub record IsGrowing (m : MmapString) : Type 0 where
  pub new-empty : m.new ≡ some []
  pub append_c-last : (s : Bytes) (c : ℕ) → m.append_c s c ≡ some (s ++ c ∷ [])
  pub append-behind : (s t : Bytes) → m.append s t ≡ some (s ++ t)

-- A backslash before every byte that is no qtext.
unfoldable pub quote : Bytes → Bytes
quote [] = []
quote (c ∷ xs) = let rest = quote xs in if is_qtext c then c ∷ rest else b'\\' ∷ c ∷ rest

-- No byte of qtext, no backslash and no quote starts FWS.
fws-none :
    (c : ℕ) (s : Bytes)
    → (c == b' ' || c == b'\t' || c == b'\r' || c == b'\n') ≡ false
    → fws_parse (c ∷ s) ≡ error_parse
unfolding fws_parse fws_crlf fws_end wsp_loop crlf_parse
fws-none c s h = ground arith

qtext-none :
    (c : ℕ) → is_qtext c ≡ true → (c == b' ' || c == b'\t' || c == b'\r' || c == b'\n') ≡ false
unfolding is_qtext
qtext-none c h = ground arith

qcontent-qtext : (c : ℕ) (s : Bytes) → is_qtext c ≡ true → qcontent_parse (c ∷ s) ≡ ok c s
unfolding qcontent_parse
qcontent-qtext c s h = rw h

qcontent-pair : (c : ℕ) (s : Bytes) → qcontent_parse (b'\\' ∷ c ∷ s) ≡ ok c s
unfolding qcontent_parse quoted_pair_parse is_qtext
qcontent-pair c s = refl

qcontent-closing : (c : ℕ) (s : Bytes) → qcontent_parse (b'"' ∷ c ∷ s) ≡ error_parse
unfolding qcontent_parse quoted_pair_parse is_qtext
qcontent-closing c s = refl

quoted_loop-quote :
    (m : MmapString) (fuel : ℕ) (gstr xs : Bytes) (c : ℕ) (s : Bytes)
    → IsGrowing m
    → length xs < fuel
    → quoted_loop m fuel gstr (quote xs ++ b'"' ∷ c ∷ s) ≡ ok (gstr ++ xs) (b'"' ∷ c ∷ s)
unfolding quoted_loop quoted_fws quoted_content quote
quoted_loop-quote m zero gstr xs c s law h = absurd (omega arith)
quoted_loop-quote m (suc fuel) gstr [] c s law h =
    rw (fws-none b'"' (c ∷ s) refl, qcontent-closing c s, append-nil gstr)
quoted_loop-quote m (suc fuel) gstr (x ∷ xs) c s law h =
    let rest = quote xs ++ b'"' ∷ c ∷ s in
    let go_on : quoted_loop m fuel (gstr ++ x ∷ []) rest ≡ ok (gstr ++ x ∷ xs) (b'"' ∷ c ∷ s) =
      quoted_loop-quote m fuel (gstr ++ x ∷ []) xs c s law (omega arith)
      ∙ ap (λ g. ok g (b'"' ∷ c ∷ s)) (append_assoc gstr (x ∷ []) xs) in
    elim (Bool-cases (is_qtext x)) [
      | inl q ↦
          rw
            (q, fws-none x rest (qtext-none x q), qcontent-qtext x rest q, law.append_c-last gstr x)
            go_on
      | inr q ↦
          rw (q, fws-none b'\\' (x ∷ rest) refl, qcontent-pair x rest, law.append_c-last gstr x)
            go_on
    ]

-- Behind the opening quote.
quoted_text-quote :
    (platform : Platform) (m : MmapString) (fuel : ℕ) (xs : Bytes) (c : ℕ) (s : Bytes)
    → IsGrowing m
    → platform.malloc (length (c_string xs) + 1) ≡ true
    → length xs < fuel
    → quoted_text_parse platform m fuel (quote xs ++ b'"' ∷ c ∷ s) ≡ ok (c_string xs) (c ∷ s)
unfolding quoted_text_parse char_parse new_string
quoted_text-quote platform m fuel xs c s law memory h =
    simp law.new-empty (rw (quoted_loop-quote m fuel [] xs c s law h, memory))

-- A quoted text is read back up to its first NUL, if a byte follows the closing quote.
pub quoted_string-quote :
    (platform : Platform) (m : MmapString) (fuel : ℕ) (xs : Bytes) (c : ℕ) (s : Bytes)
    → IsGrowing m
    → platform.malloc (length (c_string xs) + 1) ≡ true
    → length xs < fuel
    → quoted_string_parse platform m fuel (b'"' ∷ (quote xs ++ b'"' ∷ c ∷ s))
      ≡ ok (c_string xs) (c ∷ s)
unfolding quoted_string_parse char_parse
quoted_string-quote platform m zero xs c s law memory h = absurd (omega arith)
quoted_string-quote platform m (suc fuel) xs c s law memory h =
    rw (cfws-plain b'"' (quote xs ++ b'"' ∷ c ∷ s) (unfold is_plain in refl) fuel)
      (quoted_text-quote platform m (suc fuel) xs c s law memory h)

pub fws_quoted_string-quote :
    (platform : Platform) (m : MmapString) (fuel : ℕ) (xs : Bytes) (c : ℕ) (s : Bytes)
    → IsGrowing m
    → platform.malloc (length (c_string xs) + 1) ≡ true
    → length xs < fuel
    → fws_quoted_string_parse platform m fuel (b'"' ∷ (quote xs ++ b'"' ∷ c ∷ s))
      ≡ ok (c_string xs) (c ∷ s)
unfolding fws_quoted_string_parse char_parse
fws_quoted_string-quote platform m fuel xs c s law memory h =
    rw (fws-none b'"' (quote xs ++ b'"' ∷ c ∷ s) refl)
      (quoted_text-quote platform m fuel xs c s law memory h)
