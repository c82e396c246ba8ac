-- ===== src/Mime/Lines.antt =====
-- The ends of lines of src/mime.c: smtp_str_crlf_parse and smtp_wsp_unstrict_crlf_parse; and
-- smtp_string_new.
use smtp_nel_filter.Prelude.{
  ℕ, ◌≡◌, refl, ap, arith, Bool, true, false, ◌&&◌, ◌||◌, ◌⊎◌, inl, inr, Option, none, some, [],
  ◌∷◌, ◌++◌, Bytes, ltb, ◌==◌, if◌then◌else◌, take, All, Bool-cases,
}
use smtp_nel_filter.Outcome.{ok, error_parse, error_continue, Parser}
use smtp_nel_filter.Mime.Chars.{is_wsp}
use smtp_nel_filter.Mime.Scan.{wsp_loop, wsps_parse, char_parse, crlf_parse}
use smtp_nel_filter.Mime.Space.{crlf_after}

-- Whatever stands before the first CRLF is skipped.
unfoldable pub str_crlf_parse : Parser (Unit {0})
str_crlf_parse [] = error_continue
str_crlf_parse (c ∷ []) = error_continue
str_crlf_parse (c ∷ d ∷ s) =
    let more = str_crlf_parse (d ∷ s) in if c == 13 && d == 10 then ok tt s else more

-- The code of smtp_wsps_parse is not looked at.
unfoldable pub wsp_unstrict_crlf_parse : Parser (Unit {0})
wsp_unstrict_crlf_parse s = crlf_after s (wsps_parse s)

-- smtp_string_pool has blocks of SMTP_STRING_BUF_LEN bytes, which is 256; `granted` is whether
-- alloc_mem yields one. `len` is at most the number of bytes of `str`.
unfoldable pub string_new : Bool → Option Bytes → ℕ → Option Bytes
string_new granted none len = none
string_new granted (some str) len =
    if ltb 255 len then none else if granted then some (take len str) else none

-- A text with a CRLF in it.
unfoldable pub has_crlf : Bytes → Bool
has_crlf [] = false
has_crlf (c ∷ []) = false
has_crlf (c ∷ d ∷ s) = c == 13 && d == 10 || has_crlf (d ∷ s)

str_crlf_parse-no_crlf : (s : Bytes) → has_crlf s ≡ false → str_crlf_parse s ≡ error_continue
unfolding str_crlf_parse has_crlf
str_crlf_parse-no_crlf [] h = refl
str_crlf_parse-no_crlf (c ∷ []) h = refl
str_crlf_parse-no_crlf (c ∷ d ∷ s) h = ground (arith, str_crlf_parse-no_crlf (d ∷ s))

str_crlf_parse-line :
    (line s : Bytes) → has_crlf line ≡ false → str_crlf_parse (line ++ 13 ∷ 10 ∷ s) ≡ ok tt s
unfolding str_crlf_parse has_crlf
str_crlf_parse-line [] s h = refl
str_crlf_parse-line (c ∷ []) s h = ground arith
str_crlf_parse-line (c ∷ d ∷ line) s h = ground (arith, str_crlf_parse-line (d ∷ line) s)

has_crlf-cons :
    (c d : ℕ) (s line rest : Bytes)
    → d ∷ s ≡ line ++ 13 ∷ 10 ∷ rest
    → (c == 13 && d == 10) ≡ false
    → has_crlf line ≡ false
    → has_crlf (c ∷ line) ≡ false
unfolding has_crlf
has_crlf-cons c d s [] rest e apart h = refl
has_crlf-cons c d s (x ∷ line) rest e apart h =
    let same : d ≡ x = cc e in ground (arith, ap (λ y. c == 13 && y == 10) same)

-- A line, its end, and what follows.
abbrev pub IsSplit : Bytes → Type 0
IsSplit s =
    ((line rest : Bytes) × (s ≡ line ++ 13 ∷ 10 ∷ rest)
      × (has_crlf line ≡ false)
      × (str_crlf_parse s ≡ ok tt rest))
    ⊎ ((has_crlf s ≡ false) × (str_crlf_parse s ≡ error_continue))

IsSplit-here : (c d : ℕ) (s : Bytes) → (c == 13 && d == 10) ≡ true → IsSplit (c ∷ d ∷ s)
unfolding str_crlf_parse has_crlf
IsSplit-here c d s e = inl ([], s, ground arith, refl, ground arith)

IsSplit-later :
    (c d : ℕ) (s : Bytes) → (c == 13 && d == 10) ≡ false → IsSplit (d ∷ s) → IsSplit (c ∷ d ∷ s)
unfolding str_crlf_parse has_crlf
IsSplit-later c d s e (inl (line, rest, split, free, found)) =
    inl (c ∷ line, rest, ap (◌∷◌ c) split, has_crlf-cons c d s line rest split e free, rw e found)
IsSplit-later c d s e (inr (free, more)) = inr (rw e free, rw e more)

-- A text is a line that holds no CRLF, a CRLF and the rest, where smtp_str_crlf_parse stops; or it
-- holds no CRLF, and more is asked for.
pub str_crlf_parse-splits :
    (s : Bytes)
    → ((line rest : Bytes) × (s ≡ line ++ 13 ∷ 10 ∷ rest)
        × (has_crlf line ≡ false)
        × (str_crlf_parse s ≡ ok tt rest))
      ⊎ ((has_crlf s ≡ false) × (str_crlf_parse s ≡ error_continue))
str_crlf_parse-splits [] = inr (unfold has_crlf in refl, unfold str_crlf_parse in refl)
str_crlf_parse-splits (c ∷ []) = inr (unfold has_crlf in refl, unfold str_crlf_parse in refl)
str_crlf_parse-splits (c ∷ d ∷ s) =
    let more = str_crlf_parse-splits (d ∷ s) in
    elim (Bool-cases (c == 13 && d == 10)) [
      | inl e ↦ IsSplit-here c d s e
      | inr e ↦ IsSplit-later c d s e more
    ]

wsp_loop-end :
    (seen : Bool) (blanks : Bytes) → All is_wsp blanks → wsp_loop seen blanks ≡ error_continue
unfolding wsp_loop
wsp_loop-end seen [] h = refl
wsp_loop-end seen (b ∷ blanks) (e, h) = rw e (wsp_loop-end true blanks h)

wsp_loop-until :
    (blanks : Bytes) (c : ℕ) (s : Bytes)
    → All is_wsp blanks
    → is_wsp c ≡ false
    → wsp_loop true (blanks ++ c ∷ s) ≡ ok true (c ∷ s)
unfolding wsp_loop
wsp_loop-until [] c s h stop = rw stop
wsp_loop-until (b ∷ blanks) c s (e, h) stop = rw e (wsp_loop-until blanks c s h stop)

-- Blanks at the end of a buffer are a mismatch, although the CRLF may still come: with it the same
-- blanks are accepted.
pub wsp_unstrict_crlf_parse-cut :
    (b : ℕ) (blanks s : Bytes)
    → All is_wsp (b ∷ blanks)
    → (wsp_unstrict_crlf_parse (b ∷ blanks) ≡ error_parse)
      × (wsp_unstrict_crlf_parse (b ∷ (blanks ++ 13 ∷ 10 ∷ s)) ≡ ok tt s)
unfolding wsp_unstrict_crlf_parse wsps_parse crlf_after crlf_parse char_parse is_wsp
wsp_unstrict_crlf_parse-cut b blanks s (e, h) =
    let cut : wsp_loop true blanks ≡ error_continue = wsp_loop-end true blanks h in
    let whole : wsp_loop true (blanks ++ 13 ∷ 10 ∷ s) ≡ ok true (13 ∷ 10 ∷ s) =
      wsp_loop-until blanks 13 (10 ∷ s) h refl in
    (rw (e, cut) (ground arith), rw (e, whole))
