-- ===== src/Mime/Space/Comments.antt =====
-- Comments, nested to any depth, are read to their closing parenthesis.
use smtp_nel_filter.Prelude.{
  ℕ, zero, suc, ◌+◌, ◌<◌, Bool, true, false, [], ◌∷◌, Bytes, ◌≡◌, ◌∙◌, refl, arith, ◌≢◌, Bool-cases,
  ◌⊎◌, inl, inr, not, ◌||◌, ◌==◌,
}
use smtp_nel_filter.Outcome.{Outcome, ok, error_parse, error_continue, Parser, bind, lenient}
use smtp_nel_filter.Mime.Chars.{is_wsp, is_ctext}
use smtp_nel_filter.Mime.Scan.{wsp_loop, char_parse, crlf_parse, quoted_pair_parse}
use smtp_nel_filter.Mime.Space.{
  fws_end, fws_crlf, fws_parse, ccontent_pair, ccontent_result, ccontent_parse,
  comment_fws_ccontent_parse, repeat, repeat_next, comment_parse,
}

-- What stands between the parentheses: text, quoted pairs, comments and blanks.
pub data Content : Type 0 where
  done : Content
  text pair blank : ℕ → Content → Content
  nested : Content → Content → Content

-- Every text byte is a ctext, and every blank a space or a tab.
abbrev pub IsContent : Content → Type 0
IsContent done = Unit
IsContent (text c k) = (is_ctext c ≡ true) × IsContent k
IsContent (pair c k) = IsContent k
IsContent (blank c k) = (is_wsp c ≡ true) × IsContent k
IsContent (nested i k) = IsContent i × IsContent k

-- The content, and what follows it.
abbrev pub print : Content → Bytes → Bytes
print done rest = rest
print (text c k) rest = c ∷ print k rest
print (pair c k) rest = b'\\' ∷ c ∷ print k rest
print (blank c k) rest = c ∷ print k rest
print (nested i k) rest = b'(' ∷ print i (b')' ∷ print k rest)

abbrev pub size : Content → ℕ
size done = 0
size (text c k) = suc (size k)
size (pair c k) = suc (size k)
size (blank c k) = size k
size (nested i k) = size i + size k + 2

-- A loop over blanks reaches the end of the input, or a byte; the flag stays set.
wsp_loop-cases :
    (seen : Bool) (s : Bytes)
    → (wsp_loop seen s ≡ error_continue)
      ⊎ ((a : Bool) × (t : Bytes) × (wsp_loop seen s ≡ ok a t) × (seen ≡ true → a ≡ true))
unfolding wsp_loop
wsp_loop-cases seen [] = inl refl
wsp_loop-cases seen (c ∷ s) = elim (Bool-cases (is_wsp c)) [
  | inl e ↦ elim (wsp_loop-cases true s) [
    | inl x ↦ inl (rw e x)
    | inr (a, t, x, k) ↦ inr (a, t, rw e x, λ _. k refl)
  ]
  | inr e ↦ inr (seen, c ∷ s, rw e, λ k. k)
]

-- Optional FWS does not see whether one more blank stands in front of it.
skip_crlf :
    (f x y : Bytes) (o : Outcome (Unit {0}))
    → lenient (fws_crlf true f o) x ≡ lenient (fws_crlf true f o) y
unfolding fws_crlf fws_end
skip_crlf f x y (ok _ r) = elim (wsp_loop-cases false r) [ inl e ↦ rw e | inr (a, t, e, k) ↦ rw e ]
skip_crlf f x y _ = refl

skip_crlf_blank :
    (f x : Bytes) (o : Outcome (Unit {0}))
    → lenient (fws_crlf true f o) x ≡ lenient (fws_crlf false f o) f
unfolding fws_crlf fws_end
skip_crlf_blank f x (ok _ r) = elim (wsp_loop-cases false r) [
  | inl e ↦ rw e
  | inr (true, t, e, k) ↦ rw e
  | inr (false, t, e, k) ↦ rw e
]
skip_crlf_blank f x _ = refl

pub skip_blank :
    (b : ℕ) (s : Bytes)
    → is_wsp b ≡ true
    → lenient (fws_parse (b ∷ s)) (b ∷ s) ≡ lenient (fws_parse s) s
unfolding fws_parse wsp_loop
skip_blank b [] h = rw h
skip_blank b (c ∷ s) h = elim (Bool-cases (is_wsp c)) [
  | inl e ↦ elim (wsp_loop-cases true s) [
    | inl x ↦ rw (h, e, x)
    | inr (a, t, x, k) ↦ rw (h, e, x, k refl) (skip_crlf t _ _ _)
  ]
  | inr e ↦ rw (h, e) (skip_crlf_blank (c ∷ s) _ _)
]

-- One round of the loop in smtp_comment_parse.
abbrev pub round : ℕ → Parser (Unit {0})
round fuel = comment_fws_ccontent_parse (comment_parse fuel)

-- The loop and what stands behind it, with `rounds` of fuel for the loop.
abbrev pub close : ℕ → ℕ → Bool → Parser (Unit {0})
close rounds fuel seen s =
    bind (repeat rounds (round fuel) seen s)
      λ _ r. bind (lenient (fws_parse r) r) λ _. char_parse b')'

-- No FWS before a byte that is neither white space nor part of a CRLF.
abbrev pub is_solid : ℕ → Bool
is_solid c = not (c == b' ' || c == b'\t' || c == b'\r' || c == b'\n')

pub fws-solid : (c : ℕ) (s : Bytes) → is_solid c ≡ true → fws_parse (c ∷ s) ≡ error_parse
unfolding fws_parse fws_crlf fws_end wsp_loop crlf_parse
fws-solid c s h = ground arith

ctext-solid : (c : ℕ) → is_ctext c ≡ true → is_solid c ≡ true
unfolding is_ctext
ctext-solid c h = ground arith

pub round-text : (fuel c : ℕ) (s : Bytes) → is_ctext c ≡ true → round fuel (c ∷ s) ≡ ok tt s
unfolding comment_fws_ccontent_parse ccontent_parse
round-text fuel c s h = rw (fws-solid c s (ctext-solid c h), h)

pub round-pair : (fuel c : ℕ) (s : Bytes) → round fuel (b'\\' ∷ c ∷ s) ≡ ok tt s
unfolding comment_fws_ccontent_parse ccontent_parse ccontent_pair quoted_pair_parse is_ctext
round-pair fuel c s = rw (fws-solid b'\\' (c ∷ s) refl)

paren-class :
    (p : ℕ)
    → (p == b'(' || p == b')') ≡ true
    → (is_solid p ≡ true) × (is_ctext p ≡ false) × ((p == b'\\') ≡ false)
unfolding is_ctext
paren-class p h = (ground arith, ground arith, ground arith)

-- A parenthesis with a byte behind it is the nested comment's affair.
pub round-paren :
    (fuel p : ℕ) (s : Bytes)
    → s ≢ []
    → (p == b'(' || p == b')') ≡ true
    → round fuel (p ∷ s) ≡ ccontent_result (p ∷ s) (comment_parse fuel (p ∷ s))
unfolding comment_fws_ccontent_parse ccontent_parse ccontent_pair quoted_pair_parse
round-paren fuel p [] ne h = absurd (ne refl)
round-paren fuel p (c ∷ s) ne h =
    let (solid, no_text, no_pair) = paren-class p h in
    rw (fws-solid p (c ∷ s) solid, no_text, no_pair)

pub comment-close :
    (fuel : ℕ) (s : Bytes) → comment_parse (suc fuel) (b'(' ∷ s) ≡ close fuel fuel false s
unfolding comment_parse char_parse
comment-close fuel s = refl

comment-cparenth : (fuel : ℕ) (s : Bytes) → comment_parse (suc fuel) (b')' ∷ s) ≡ error_parse
unfolding comment_parse char_parse
comment-cparenth fuel s = refl

pub print-ne-nil : (k : Content) (c : ℕ) (s : Bytes) → print k (c ∷ s) ≢ []
print-ne-nil done c s = cc
print-ne-nil (text d k) c s = cc
print-ne-nil (pair d k) c s = cc
print-ne-nil (blank d k) c s = cc
print-ne-nil (nested i k) c s = cc

-- A round that succeeds, and a closing parenthesis where no round does.
pub close-step :
    (rounds fuel : ℕ) (seen : Bool) (s r : Bytes)
    → round fuel s ≡ ok tt r
    → close (suc rounds) fuel seen s ≡ close rounds fuel true r
unfolding repeat repeat_next
close-step rounds fuel seen s r e = rw e

close-cparenth :
    (rounds fuel : ℕ) (seen : Bool) (r : Bytes)
    → r ≢ []
    → close (suc rounds) (suc fuel) seen (b')' ∷ r) ≡ ok tt r
unfolding repeat repeat_next ccontent_result
close-cparenth rounds fuel seen r ne =
    rw (round-paren (suc fuel) b')' r ne refl, comment-cparenth fuel r)
      (rw (fws-solid b')' r refl) (unfold char_parse in refl))

-- A blank before the rest of the loop is skipped, by a round or behind the loop.
close-blank_next :
    (go_on : Parser Bool) (seen : Bool) (b : ℕ) (s : Bytes) (o : Outcome (Unit {0}))
    → is_wsp b ≡ true
    → bind
        (repeat_next go_on seen (b ∷ s) o)
        (λ _ r. bind (lenient (fws_parse r) r) λ _. char_parse b')')
      ≡ bind
          (repeat_next go_on seen s o)
          (λ _ r. bind (lenient (fws_parse r) r) λ _. char_parse b')')
unfolding repeat_next
close-blank_next go_on seen b s error_parse h = rw (skip_blank b s h)
close-blank_next go_on seen b s _ h = refl

pub close-blank :
    (rounds fuel : ℕ) (seen : Bool) (b : ℕ) (s : Bytes)
    → is_wsp b ≡ true
    → close rounds fuel seen (b ∷ s) ≡ close rounds fuel seen s
unfolding repeat
close-blank zero fuel seen b s h = refl
close-blank (suc rounds) fuel seen b s h =
    rw round-blank (close-blank_next _ seen b s (round fuel s) h)
  where
    round-blank : round fuel (b ∷ s) ≡ round fuel s
    round-blank = unfold comment_fws_ccontent_parse in rw (skip_blank b s h)

pub round-nested :
    (fuel : ℕ) (s r : Bytes)
    → s ≢ []
    → close fuel fuel false s ≡ ok tt r
    → round (suc fuel) (b'(' ∷ s) ≡ ok tt r
unfolding ccontent_result
round-nested fuel s r ne e = round-paren (suc fuel) b'(' s ne refl ∙ rw (comment-close fuel s, e)

close-print :
    (k : Content) (rounds fuel : ℕ) (seen : Bool) (r : Bytes)
    → IsContent k
    → r ≢ []
    → size k < rounds
    → size k < fuel
    → close rounds fuel seen (print k (b')' ∷ r)) ≡ ok tt r
close-print k zero fuel seen r h ne a b = absurd (omega arith)
close-print k (suc n) zero seen r h ne a b = absurd (omega arith)
close-print done (suc n) (suc f) seen r h ne a b = close-cparenth n f seen r ne
close-print (text c k) (suc n) (suc f) seen r h ne a b =
    close-step n (suc f) seen _ _ (round-text (suc f) c _ h.0)
    ∙ close-print k n (suc f) true r h.1 ne (omega arith) (omega arith)
close-print (pair c k) (suc n) (suc f) seen r h ne a b =
    close-step n (suc f) seen _ _ (round-pair (suc f) c _)
    ∙ close-print k n (suc f) true r h ne (omega arith) (omega arith)
close-print (blank c k) (suc n) (suc f) seen r h ne a b =
    close-blank (suc n) (suc f) seen c _ h.0
    ∙ close-print k (suc n) (suc f) seen r h.1 ne (omega arith) (omega arith)
close-print (nested i k) (suc n) (suc f) seen r h ne a b =
    close-step n (suc f) seen _ _ (
      round-nested f _ _ (print-ne-nil i b')' _)
        (close-print i f f false _ h.0 (print-ne-nil k b')' r) (omega arith) (omega arith)))
    ∙ close-print k n (suc f) true r h.1 ne (omega arith) (omega arith)

pub comment-print_rest :
    (k : Content) (fuel : ℕ) (r : Bytes)
    → IsContent k
    → r ≢ []
    → size k < fuel
    → comment_parse (suc fuel) (b'(' ∷ print k (b')' ∷ r)) ≡ ok tt r
comment-print_rest k fuel r h ne lt =
    comment-close fuel _ ∙ close-print k fuel fuel false r h ne lt lt

-- A comment with any content is read up to its closing parenthesis, if a byte follows it and the
-- fuel is above the size of the content by two or more.
pub comment-print :
    (k : Content) (fuel c : ℕ) (rest : Bytes)
    → IsContent k
    → size k + 1 < fuel
    → comment_parse fuel (b'(' ∷ print k (b')' ∷ c ∷ rest)) ≡ ok tt (c ∷ rest)
comment-print k zero c rest h lt = absurd (omega arith)
comment-print k (suc fuel) c rest h lt = comment-print_rest k fuel (c ∷ rest) h (cc) (omega arith)
