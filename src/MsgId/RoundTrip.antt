-- ===== src/MsgId/RoundTrip.antt =====
-- Message identifiers in angle brackets are read back, and nothing else is.
use smtp_nel_filter.Prelude.{
  ℕ, zero, suc, ◌+◌, ◌<◌, Bool, true, false, not, ◌||◌, ◌==◌, Option, some, [], ◌∷◌, ◌++◌, Bytes,
  ◌≡◌, refl, ap, ◌∙◌, arith, length,
}
use smtp_nel_filter.Outcome.{ok, error_parse, lenient}
use smtp_nel_filter.Outcome.Inversion.{bind-eq-ok}
use smtp_nel_filter.Platform.{Platform}
use smtp_nel_filter.Mime.Chars.{is_wsp, is_atext}
use smtp_nel_filter.Mime.Scan.{char_parse}
use smtp_nel_filter.Mime.Space.{cfws_parse, unstrict_char_parse}
use smtp_nel_filter.Mime.Space.Plain.{is_plain, cfws-plain, cfws-blanks}
use smtp_nel_filter.Mime.Words.{
  MmapString, atom_loop, atom_copy, atom_text_parse, atom_parse, quoted_string_parse, word_parse,
}
use smtp_nel_filter.Address.{angle_addr_parse}
use smtp_nel_filter.Address.Spec.{IsAddr, angle_addr-behind}
use smtp_nel_filter.MsgId.{
  msg_id_parse, unwanted_round, unwanted_loop, parse_unwanted_msg_id, unstrict_msg_id_parse,
}

-- A byte at which no unwanted token starts.
unfoldable pub is_quiet : ℕ → Bool
is_quiet c = not (
    is_atext c
    || c == b'"'
    || c == b';'
    || c == b','
    || c == b'+'
    || c == b':'
    || c == b'.'
    || c == b'@')

msg_id-angle_addr :
    (platform : Platform) (fuel : ℕ) → msg_id_parse platform fuel ≡ angle_addr_parse platform fuel
unfolding msg_id_parse angle_addr_parse
msg_id-angle_addr platform fuel = refl

pub msg_id-print :
    (platform : Platform) (fuel : ℕ) (id rest t : Bytes)
    → 0 < fuel
    → lenient (cfws_parse fuel t) t ≡ ok tt (b'<' ∷ (id ++ b'>' ∷ rest))
    → platform.malloc (length id + 1) ≡ true
    → IsAddr id
    → msg_id_parse platform fuel t ≡ ok (some id) rest
msg_id-print platform zero id rest t positive before memory h = absurd (omega arith)
msg_id-print platform (suc fuel) id rest t positive before memory h =
    ap (λ p. p t) (msg_id-angle_addr platform (suc fuel))
    ∙ angle_addr-behind platform fuel id rest t before memory h

pub angle-here :
    (fuel : ℕ) (s : Bytes)
    → 0 < fuel
    → lenient (cfws_parse fuel (b'<' ∷ s)) (b'<' ∷ s) ≡ ok tt (b'<' ∷ s)
angle-here zero s positive = absurd (omega arith)
angle-here (suc fuel) s positive = rw (cfws-plain b'<' s (unfold is_plain in refl) fuel) refl

pub angle-blank :
    (fuel : ℕ) (s : Bytes)
    → 0 < fuel
    → lenient (cfws_parse fuel (b' ' ∷ b'<' ∷ s)) (b' ' ∷ b'<' ∷ s) ≡ ok tt (b'<' ∷ s)
angle-blank zero s positive = absurd (omega arith)
angle-blank (suc fuel) s positive =
    rw (cfws-blanks b'<' s (unfold is_plain in refl) fuel b' ' [] (unfold is_wsp in refl, tt)) refl

-- What stands before such a byte is skipped by smtp_cfws_parse.
module _ (platform : Platform) (m : MmapString) (fuel : ℕ) where
  abbrev pub Quiet : Bytes → Type 0
  Quiet t =
      (c : ℕ) × (s : Bytes) × (lenient (cfws_parse fuel t) t ≡ ok tt (c ∷ s)) × (is_quiet c ≡ true)

  quiet-token :
      (t : Bytes) (c : ℕ) (s : Bytes) (token : ℕ)
      → lenient (cfws_parse fuel t) t ≡ ok tt (c ∷ s)
      → (c == token) ≡ false
      → unstrict_char_parse fuel token t ≡ error_parse
  unfolding unstrict_char_parse char_parse
  quiet-token t c s token before ne = rw (before, ne) refl

  quiet-word :
      (t : Bytes) (c : ℕ) (s : Bytes)
      → lenient (cfws_parse fuel t) t ≡ ok tt (c ∷ s)
      → is_atext c ≡ false
      → (c == b'"') ≡ false
      → word_parse platform m fuel t ≡ error_parse
  unfolding word_parse atom_parse quoted_string_parse atom_text_parse atom_copy atom_loop char_parse
  quiet-word t c s before no_atom no_quote = rw (before, no_atom, no_quote) refl

  Quiet-round : (t : Bytes) → Quiet t → unwanted_round platform m fuel t ≡ ok false t
  unfolding unwanted_round is_quiet
  Quiet-round t (c, s, before, quiet) =
      rw
        (
          quiet-word t c s before (ground arith) (ground arith),
          quiet-token t c s b';' before (ground arith),
          quiet-token t c s b',' before (ground arith),
          quiet-token t c s b'+' before (ground arith),
          quiet-token t c s b':' before (ground arith),
          quiet-token t c s b'.' before (ground arith),
          quiet-token t c s b'@' before (ground arith),
        )
        refl

  Quiet-loop : (n : ℕ) (t : Bytes) → Quiet t → 0 < n → unwanted_loop platform m fuel n t ≡ ok tt t
  unfolding unwanted_loop
  Quiet-loop zero t quiet h = absurd (omega arith)
  Quiet-loop (suc n) t quiet h = rw (Quiet-round t quiet) refl

  pub Quiet-unwanted :
      (t : Bytes) → Quiet t → 0 < fuel → parse_unwanted_msg_id platform m fuel t ≡ ok tt t
  unfolding parse_unwanted_msg_id
  Quiet-unwanted t quiet h = rw (Quiet-loop fuel t quiet h) refl

  unwanted-here :
      (s : Bytes) {u : Unit {0}} {r : Bytes}
      → parse_unwanted_msg_id platform m fuel s ≡ ok u r
      → s ≡ r
  unfolding parse_unwanted_msg_id
  unwanted-here s e =
      let (_, _, _, same) = bind-eq-ok (unwanted_loop platform m fuel fuel s) (λ _ _. ok tt s) e in
      cc

  -- smtp_unstrict_msg_id_parse reads nothing but white space, comments and an identifier in angle
  -- brackets: whatever it returns, smtp_msg_id_parse returns behind the white space and the
  -- comments, with the cursor behind the closing bracket. The unwanted tokens are never skipped.
  pub unstrict_msg_id_parse-brackets :
      (s : Bytes) {id : Option Bytes} {r : Bytes}
      → unstrict_msg_id_parse platform m fuel s ≡ ok id r
      → (here : Bytes) × (lenient (cfws_parse fuel s) s ≡ ok tt here)
        × (msg_id_parse platform fuel here ≡ ok id r)
  unfolding unstrict_msg_id_parse
  unstrict_msg_id_parse-brackets s e =
      let (_, here, before, e1) = bind-eq-ok (lenient (cfws_parse fuel s) s) _ e in
      let (_, angle, skipped, e2) = bind-eq-ok (parse_unwanted_msg_id platform m fuel here) _ e1 in
      let (msgid, close, read, e3) = bind-eq-ok (msg_id_parse platform fuel angle) _ e2 in
      let (_, end, left, e4) = bind-eq-ok (parse_unwanted_msg_id platform m fuel close) _ e3 in
      let same = unwanted-here here skipped in
      let unmoved = unwanted-here close left in (here, before, cc)

  -- An identifier before a text that holds no unwanted token.
  pub unstrict_msg_id-print :
      (id t rest : Bytes)
      → lenient (cfws_parse fuel t) t ≡ ok tt (b'<' ∷ (id ++ b'>' ∷ rest))
      → platform.malloc (length id + 1) ≡ true
      → IsAddr id
      → Quiet rest
      → 0 < fuel
      → unstrict_msg_id_parse platform m fuel t ≡ ok (some id) rest
  unfolding unstrict_msg_id_parse
  unstrict_msg_id-print id t rest before memory h quiet positive =
      let here = id ++ b'>' ∷ rest in
      let bracket = angle-here fuel here positive in
      rw
        (
          before,
          Quiet-unwanted (b'<' ∷ here) (b'<', here, bracket, unfold is_quiet is_atext in refl)
              positive,
          msg_id-print platform fuel id rest (b'<' ∷ here) positive bracket memory h,
          Quiet-unwanted rest quiet positive,
        )
        refl
