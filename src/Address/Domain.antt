-- ===== src/Address/Domain.antt =====
-- Local parts, domains and domain literals of src/address.c. The parsers of addresses above take a
-- text up to the next byte that ends an address instead.
use mathlib.Core.List.{append_assoc}
use smtp_nel_filter.Prelude.{
  sym, ℕ, zero, suc, ◌+◌, ◌-◌, ◌<◌, ◌≡◌, refl, ap, ◌∙◌, arith, Bool, true, false, ◌&&◌, [], ◌∷◌,
  ◌++◌, Bytes, ◌==◌, length, length-append, take, All,
}
use smtp_nel_filter.Prelude.Slices.{take-append}
use smtp_nel_filter.Outcome.{
  Outcome, ok, error_parse, error_continue, error_memory, out_of_fuel, fault, Parser, bind, lenient,
  ◌>>◌, skip, either,
}
use smtp_nel_filter.Platform.{Platform}
use smtp_nel_filter.Mime.Chars.{is_dtext}
use smtp_nel_filter.Mime.Scan.{quoted_pair_parse}
use smtp_nel_filter.Mime.Space.{fws_parse, cfws_parse, obracket_parse, cbracket_parse}
use smtp_nel_filter.Mime.Space.Plain.{is_plain, fws-plain, cfws-plain, unstrict_char-plain}
use smtp_nel_filter.Mime.Words.{
  MmapString, c_string, new_string, dot_atom_parse, quoted_string_parse, dcontent_parse,
}

unfoldable pub local_part_parse : Platform → MmapString → ℕ → Parser Bytes
local_part_parse platform m fuel =
    either (dot_atom_parse platform fuel) (quoted_string_parse platform m fuel)

unfoldable pub domain_literal_fws_dcontent_parse : ℕ → Parser ℕ
domain_literal_fws_dcontent_parse fuel = skip (cfws_parse fuel) >> dcontent_parse

-- The loop ends at a mismatch.
unfoldable pub literal_next : Parser (Unit {0}) → Bytes → Outcome ℕ → Outcome (Unit {0})
literal_next go_on here (ok _ rest) = go_on rest
literal_next go_on here error_parse = ok tt here
literal_next go_on here error_continue = error_continue
literal_next go_on here error_memory = error_memory
literal_next go_on here out_of_fuel = out_of_fuel
literal_next go_on here fault = fault

-- Each round reads a byte.
unfoldable pub literal_loop : ℕ → ℕ → Parser (Unit {0})
literal_loop fuel zero s = out_of_fuel
literal_loop fuel (suc rounds) s =
    literal_next (literal_loop fuel rounds) s (domain_literal_fws_dcontent_parse fuel s)

-- The bytes from `begin` up to the cursor.
unfoldable pub literal_copy : Platform → Bytes → Parser Bytes
literal_copy platform begin here =
    let len = length begin - length here in new_string platform len (take len begin) here

unfoldable pub domain_literal_parse : Platform → ℕ → Parser Bytes
domain_literal_parse platform fuel s = bind (lenient (cfws_parse fuel s) s) λ _ begin.
    (obracket_parse fuel
        >> literal_loop fuel fuel
        >> skip fws_parse
        >> cbracket_parse fuel
        >> literal_copy platform begin)
      begin

unfoldable pub domain_parse : Platform → ℕ → Parser Bytes
domain_parse platform fuel =
    either (dot_atom_parse platform fuel) (domain_literal_parse platform fuel)

-- A byte of a literal before which no CFWS can be meant.
abbrev pub is_literal : ℕ → Bool
is_literal c = is_dtext c && is_plain c

literal_loop-All :
    (fuel rounds : ℕ) (d : Bytes) (c : ℕ) (s : Bytes)
    → All is_literal d
    → length d < rounds
    → literal_loop (suc fuel) rounds (d ++ b']' ∷ c ∷ s) ≡ ok tt (b']' ∷ c ∷ s)
unfolding literal_loop literal_next domain_literal_fws_dcontent_parse dcontent_parse
literal_loop-All fuel zero d c s all h = absurd (omega arith)
literal_loop-All fuel (suc rounds) [] c s all h =
    rw (cfws-plain b']' (c ∷ s) (unfold is_plain in refl) fuel)
      (unfold is_dtext quoted_pair_parse in refl)
literal_loop-All fuel (suc rounds) (x ∷ d) c s (l, all) h =
    let plain : is_plain x ≡ true = ground arith in
    let text : is_dtext x ≡ true = ground arith in
    rw (cfws-plain x (d ++ b']' ∷ c ∷ s) plain fuel, text)
      (literal_loop-All fuel rounds d c s all (omega arith))

c_string-literal : (d : Bytes) → All is_literal d → c_string (d ++ b']' ∷ []) ≡ d ++ b']' ∷ []
unfolding c_string is_dtext
c_string-literal [] all = refl
c_string-literal (x ∷ d) (l, all) =
    let some_byte : (x == 0) ≡ false = ground arith in
    rw some_byte (ap (◌∷◌ x) (c_string-literal d all))

-- A domain literal of bytes before which no CFWS can be meant is read with its brackets, if memory
-- is granted and a byte follows it; fuel above the number of its bytes is enough.
pub domain_literal_parse-brackets :
    (platform : Platform) (fuel : ℕ) (d : Bytes) (c : ℕ) (s : Bytes)
    → All is_literal d
    → platform.malloc (length d + 3) ≡ true
    → length d < fuel
    → domain_literal_parse platform fuel (b'[' ∷ (d ++ b']' ∷ c ∷ s))
      ≡ ok (b'[' ∷ (d ++ b']' ∷ [])) (c ∷ s)
unfolding domain_literal_parse literal_copy new_string c_string
domain_literal_parse-brackets platform zero d c s all memory h = absurd (omega arith)
domain_literal_parse-brackets platform (suc fuel) d c s all memory h =
    let text = b'[' ∷ (d ++ b']' ∷ []) in
    let whole : b'[' ∷ (d ++ b']' ∷ c ∷ s) ≡ text ++ c ∷ s =
      ap (◌∷◌ b'[') (sym (append_assoc d (b']' ∷ []) (c ∷ s))) in
    let copied : c_string (take (length text) (text ++ c ∷ s)) ≡ text =
      ap c_string (take-append text (c ∷ s)) ∙ ap (◌∷◌ b'[') (c_string-literal d all) in
    let len : length (b'[' ∷ (d ++ b']' ∷ c ∷ s)) - length (c ∷ s) ≡ length text =
      omega (arith, length-append d (b']' ∷ c ∷ s), length-append d (b']' ∷ [])) in
    let size : length text + 1 ≡ length d + 3 = omega (arith, length-append d (b']' ∷ [])) in
    rw
      (
        cfws-plain b'[' (d ++ b']' ∷ c ∷ s) (unfold is_plain in refl) fuel,
        unstrict_char-plain fuel b'[' (d ++ b']' ∷ c ∷ s) (unfold is_plain in refl),
        literal_loop-All fuel (suc fuel) d c s all h,
        fws-plain b']' (c ∷ s) (unfold is_plain in refl),
        unstrict_char-plain fuel b']' (c ∷ s) (unfold is_plain in refl),
        len,
        size,
        memory,
      )
      (ap (λ b. ok b (c ∷ s)) (ap (λ b. c_string (take (length text) b)) whole ∙ copied))
