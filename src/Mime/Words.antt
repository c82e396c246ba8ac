-- ===== src/Mime/Words.antt =====
-- Words and phrases of src/mime.c: atom, quoted-string, word, phrase, and their variants that allow
-- FWS, but no comment, in front. The strings that grow are of mmapstring.
pub mod Atom
pub mod Quoted
pub mod RoundTrip
pub mod Phrases
use smtp_nel_filter.Prelude.{
  ℕ, zero, suc, ◌+◌, Bool, true, false, [], ◌∷◌, ◌++◌, Bytes, ◌==◌, if◌then◌else◌, length, Option,
  none, some,
}
use smtp_nel_filter.Outcome.{
  Outcome, ok, error_parse, error_continue, error_memory, out_of_fuel, fault, Parser, bind, ◌>>◌,
  skip, either,
}
use smtp_nel_filter.Platform.{Platform}
use smtp_nel_filter.Mime.Chars.{is_atext, is_qtext, is_dtext}
use smtp_nel_filter.Mime.Scan.{char_parse, quoted_pair_parse}
use smtp_nel_filter.Mime.Space.{fws_parse, cfws_parse}

-- What the code calls of mmapstring; `none` is NULL.
pub record MmapString : Type 0 where
  pub new : Option Bytes
  pub append_c : Bytes → ℕ → Option Bytes
  pub append : Bytes → Bytes → Option Bytes

-- A string of C ends at its first NUL.
unfoldable pub c_string : Bytes → Bytes
c_string [] = []
c_string (c ∷ s) = let rest = c_string s in if c == 0 then [] else c ∷ rest

-- malloc of room for some bytes and a NUL, with the bytes copied as strncpy and strdup do.
unfoldable pub new_string : Platform → ℕ → Bytes → Bytes → Outcome Bytes
new_string platform size bytes rest =
    if platform.malloc (size + 1) then ok (c_string bytes) rest else error_memory

-- The bytes at the cursor that are atext, and those behind them.
unfoldable pub atom_loop : Bytes → Bytes × Bytes
atom_loop [] = ([], [])
atom_loop (c ∷ s) =
    let (atom, rest) = atom_loop s in if is_atext c then (c ∷ atom, rest) else ([], c ∷ s)

unfoldable pub atom_copy : Platform → Bytes × Bytes → Outcome Bytes
atom_copy platform ([], rest) = error_parse
atom_copy platform (c ∷ atom, rest) = new_string platform (length (c ∷ atom)) (c ∷ atom) rest

-- smtp_atom_parse and smtp_fws_atom_parse behind the white space; at the end of the buffer they
-- report a mismatch as for an empty atom.
unfoldable pub atom_text_parse : Platform → Parser Bytes
atom_text_parse platform s = atom_copy platform (atom_loop s)

unfoldable pub atom_parse : Platform → ℕ → Parser Bytes
atom_parse platform fuel = skip (cfws_parse fuel) >> atom_text_parse platform

unfoldable pub fws_atom_parse : Platform → Parser Bytes
fws_atom_parse platform = skip fws_parse >> atom_text_parse platform

abbrev pub dot_atom_parse : Platform → ℕ → Parser Bytes
dot_atom_parse = atom_parse

abbrev pub dquote_parse : Parser (Unit {0})
dquote_parse = char_parse b'"'

unfoldable pub qcontent_parse : Parser ℕ
qcontent_parse [] = error_continue
qcontent_parse (c ∷ s) = if is_qtext c then ok c s else quoted_pair_parse (c ∷ s)

-- The content of a domain literal.
unfoldable pub dcontent_parse : Parser ℕ
dcontent_parse [] = error_continue
dcontent_parse (c ∷ s) = if is_dtext c then ok c s else quoted_pair_parse (c ∷ s)

-- What mmapstring returns, or SMTP_ERROR_MEMORY.
abbrev pub grown : Option Bytes → Parser Bytes
grown none rest = error_memory
grown (some gstr) rest = ok gstr rest

-- A blank for the FWS in a quoted string.
unfoldable pub quoted_fws : MmapString → Bytes → Bytes → Outcome (Unit {0}) → Outcome Bytes
quoted_fws m gstr here (ok _ rest) = grown (m.append_c gstr b' ') rest
quoted_fws m gstr here error_parse = ok gstr here
quoted_fws m gstr here error_continue = error_continue
quoted_fws m gstr here error_memory = error_memory
quoted_fws m gstr here out_of_fuel = out_of_fuel
quoted_fws m gstr here fault = fault

-- A byte of it, after which the loop goes on; a mismatch ends the loop.
unfoldable pub quoted_content :
    MmapString → (Bytes → Parser Bytes) → Bytes → Bytes → Outcome ℕ → Outcome Bytes
quoted_content m go_on gstr here (ok ch rest) = bind (grown (m.append_c gstr ch) rest) go_on
quoted_content m go_on gstr here error_parse = ok gstr here
quoted_content m go_on gstr here error_continue = error_continue
quoted_content m go_on gstr here error_memory = error_memory
quoted_content m go_on gstr here out_of_fuel = out_of_fuel
quoted_content m go_on gstr here fault = fault

-- Each round reads a byte, so that fuel above the number of bytes is enough.
unfoldable pub quoted_loop : MmapString → ℕ → Bytes → Parser Bytes
quoted_loop m zero gstr s = out_of_fuel
quoted_loop m (suc fuel) gstr s =
    bind (quoted_fws m gstr s (fws_parse s))
      λ gstr' here. quoted_content m (quoted_loop m fuel) gstr' here (qcontent_parse here)

-- Behind the opening quote: the content, the closing quote and the copy that is returned.
unfoldable pub quoted_text_parse : Platform → MmapString → ℕ → Parser Bytes
quoted_text_parse platform m fuel s = bind (grown m.new s) λ gstr here.
    bind (quoted_loop m fuel gstr here) λ str closing.
      bind (dquote_parse closing) λ _ rest. new_string platform (length (c_string str)) str rest

unfoldable pub quoted_string_parse : Platform → MmapString → ℕ → Parser Bytes
quoted_string_parse platform m fuel =
    skip (cfws_parse fuel) >> dquote_parse >> quoted_text_parse platform m fuel

unfoldable pub fws_quoted_string_parse : Platform → MmapString → ℕ → Parser Bytes
fws_quoted_string_parse platform m fuel =
    skip fws_parse >> dquote_parse >> quoted_text_parse platform m fuel

unfoldable pub word_parse : Platform → MmapString → ℕ → Parser Bytes
word_parse platform m fuel = either (atom_parse platform fuel) (quoted_string_parse platform m fuel)

unfoldable pub fws_word_parse : Platform → MmapString → ℕ → Parser Bytes
fws_word_parse platform m fuel =
    either (fws_atom_parse platform) (fws_quoted_string_parse platform m fuel)

-- A blank before every word but the first.
abbrev pub phrase_blank : MmapString → Bool → Bytes → Option Bytes
phrase_blank m true gphrase = some gphrase
phrase_blank m false gphrase = m.append_c gphrase b' '

unfoldable pub phrase_word :
    MmapString
    → (Bool → Bytes → Parser Bytes)
    → Bool
    → Bytes
    → Bytes
    → Outcome Bytes
    → Outcome Bytes
phrase_word m go_on first gphrase here (ok word rest) =
    bind (grown (phrase_blank m first gphrase) rest)
      λ blank _. bind (grown (m.append blank word) rest) (go_on false)
phrase_word m go_on first gphrase here error_parse = if first then error_parse else ok gphrase here
phrase_word m go_on first gphrase here error_continue = error_continue
phrase_word m go_on first gphrase here error_memory = error_memory
phrase_word m go_on first gphrase here out_of_fuel = out_of_fuel
phrase_word m go_on first gphrase here fault = fault

-- `fuel` bounds the number of words, and the number of bytes of each.
unfoldable pub phrase_loop : Platform → MmapString → ℕ → ℕ → Bool → Bytes → Parser Bytes
phrase_loop platform m fuel zero first gphrase s = out_of_fuel
phrase_loop platform m fuel (suc words) first gphrase s =
    phrase_word m (phrase_loop platform m fuel words) first gphrase s
      (fws_word_parse platform m fuel s)

unfoldable pub phrase_parse : Platform → MmapString → ℕ → Parser Bytes
phrase_parse platform m fuel s = bind (grown m.new s) λ gphrase here.
    bind (phrase_loop platform m fuel fuel true gphrase here)
      λ str rest. new_string platform (length (c_string str)) str rest
