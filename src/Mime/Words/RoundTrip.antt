-- ===== src/Mime/Words/RoundTrip.antt =====
-- Words: an atom where that is possible and else quoted, a text is read back.
use smtp_nel_filter.Prelude.{
  ℕ, zero, suc, ◌+◌, ◌<◌, ◌≤◌, true, false, [], ◌∷◌, ◌++◌, Bytes, ◌≡◌, arith, length, if◌then◌else◌,
  Bool-cases, inl, inr,
}
use smtp_nel_filter.Outcome.{ok}
use smtp_nel_filter.Platform.{Platform}
use smtp_nel_filter.Mime.Chars.{is_atext}
use smtp_nel_filter.Mime.Words.{MmapString, c_string, word_parse}
use smtp_nel_filter.Mime.Words.Atom.{is_atom, atom-print, atom-dquote}
use smtp_nel_filter.Mime.Words.Quoted.{IsGrowing, quote, quoted_string-quote}

-- A text as a word, and what follows it.
abbrev pub print_word : Bytes → Bytes → Bytes
print_word xs rest = if is_atom xs then xs ++ rest else b'"' ∷ (quote xs ++ b'"' ∷ rest)

-- malloc grants every request of up to that many bytes.
abbrev pub Grants : Platform → ℕ → Type 0
Grants platform n = (k : ℕ) → k ≤ n → platform.malloc k ≡ true

length-c_string : (xs : Bytes) → length (c_string xs) ≤ length xs
unfolding c_string
length-c_string [] = omega arith
length-c_string (x ∷ xs) = ground (arith, length-c_string xs)

-- Every text, printed as a word before a byte that no atom has, is read by smtp_word_parse up to
-- its first NUL, if memory is granted; fuel above the text's length is enough.
pub word_parse-print :
    (platform : Platform) (m : MmapString) (fuel : ℕ) (xs : Bytes) (c : ℕ) (s : Bytes)
    → IsGrowing m
    → Grants platform (length xs + 1)
    → is_atext c ≡ false
    → length xs < fuel
    → word_parse platform m fuel (print_word xs (c ∷ s)) ≡ ok (c_string xs) (c ∷ s)
unfolding word_parse
word_parse-print platform m zero xs c s law memory stop h = absurd (omega arith)
word_parse-print platform m (suc fuel) xs c s law memory stop h = elim (Bool-cases (is_atom xs)) [
  | inl a ↦ rw (a, atom-print platform fuel xs c s a (memory (length xs + 1) (omega arith)) stop)
  | inr a ↦
      rw (a, atom-dquote platform fuel (quote xs ++ b'"' ∷ c ∷ s))
        (quoted_string-quote platform m (suc fuel) xs c s law
          (memory (length (c_string xs) + 1) (omega (arith, length-c_string xs))) h)
]
