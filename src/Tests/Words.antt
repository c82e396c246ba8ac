-- ===== src/Tests/Words.antt =====
-- Words and phrases on concrete inputs.
use smtp_nel_filter.Prelude.{◌≡◌, refl, arith, [], ◌∷◌, ◌++◌, codes, some}
use smtp_nel_filter.Outcome.{ok}
use smtp_nel_filter.Platform.{lp64}
use smtp_nel_filter.Mime.Chars.{is_atext, is_qtext}
use smtp_nel_filter.Mime.Space.Plain.{is_plain}
use smtp_nel_filter.Mime.Words.{MmapString, c_string, word_parse, phrase_parse}
use smtp_nel_filter.Mime.Words.Atom.{is_atom}
use smtp_nel_filter.Mime.Words.Quoted.{IsGrowing, quote}
use smtp_nel_filter.Mime.Words.RoundTrip.{word_parse-print}
use smtp_nel_filter.Mime.Words.Phrases.{is_stop, phrase_parse-print}

-- Strings that always grow.
abbrev pub growing : MmapString
growing = record {
  new = some [];
  append_c = λ s c. some (s ++ c ∷ []);
  append = λ s t. some (s ++ t);
}

pub growing-IsGrowing : IsGrowing growing
growing-IsGrowing = record {
  new-empty = refl;
  append_c-last = λ s c. refl;
  append-behind = λ s t. refl;
}

-- A name that has to be quoted.
word_parse-print_example :
    word_parse lp64 growing 9 (codes "\"J.\\ \\\"D\" <") ≡ ok (codes "J. \"D") (codes " <")
unfolding is_atext is_qtext quote is_atom c_string
word_parse-print_example =
    word_parse-print lp64 growing 9 (codes "J. \"D") b' ' (codes "<") growing-IsGrowing
      (λ k h. refl) refl (omega arith)

phrase_parse-print_example :
    phrase_parse lp64 growing 9 (codes "Mr \"X\\ Y\" Z<") ≡ ok (codes "Mr X Y Z") (codes "<")
unfolding is_atext is_qtext quote is_atom c_string is_stop is_plain
phrase_parse-print_example =
    phrase_parse-print lp64 growing 9 growing-IsGrowing (λ k. refl) (codes "Mr")
      (codes "X Y" ∷ codes "Z" ∷ []) b'<' [] refl (omega arith, (omega arith, (omega arith, tt)))
      (omega arith)
