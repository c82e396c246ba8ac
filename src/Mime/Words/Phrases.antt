-- ===== src/Mime/Words/Phrases.antt =====
-- Phrases: words with blanks between them are read back, joined by single blanks.
use mathlib.Core.List.{append_assoc, append-nil}
use smtp_nel_filter.Prelude.{
  ℕ, zero, suc, ◌+◌, ◌<◌, Bool, true, false, not, ◌&&◌, ◌==◌, List, [], ◌∷◌, ◌++◌, Bytes, ◌≡◌, refl,
  ◌∙◌, sym, ap, arith, length, if◌then◌else◌, Bool-cases, inl, inr,
}
use smtp_nel_filter.Outcome.{ok, error_parse}
use smtp_nel_filter.Platform.{Platform}
use smtp_nel_filter.Mime.Chars.{is_wsp, is_atext}
use smtp_nel_filter.Mime.Scan.{char_parse}
use smtp_nel_filter.Mime.Space.{fws_parse}
use smtp_nel_filter.Mime.Space.Plain.{is_plain, fws-plain, fws-blanks, fws-line_end}
use smtp_nel_filter.Mime.Words.{
  MmapString, c_string, new_string, atom_loop, atom_copy, atom_text_parse, fws_atom_parse,
  fws_quoted_string_parse, fws_word_parse, phrase_word, phrase_loop, phrase_parse,
}
use smtp_nel_filter.Mime.Words.Atom.{
  is_atom, fws_atom-print, fws_atom-dquote, atom-plain, dquote-plain, nil-no_atom,
}
use smtp_nel_filter.Mime.Words.Quoted.{IsGrowing, quote, fws_quoted_string-quote}
use smtp_nel_filter.Mime.Words.RoundTrip.{print_word}

-- A byte that ends a phrase: not even white space or a comment can start there.
unfoldable pub is_stop : ℕ → Bool
is_stop c = is_plain c && not (is_atext c) && not (c == b'"')

-- No word goes on here, and none follows.
abbrev pub EndsPhrase : Platform → MmapString → ℕ → ℕ → Bytes → Type 0
EndsPhrase platform m fuel c s =
    (is_atext c ≡ false) × (fws_word_parse platform m fuel (c ∷ s) ≡ error_parse)

-- The words behind the first one, and what follows them.
abbrev pub print_more : List Bytes → Bytes → Bytes
print_more [] rest = rest
print_more (w ∷ ws) rest = b' ' ∷ print_word w (print_more ws rest)

abbrev pub join_more : List Bytes → Bytes
join_more [] = []
join_more (w ∷ ws) = b' ' ∷ (c_string w ++ join_more ws)

-- Every word is shorter than the number.
abbrev pub Short : ℕ → List Bytes → Type 0
Short n [] = Unit
Short n (w ∷ ws) = (length w < n) × Short n ws

c_string-append : (a b : Bytes) → c_string (c_string a ++ b) ≡ c_string a ++ c_string b
unfolding c_string
c_string-append [] b = refl
c_string-append (x ∷ a) b = cut (c_string-append a b) (x == 0) refl
  where
    cut :
        c_string (c_string a ++ b) ≡ c_string a ++ c_string b
        → (t : Bool) → (x == 0) ≡ t
        → c_string ((if t then [] else x ∷ c_string a) ++ b)
          ≡ (if t then [] else x ∷ c_string a) ++ c_string b
    cut rest true e = refl
    cut rest false e = rw (e, rest)

c_string-join_more : (ws : List Bytes) → c_string (join_more ws) ≡ join_more ws
unfolding c_string
c_string-join_more [] = refl
c_string-join_more (w ∷ ws) = rw (c_string-append w (join_more ws), c_string-join_more ws)

-- Parameters that never run out of memory, and enough fuel for each word.
module _ (platform : Platform) (m : MmapString) (fuel : ℕ) (law : IsGrowing m)
    (memory : (k : ℕ) → platform.malloc k ≡ true) where
  fws_word-print :
      (xs : Bytes) (c : ℕ) (s : Bytes)
      → is_atext c ≡ false
      → length xs < fuel
      → fws_word_parse platform m fuel (print_word xs (c ∷ s)) ≡ ok (c_string xs) (c ∷ s)
  unfolding fws_word_parse
  fws_word-print xs c s stop h = elim (Bool-cases (is_atom xs)) [
    | inl a ↦ rw (a, fws_atom-print platform xs c s a (memory (length xs + 1)) stop)
    | inr a ↦
        rw (a, fws_atom-dquote platform (quote xs ++ b'"' ∷ c ∷ s))
          (fws_quoted_string-quote platform m fuel xs c s law (memory (length (c_string xs) + 1)) h)
  ]

  -- A blank in front of a word changes nothing.
  fws_word-blank :
      (c : ℕ) (s : Bytes)
      → is_plain c ≡ true
      → fws_word_parse platform m fuel (b' ' ∷ c ∷ s) ≡ fws_word_parse platform m fuel (c ∷ s)
  unfolding fws_word_parse fws_atom_parse fws_quoted_string_parse
  fws_word-blank c s plain =
      let blank : fws_parse (b' ' ∷ c ∷ s) ≡ ok tt (c ∷ s) =
        fws-blanks c s plain b' ' [] (unfold is_wsp in refl, tt) in
      rw (blank, fws-plain c s plain)

  word-plain :
      (xs rest : Bytes) → (c : ℕ) × (s : Bytes) × (print_word xs rest ≡ c ∷ s) × (is_plain c ≡ true)
  word-plain [] rest = (b'"', quote [] ++ b'"' ∷ rest, rw nil-no_atom, dquote-plain)
  word-plain (x ∷ xs) rest = elim (Bool-cases (is_atom (x ∷ xs))) [
    | inl a ↦ (x, xs ++ rest, rw a, atom-plain x xs a)
    | inr a ↦ (b'"', quote (x ∷ xs) ++ b'"' ∷ rest, rw a, dquote-plain)
  ]

  -- No FWS, no atom and no quote.
  fws_word-mismatch :
      (c : ℕ) (s : Bytes)
      → fws_parse (c ∷ s) ≡ error_parse
      → is_atext c ≡ false
      → (c == b'"') ≡ false
      → fws_word_parse platform m fuel (c ∷ s) ≡ error_parse
  unfolding fws_word_parse fws_atom_parse fws_quoted_string_parse atom_text_parse atom_copy
      atom_loop char_parse
  fws_word-mismatch c s no_fws no_atom no_quote = rw (no_fws, no_atom, no_quote)

  fws_word-stop :
      (c : ℕ) (s : Bytes) → is_stop c ≡ true → fws_word_parse platform m fuel (c ∷ s) ≡ error_parse
  unfolding is_stop
  fws_word-stop c s stop =
      fws_word-mismatch c s (fws-plain c s (ground arith)) (ground arith) (ground arith)

  more-head :
      (ws : List Bytes) (c : ℕ) (s : Bytes)
      → EndsPhrase platform m fuel c s
      → (d : ℕ) × (t : Bytes) × (print_more ws (c ∷ s) ≡ d ∷ t) × (is_atext d ≡ false)
  more-head [] c s stop = (c, s, refl, stop.0)
  more-head (w ∷ ws) c s stop =
      (b' ', print_word w (print_more ws (c ∷ s)), refl, unfold is_atext in refl)

  -- One word, whatever words follow.
  next_word :
      (w : Bytes) (ws : List Bytes) (c : ℕ) (s : Bytes)
      → EndsPhrase platform m fuel c s
      → length w < fuel
      → fws_word_parse platform m fuel (print_word w (print_more ws (c ∷ s)))
        ≡ ok (c_string w) (print_more ws (c ∷ s))
  next_word w ws c s stop h =
      let (d, t, e, no_atom) = more-head ws c s stop in rw e (fws_word-print w d t no_atom h)

  next_word-blank :
      (w : Bytes) (ws : List Bytes) (c : ℕ) (s : Bytes)
      → EndsPhrase platform m fuel c s
      → length w < fuel
      → fws_word_parse platform m fuel (print_more (w ∷ ws) (c ∷ s))
        ≡ ok (c_string w) (print_more ws (c ∷ s))
  next_word-blank w ws c s stop h =
      let (d, t, e, plain) = word-plain w (print_more ws (c ∷ s)) in
      ap (λ x. fws_word_parse platform m fuel (b' ' ∷ x)) e
      ∙ fws_word-blank d t plain
      ∙ ap (fws_word_parse platform m fuel) (sym e)
      ∙ next_word w ws c s stop h

  phrase_loop-more :
      (n : ℕ) (g : Bytes) (ws : List Bytes) (c : ℕ) (s : Bytes)
      → EndsPhrase platform m fuel c s
      → Short fuel ws
      → length ws < n
      → phrase_loop platform m fuel n false g (print_more ws (c ∷ s))
        ≡ ok (g ++ join_more ws) (c ∷ s)
  unfolding phrase_loop phrase_word
  phrase_loop-more zero g ws c s stop short h = absurd (omega arith)
  phrase_loop-more (suc n) g [] c s stop short h = rw (stop.1, append-nil g)
  phrase_loop-more (suc n) g (w ∷ ws) c s stop (hw, short) h =
      let blank = g ++ b' ' ∷ [] in
      rw
        (
          next_word-blank w ws c s stop hw,
          law.append_c-last g b' ',
          law.append-behind blank (c_string w),
        )
        (phrase_loop-more n (blank ++ c_string w) ws c s stop short (omega arith)
          ∙ ap (λ x. ok x (c ∷ s))
              (append_assoc blank (c_string w) (join_more ws)
                ∙ append_assoc g (b' ' ∷ []) (c_string w ++ join_more ws)))

  phrase_loop-print :
      (n : ℕ) (w : Bytes) (ws : List Bytes) (c : ℕ) (s : Bytes)
      → EndsPhrase platform m fuel c s
      → Short fuel (w ∷ ws)
      → length ws + 1 < n
      → phrase_loop platform m fuel n true [] (print_word w (print_more ws (c ∷ s)))
        ≡ ok (c_string w ++ join_more ws) (c ∷ s)
  unfolding phrase_loop phrase_word
  phrase_loop-print zero w ws c s stop short h = absurd (omega arith)
  phrase_loop-print (suc n) w ws c s stop (hw, short) h =
      rw (next_word w ws c s stop hw, law.append-behind [] (c_string w))
        (phrase_loop-more n (c_string w) ws c s stop short (omega arith))

  pub phrase_parse-ends :
      (w : Bytes) (ws : List Bytes) (c : ℕ) (s : Bytes)
      → EndsPhrase platform m fuel c s
      → Short fuel (w ∷ ws)
      → length ws + 1 < fuel
      → phrase_parse platform m fuel (print_word w (print_more ws (c ∷ s)))
        ≡ ok (c_string w ++ join_more ws) (c ∷ s)
  unfolding phrase_parse new_string
  phrase_parse-ends w ws c s stop short h = simp law.new-empty (
      rw (
        phrase_loop-print fuel w ws c s stop short h,
        memory (length (c_string (c_string w ++ join_more ws)) + 1),
        c_string-append w (join_more ws),
        c_string-join_more ws,
      ))

  pub stop-EndsPhrase : (c : ℕ) (s : Bytes) → is_stop c ≡ true → EndsPhrase platform m fuel c s
  unfolding is_stop
  stop-EndsPhrase c s stop = (ground arith, fws_word-stop c s stop)

  -- A blank before such a byte ends the phrase, too.
  pub blank-EndsPhrase :
      (c : ℕ) (s : Bytes) → is_stop c ≡ true → EndsPhrase platform m fuel b' ' (c ∷ s)
  unfolding is_stop
  blank-EndsPhrase c s stop =
      (unfold is_atext in refl, fws_word-blank c s (ground arith) ∙ fws_word-stop c s stop)

  -- And so does a line end that no white space follows.
  pub crlf-EndsPhrase :
      (c : ℕ) (s : Bytes) → is_wsp c ≡ false → EndsPhrase platform m fuel b'\r' (b'\n' ∷ c ∷ s)
  crlf-EndsPhrase c s h =
      let no_atom : is_atext b'\r' ≡ false = unfold is_atext in refl in
      (no_atom, fws_word-mismatch b'\r' (b'\n' ∷ c ∷ s) (fws-line_end c s h) no_atom refl)

  -- smtp_phrase_parse reads words that are separated by blanks, each printed as an atom or quoted,
  -- before a byte that starts no word, white space or comment; the result is the words joined by
  -- blanks, each up to its first NUL. Memory never runs out, and the fuel is above the number of
  -- words and their lengths.
  pub phrase_parse-print :
      (w : Bytes) (ws : List Bytes) (c : ℕ) (s : Bytes)
      → is_stop c ≡ true
      → Short fuel (w ∷ ws)
      → length ws + 1 < fuel
      → phrase_parse platform m fuel (print_word w (print_more ws (c ∷ s)))
        ≡ ok (c_string w ++ join_more ws) (c ∷ s)
  phrase_parse-print w ws c s stop = phrase_parse-ends w ws c s (stop-EndsPhrase c s stop)
