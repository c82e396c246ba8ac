-- ===== src/Body/Base64/Letters.antt =====
-- Bytes outside the alphabet, such as line ends and padding, change nothing.
use smtp_nel_filter.Prelude.{ℕ, [], ◌∷◌, ◌++◌, Bytes, ◌≡◌, refl, ap, Option, none, some}
use smtp_nel_filter.Body.Base64.{get_base64_value, Decoder, decode_byte, decode_loop}

-- The letter, if it is one, in front of the others.
abbrev pub keep : ℕ → Option ℕ → Bytes → Bytes
keep c none s = s
keep c (some v) s = c ∷ s

-- The letters of the alphabet in a text.
abbrev pub letters : Bytes → Bytes
letters [] = []
letters (c ∷ s) = keep c (get_base64_value c) (letters s)

decode_byte-keep :
    (d : Decoder) (c : ℕ) (s : Bytes) (o : Option ℕ)
    → ((d' : Decoder) → decode_loop d' s ≡ decode_loop d' (letters s))
    → get_base64_value c ≡ o
    → (decode_byte d o).1 ++ decode_loop (decode_byte d o).0 s
      ≡ decode_loop d (keep c o (letters s))
unfolding decode_loop decode_byte
decode_byte-keep d c s none ih e = ih d
decode_byte-keep d c s (some v) ih e =
    rw e (ap (λ r. (decode_byte d (some v)).1 ++ r) (ih (decode_byte d (some v)).0))

-- The output depends on the letters alone.
pub decode_loop-letters : (d : Decoder) (s : Bytes) → decode_loop d s ≡ decode_loop d (letters s)
unfolding decode_loop
decode_loop-letters d [] = refl
decode_loop-letters d (c ∷ s) =
    decode_byte-keep d c s (get_base64_value c) (λ d'. decode_loop-letters d' s) refl
