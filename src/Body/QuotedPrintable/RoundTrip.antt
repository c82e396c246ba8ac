-- ===== src/Body/QuotedPrintable/RoundTrip.antt =====
-- Quoted-printable texts as RFC 2045 builds them: decoding what was written, and the two bytes at
-- the end that no such text has.
use mathlib.Core.List.{append-nil}
use smtp_nel_filter.Prelude.{
  ℕ, zero, suc, ◌+◌, ◌-◌, ◌/◌, ◌%◌, ◌<◌, ◌≡◌, refl, ◌∙◌, arith, Bool, true, false, ◌&&◌, List, [],
  ◌∷◌, ◌++◌, Bytes, ltb, ◌==◌, if◌then◌else◌, length,
}
use smtp_nel_filter.Outcome.{ok, fault}
use smtp_nel_filter.Body.QuotedPrintable.{
  MmapBuffer, hexa_to_char, to_char, quoted_printable_body_parse,
}
use smtp_nel_filter.Body.QuotedPrintable.Reference.{
  IsPlain, prepend, prepend-nil, prepend-append, crlf, plain_char, decode_escape, decode, emit,
  decode-return, decode-plain, decode-soft_return, decode-hexa, decode-last_escape,
}
use smtp_nel_filter.Body.QuotedPrintable.Rounds.{IsGrowing}
use smtp_nel_filter.Body.QuotedPrintable.Equivalence.{quoted_printable_body_parse-decode}

-- A byte as itself, a byte as "=" and two digits, a line end that is dropped, one that is kept, and
-- the "_" of a header field.
pub data Item : Type 0 where
  literal : ℕ → Item
  coded : ℕ → Item
  soft_end : Item
  line_end : Item
  blank : Item

abbrev pub IsItem : Bool → Item → Type 0
IsItem h (literal c) = IsPlain c × ((c == b'_' && h) ≡ false)
IsItem h (coded c) = c < 256
IsItem h soft_end = Unit
IsItem h line_end = Unit
IsItem h blank = h ≡ true

abbrev pub AreItems : Bool → List Item → Type 0
AreItems h [] = Unit
AreItems h (i ∷ is) = IsItem h i × AreItems h is

abbrev pub digit : ℕ → ℕ
digit d = if ltb d 10 then d + b'0' else d - 10 + b'A'

abbrev pub print_item : Item → Bytes → Bytes
print_item (literal c) rest = c ∷ rest
print_item (coded c) rest = b'=' ∷ digit (c / 16) ∷ digit (c % 16) ∷ rest
print_item soft_end rest = b'=' ∷ 13 ∷ 10 ∷ rest
print_item line_end rest = 13 ∷ 10 ∷ rest
print_item blank rest = b'_' ∷ rest

-- The text, with `rest` behind it.
abbrev pub print : List Item → Bytes → Bytes
print [] rest = rest
print (i ∷ is) rest = print_item i (print is rest)

abbrev pub meaning : Item → Bytes
meaning (literal c) = c ∷ []
meaning (coded c) = c ∷ []
meaning soft_end = []
meaning line_end = crlf
meaning blank = b' ' ∷ []

abbrev pub meanings : List Item → Bytes
meanings [] = []
meanings (i ∷ is) = meaning i ++ meanings is

-- Every byte, by evaluation.
digits_read : ℕ → Bool
digits_read zero = true
digits_read (suc c) =
    let rest = digits_read c in
    if to_char (digit (c / 16)) (digit (c % 16)) == c then rest else false

digits_read-lt :
    (n c : ℕ) → digits_read n ≡ true → c < n → to_char (digit (c / 16)) (digit (c % 16)) ≡ c
unfolding digits_read
digits_read-lt zero c all h = absurd (omega arith)
digits_read-lt (suc n) c all h =
    let before : digits_read n ≡ true → c < n → to_char (digit (c / 16)) (digit (c % 16)) ≡ c =
      λ e. digits_read-lt n c e in
    ground (arith, before)

to_char-digits : (c : ℕ) → c < 256 → to_char (digit (c / 16)) (digit (c % 16)) ≡ c
to_char-digits c = digits_read-lt 256 c table
  where
    table : digits_read 256 ≡ true
    table = unfold digits_read to_char hexa_to_char in refl

decode-item :
    (h : Bool) (i : Item) (s : Bytes)
    → IsItem h i
    → decode h (print_item i s) ≡ prepend (meaning i) (decode h s)
unfolding plain_char
decode-item h (literal c) s (e, ordinary) = decode-plain h c s e ∙ rw ordinary
decode-item h (coded c) s lt =
    decode-hexa h (digit (c / 16)) (digit (c % 16)) s (ground arith) (ground arith)
    ∙ rw (to_char-digits c lt)
decode-item h soft_end s v = decode-soft_return h 10 s ∙ rw (prepend-nil (decode h s))
decode-item h line_end s v = decode-return h 10 s
decode-item h blank s e = decode-plain h b'_' s (refl, refl, refl) ∙ rw e

decode-print :
    (h : Bool) (is : List Item) (rest : Bytes)
    → AreItems h is
    → decode h (print is rest) ≡ prepend (meanings is) (decode h rest)
decode-print h [] rest v = rw (prepend-nil (decode h rest))
decode-print h (i ∷ is) rest (v, vs) =
    decode-item h i (print is rest) v
    ∙ rw (decode-print h is rest vs) (rw (prepend-append (meaning i) (meanings is) (decode h rest)))

-- A quoted-printable text is decoded to what its items mean, and all of it is used, if memory never
-- runs out: the bytes as themselves or as two hexadecimal digits, line ends kept as CRLF, soft line
-- ends dropped, and, in a header field only, "_" a blank. The length that is returned is that of
-- the output.
pub quoted_printable_body_parse-print :
    (b : MmapBuffer) (h : Bool) (is : List Item)
    → IsGrowing b
    → AreItems h is
    → quoted_printable_body_parse b h (print is [])
      ≡ ok (record { result = meanings is; result_len = length (meanings is) }) []
unfolding emit
quoted_printable_body_parse-print b h is law v =
    quoted_printable_body_parse-decode b law h (print is [])
    ∙ rw (decode-print h is [] v) (unfold decode in rw (append-nil (meanings is)))

-- A quoted-printable text, that is bytes as themselves or as two hexadecimal digits, line ends, soft
-- line ends and blanks, with "=" and one last byte behind it makes the decoder read behind the
-- message, if the byte is no "=", no carriage return, no line feed and, in a header field, no "_", and
-- if memory never runs out.
pub quoted_printable_body_parse-fault :
    (b : MmapBuffer) (h : Bool) (is : List Item) (c : ℕ)
    → IsGrowing b
    → AreItems h is
    → IsPlain c
    → (c == b'_' && h) ≡ false
    → quoted_printable_body_parse b h (print is (b'=' ∷ c ∷ [])) ≡ fault
unfolding emit decode_escape
quoted_printable_body_parse-fault b h is c law v (e1, e2, e3) ordinary =
    quoted_printable_body_parse-decode b law h (print is (b'=' ∷ c ∷ []))
    ∙ rw (decode-print h is (b'=' ∷ c ∷ []) v, decode-last_escape h c, e2, e3, e1, ordinary)
