-- ===== src/Tests/Body.antt =====
-- Bodies on concrete inputs.
use smtp_nel_filter.Prelude.{
  ◌≡◌, ◌<◌, refl, arith, true, false, Option, some, List, [], ◌∷◌, ◌++◌, Bytes, codes, All-all,
}
use smtp_nel_filter.Outcome.{ok, fault}
use smtp_nel_filter.Platform.{Platform, lp64}
use smtp_nel_filter.Body.Base64.{
  get_base64_value, cleared, out_0, out_1, out_2, decode_byte, decode_rest, decode_loop, buf_size,
  mime_base64_body_parse,
}
use smtp_nel_filter.Body.Base64.Letters.{letters}
use smtp_nel_filter.Body.Base64.RoundTrip.{is_byte, encode, base64_char, base64_body_parse-encode}
use smtp_nel_filter.Content.{mechanism_quoted_printable}
use smtp_nel_filter.Body.QuotedPrintable.{
  MmapBuffer, hexa_to_char, to_char, flush, write_crlf, write_char, qp_soft_cr, qp_hexa, qp_escape,
  qp_coded, qp_spill, qp_normal, qp_cr, qp_round, qp_loop, qp_finish, quoted_printable_body_parse,
}
use smtp_nel_filter.Body.QuotedPrintable.Reference.{decode, decode_last, plain_char, emit}
use smtp_nel_filter.Body.QuotedPrintable.Rounds.{IsGrowing}
use smtp_nel_filter.Body.QuotedPrintable.Equivalence.{quoted_printable_body_parse-decode}
use smtp_nel_filter.Body.QuotedPrintable.RoundTrip.{
  Item, literal, coded, soft_end, line_end, blank, print, meanings,
  quoted_printable_body_parse-print, quoted_printable_body_parse-fault,
}
use smtp_nel_filter.Body.Parts.{
  TextStream, mime_body_parse, as_quoted_printable, mime_body_parse-Carries,
}
use smtp_nel_filter.Body.Base64.Size.{base64_body_parse-lt-buf_size}

-- "Man" and "M", the first with a line end inside.
abbrev dirty : Bytes
dirty = codes "TW" ++ 13 ∷ 10 ∷ codes "Fu" ++ codes "TQ=="

dirty_letters : letters dirty ≡ encode (codes "ManM")
unfolding get_base64_value base64_char
dirty_letters = refl

base64_body_parse-encode_example : mime_base64_body_parse lp64 cleared dirty ≡ ok (codes "ManM") []
base64_body_parse-encode_example =
    base64_body_parse-encode lp64 cleared (codes "ManM") dirty refl
      (All-all is_byte (codes "ManM") refl) dirty_letters

dirty_run : mime_base64_body_parse lp64 cleared dirty ≡ ok (codes "ManM") []
unfolding mime_base64_body_parse decode_loop decode_byte decode_rest get_base64_value out_0 out_1
    out_2
dirty_run = refl

base64_body_parse-lt-buf_size_example : 4 < buf_size dirty
base64_body_parse-lt-buf_size_example = base64_body_parse-lt-buf_size lp64 cleared dirty dirty_run

-- Strings that always grow.
abbrev growing : MmapBuffer
growing = record {
  sized_new = λ n. some [];
  new_len = λ s. some s;
  append_c = λ s c. some (s ++ c ∷ []);
  append_len = λ s t. some (s ++ t);
}

growing-IsGrowing : IsGrowing growing
growing-IsGrowing = record {
  sized_new-empty = λ n. refl;
  new_len-copy = λ s. refl;
  append_c-last = λ s c. refl;
  append_len-behind = λ s t. refl;
}

-- "é=" over two lines: its bytes in UTF-8, a soft line end, and an "=".
abbrev french : List Item
french = coded 195 ∷ coded 169 ∷ soft_end ∷ literal b'x' ∷ coded b'=' ∷ line_end ∷ []

french_text : print french [] ≡ codes "=C3=A9=" ++ 13 ∷ 10 ∷ codes "x=3D" ++ 13 ∷ 10 ∷ []
french_text = refl

french_run :
    quoted_printable_body_parse growing false (print french [])
    ≡ ok (record { result = 195 ∷ 169 ∷ b'x' ∷ b'=' ∷ 13 ∷ 10 ∷ []; result_len = 6 }) []
unfolding quoted_printable_body_parse qp_loop qp_round qp_normal qp_coded qp_cr qp_spill qp_escape
    qp_soft_cr qp_hexa qp_finish write_char write_crlf flush to_char hexa_to_char
french_run = refl

quoted_printable_body_parse-print_example :
    quoted_printable_body_parse growing true (print (blank ∷ coded b'_' ∷ []) [])
    ≡ ok (record { result = codes " _"; result_len = 2 }) []
quoted_printable_body_parse-print_example =
    quoted_printable_body_parse-print growing true (blank ∷ coded b'_' ∷ []) growing-IsGrowing
      (refl, (omega arith, tt))

quoted_printable_body_parse-decode_example :
    quoted_printable_body_parse growing false (codes "a=")
    ≡ ok (record { result = codes "a="; result_len = 2 }) []
unfolding decode decode_last plain_char emit
quoted_printable_body_parse-decode_example =
    quoted_printable_body_parse-decode growing growing-IsGrowing false (codes "a=")

quoted_printable_body_parse-fault_example :
    quoted_printable_body_parse growing false (codes "a=4") ≡ fault
quoted_printable_body_parse-fault_example =
    quoted_printable_body_parse-fault growing false (literal b'a' ∷ []) b'4' growing-IsGrowing
      (((refl, refl, refl), refl), tt) (refl, refl, refl) refl

-- A stream that keeps what it is given.
abbrev kept : TextStream (List (Option Bytes))
kept = record { nel_stream_put = λ ts piece. ts ++ piece ∷ [] }

mime_body_parse-Carries_example :
    mime_body_parse kept lp64 growing cleared (some (print french [])) mechanism_quoted_printable []
    ≡ ok (some (195 ∷ 169 ∷ b'x' ∷ b'=' ∷ 13 ∷ 10 ∷ []) ∷ []) []
mime_body_parse-Carries_example =
    mime_body_parse-Carries lp64 growing cleared kept [] (meanings french) (print french [])
      mechanism_quoted_printable growing-IsGrowing refl
      (as_quoted_printable french
        (omega arith, (omega arith, (tt, (((refl, refl, refl), refl), (omega arith, (tt, tt))))))
        refl)
      (λ e. cc e)

-- A platform that has no memory.
abbrev exhausted : Platform
exhausted = record { sizeof_ptr = 8; malloc = λ n. false }
