-- ===== src/Tests/Text.antt =====
-- Unstructured text and lines on concrete inputs.
use smtp_nel_filter.Prelude.{Bytes, ◌++◌, ◌⊎◌, false, All-all, ◌≡◌, refl, codes, [], ◌∷◌}
use smtp_nel_filter.Outcome.{ok, error_continue}
use smtp_nel_filter.Platform.{lp64}
use smtp_nel_filter.Mime.Chars.{is_wsp}
use smtp_nel_filter.Mime.Words.{c_string}
use smtp_nel_filter.Mime.Lines.{has_crlf, str_crlf_parse, str_crlf_parse-splits}
use smtp_nel_filter.Mime.Unstructured.{unstructured_parse}
use smtp_nel_filter.Mime.Unstructured.Folding.{is_inline, unstructured_parse-fold}

unstructured_parse-fold_example :
    unstructured_parse lp64 (codes "Re: a\r\n\tfolded one\r\nTo:")
    ≡ ok (codes "Re: a\r\n\tfolded one") (codes "\r\nTo:")
unfolding is_wsp c_string
unstructured_parse-fold_example =
    unstructured_parse-fold lp64 (codes "Re: a")
      (record { blank = b'\t'; first = b'f'; more = codes "olded one" } ∷ []) (codes "To:") refl
      refl (All-all is_inline (codes "Re: a") refl)
      ((refl, refl, All-all is_inline (codes "olded one") refl), tt) refl

str_crlf_parse-splits_example :
    ((line rest : Bytes) × (codes "a\rb\r\nc" ≡ line ++ 13 ∷ 10 ∷ rest)
      × (has_crlf line ≡ false)
      × (str_crlf_parse (codes "a\rb\r\nc") ≡ ok tt rest))
    ⊎ ((has_crlf (codes "a\rb\r\nc") ≡ false)
        × (str_crlf_parse (codes "a\rb\r\nc") ≡ error_continue))
str_crlf_parse-splits_example = str_crlf_parse-splits (codes "a\rb\r\nc")
