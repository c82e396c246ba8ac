-- ===== src/DateTime/Field.antt =====
-- The Date field: smtp_orig_date_parse of src/_time.c, which skips what stands behind the date.
use smtp_nel_filter.Prelude.{
  ℕ, suc, true, false, List, [], ◌∷◌, ◌++◌, Bytes, ◌≡◌, refl, All, if◌then◌else◌,
}
use smtp_nel_filter.Outcome.{ok, error_memory, Parser, ◌>>=◌, ◌>>◌}
use smtp_nel_filter.Platform.{Platform}
use smtp_nel_filter.Mime.Chars.{is_digit}
use smtp_nel_filter.Mime.Scan.{wsp_loop, char_parse, crlf_parse}
use smtp_nel_filter.Mime.Space.{
  fws_end, fws_crlf, fws_parse, comment_parse, repeat, repeat_next, cfws_fws_comment_parse,
  cfws_parse, crlf_after, unstrict_crlf_parse,
}
use smtp_nel_filter.Mime.Space.Plain.{cfws-line_end}
use smtp_nel_filter.Mime.Unstructured.{ignore_unstructured_parse}
use smtp_nel_filter.Mime.Unstructured.Folding.{
  is_inline, Line, AllLines, fold, Unfolded, ignore_unstructured-fold,
}
use smtp_nel_filter.DateTime.{DateTime, date_time_parse}
use smtp_nel_filter.DateTime.RoundTrip.{DateText, IsDateText, write, denotes, date_time_parse-write}

pub record OrigDate : Type 0 where
  pub dt_date_time : DateTime

unfoldable pub orig_date_new : Platform → DateTime → Parser OrigDate
orig_date_new platform dt_date_time s =
    if platform.malloc platform.sizeof_ptr
    then ok (record { dt_date_time = dt_date_time }) s
    else error_memory

unfoldable pub orig_date_parse : Platform → ℕ → Parser OrigDate
orig_date_parse platform fuel = do
  date_time ← date_time_parse platform fuel
  ignore_unstructured_parse
  unstrict_crlf_parse fuel
  orig_date_new platform date_time

crlf-at_end : (fuel : ℕ) → unstrict_crlf_parse (suc fuel) (b'\r' ∷ b'\n' ∷ []) ≡ ok tt []
unfolding unstrict_crlf_parse crlf_after cfws_parse cfws_fws_comment_parse repeat repeat_next
    comment_parse fws_parse fws_crlf fws_end wsp_loop char_parse crlf_parse
crlf-at_end fuel = refl

-- A line end that no white space follows.
pub unstrict_crlf-end :
    (fuel : ℕ) (rest : Bytes)
    → Unfolded rest
    → unstrict_crlf_parse (suc fuel) (b'\r' ∷ b'\n' ∷ rest) ≡ ok tt rest
unfolding unstrict_crlf_parse crlf_after crlf_parse
unstrict_crlf-end fuel [] h = crlf-at_end fuel
unstrict_crlf-end fuel (c ∷ rest) h = rw (cfws-line_end fuel c rest h)

-- No digit comes first.
abbrev pub NoDigit : Bytes → Type 0
NoDigit [] = Unit
NoDigit (c ∷ s) = is_digit c ≡ false

date-write :
    (platform : Platform) (fuel : ℕ) (t : DateText) (line : Bytes) (ls : List Line) (rest : Bytes)
    → platform.sizeof_ptr ≡ 4
    → platform.malloc 28 ≡ true
    → IsDateText t
    → NoDigit line
    → date_time_parse platform (suc fuel) (write t (fold line ls ++ b'\r' ∷ b'\n' ∷ rest))
      ≡ ok (denotes t) (fold line ls ++ b'\r' ∷ b'\n' ∷ rest)
unfolding is_digit
date-write platform fuel t [] [] rest four memory h no_digit =
    date_time_parse-write platform fuel t _ _ four memory h refl
date-write platform fuel t [] (l ∷ ls) rest four memory h no_digit =
    date_time_parse-write platform fuel t _ _ four memory h refl
date-write platform fuel t (c ∷ line) [] rest four memory h no_digit =
    date_time_parse-write platform fuel t _ _ four memory h no_digit
date-write platform fuel t (c ∷ line) (l ∷ ls) rest four memory h no_digit =
    date_time_parse-write platform fuel t _ _ four memory h no_digit

-- Where pointers have four bytes and memory is granted, smtp_orig_date_parse reads every date that
-- is written out, skips what stands behind it, which starts with no digit and may be folded over
-- several lines, and stops behind the line end that no white space follows.
pub orig_date_parse-write :
    (platform : Platform) (fuel : ℕ) (t : DateText) (line : Bytes) (ls : List Line) (rest : Bytes)
    → platform.sizeof_ptr ≡ 4
    → platform.malloc 28 ≡ true
    → platform.malloc 4 ≡ true
    → IsDateText t
    → NoDigit line
    → All is_inline line
    → AllLines ls
    → Unfolded rest
    → orig_date_parse platform (suc fuel) (write t (fold line ls ++ b'\r' ∷ b'\n' ∷ rest))
      ≡ ok (record { dt_date_time = denotes t }) rest
unfolding orig_date_parse orig_date_new
orig_date_parse-write platform fuel t line ls rest four memory memory_4 h no_digit inline hs end =
    rw (
      date-write platform fuel t line ls rest four memory h no_digit,
      ignore_unstructured-fold line ls rest inline hs end,
      unstrict_crlf-end fuel rest end,
      four,
      memory_4,
    )
