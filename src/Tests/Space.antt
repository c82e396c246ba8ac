-- ===== src/Tests/Space.antt =====
-- Numbers, comments and CFWS at concrete inputs.
use smtp_nel_filter.Prelude.{◌≡◌, refl, codes, [], arith}
use smtp_nel_filter.Outcome.{ok, out_of_fuel}
use smtp_nel_filter.Mime.Chars.{is_wsp, is_ctext}
use smtp_nel_filter.Mime.Scan.{wsp_loop, char_parse, crlf_parse, quoted_pair_parse}
use smtp_nel_filter.Mime.Space.{
  fws_end, fws_crlf, fws_parse, ccontent_pair, ccontent_result, ccontent_parse,
  comment_fws_ccontent_parse, repeat, repeat_next, comment_parse,
}
use smtp_nel_filter.Mime.Space.Comments.{
  Content, done, text, pair, blank, nested, IsContent, comment-print, print,
}
use smtp_nel_filter.Mime.Space.Stuck.{comment-stuck}

-- (a (b\)) c)
abbrev remark : Content
remark = text b'a' (blank b' ' (nested (text b'b' (pair b')' done)) (blank b' ' (text b'c' done))))

remark-IsContent : IsContent remark
remark-IsContent = unfold is_ctext is_wsp in (refl, (refl, ((refl, tt), (refl, (refl, tt)))))

remark_printed : print remark (codes ")") ≡ codes "a (b\\)) c)"
remark_printed = refl

comment-print_example : comment_parse 9 (codes "(a (b\\)) c),") ≡ ok tt (codes ",")
comment-print_example = comment-print remark 9 b',' [] remark-IsContent (omega arith)

comment-stuck_example : comment_parse 1000 (codes "(a (b\\)) c)") ≡ out_of_fuel
comment-stuck_example = comment-stuck remark 1000 remark-IsContent

-- A comment as the loop runs it.
comment_run : comment_parse 5 (codes "(ab) ") ≡ ok tt (codes " ")
unfolding comment_parse comment_fws_ccontent_parse ccontent_parse ccontent_pair ccontent_result
    quoted_pair_parse is_ctext fws_parse fws_crlf fws_end wsp_loop crlf_parse char_parse repeat
    repeat_next
comment_run = refl
