-- ===== src/Mime/Unstructured.antt =====
-- Unstructured text of src/mime.c: what stands in a header field up to the line end that is not
-- followed by white space.
pub mod Folding
use smtp_nel_filter.Prelude.{
  ℕ, ◌+◌, Bool, true, false, ◌||◌, [], ◌∷◌, Bytes, ◌==◌, if◌then◌else◌, Option, none, some, take,
  drop,
}
use smtp_nel_filter.Outcome.{Outcome, ok, error_continue, Parser, bind}
use smtp_nel_filter.Platform.{Platform}
use smtp_nel_filter.Mime.Scan.{wsp_loop}
use smtp_nel_filter.Mime.Words.{new_string}

-- UNSTRUCTURED_START and so on.
pub data UnstructuredState : Type 0 where
  unstructured_start unstructured_cr unstructured_lf unstructured_wsp unstructured_out :
      UnstructuredState

-- The inner switch of the states START and WSP.
abbrev pub text_step : ℕ → UnstructuredState
text_step c =
    if c == b'\r'
    then unstructured_cr
    else if c == b'\n'
    then unstructured_lf
    else unstructured_start

-- One round with a byte at hand.
unfoldable pub unstructured_step : UnstructuredState → ℕ → UnstructuredState
unstructured_step unstructured_start c = text_step c
unstructured_step unstructured_cr c = if c == b'\n' then unstructured_lf else unstructured_start
unstructured_step unstructured_lf c =
    if c == b'\t' || c == b' ' then unstructured_wsp else unstructured_out
unstructured_step unstructured_wsp c = text_step c
unstructured_step unstructured_out c = unstructured_out

-- The loop ends in the state OUT, which LF also leads to at the end of the buffer; elsewhere the
-- end of the buffer is SMTP_ERROR_CONTINUE, `none`. The state
-- START sets `terminal`; both counts start where the text begins.
unfoldable pub unstructured_loop : UnstructuredState → ℕ → ℕ → Bytes → Option ℕ
unstructured_loop unstructured_out cur_token terminal s = some terminal
unstructured_loop unstructured_lf cur_token terminal [] = some terminal
unstructured_loop unstructured_start cur_token terminal [] = none
unstructured_loop unstructured_cr cur_token terminal [] = none
unstructured_loop unstructured_wsp cur_token terminal [] = none
unstructured_loop unstructured_start cur_token terminal (c ∷ s) =
    unstructured_loop (unstructured_step unstructured_start c) (cur_token + 1) cur_token s
unstructured_loop unstructured_cr cur_token terminal (c ∷ s) =
    unstructured_loop (unstructured_step unstructured_cr c) (cur_token + 1) terminal s
unstructured_loop unstructured_lf cur_token terminal (c ∷ s) =
    unstructured_loop (unstructured_step unstructured_lf c) (cur_token + 1) terminal s
unstructured_loop unstructured_wsp cur_token terminal (c ∷ s) =
    unstructured_loop (unstructured_step unstructured_wsp c) (cur_token + 1) terminal s

-- Behind the loop of smtp_unstructured_parse; the text starts at `begin`.
unfoldable pub unstructured_copy : Platform → Bytes → Option ℕ → Outcome Bytes
unstructured_copy platform begin none = error_continue
unstructured_copy platform begin (some terminal) =
    new_string platform terminal (take terminal begin) (drop terminal begin)

unfoldable pub unstructured_parse : Platform → Parser Bytes
unstructured_parse platform s =
    bind (wsp_loop false s)
      λ _ begin. unstructured_copy platform begin (unstructured_loop unstructured_start 0 0 begin)

unfoldable pub ignore_result : Bytes → Option ℕ → Outcome (Unit {0})
ignore_result s none = error_continue
ignore_result s (some terminal) = ok tt (drop terminal s)

unfoldable pub ignore_unstructured_parse : Parser (Unit {0})
ignore_unstructured_parse s = ignore_result s (unstructured_loop unstructured_start 0 0 s)
