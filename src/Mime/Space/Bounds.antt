-- ===== src/Mime/Space/Bounds.antt =====
-- Folding white space and comments stay inside the buffer, whatever the fuel.
use smtp_nel_filter.Prelude.{ℕ, zero, suc, Bool, true, false, [], ◌∷◌, Bytes}
use smtp_nel_filter.Outcome.{Outcome, Parser}
use smtp_nel_filter.Outcome.Suffix.{
  Suffix, here, later, Leaves, leaves, leaves_parse, leaves_continue, leaves_memory, leaves_fuel,
  Advances, Leaves-if, Leaves-bind, Leaves-bind_within, Leaves-lenient, Leaves-weaken,
}
use smtp_nel_filter.Mime.Scan.Bounds.{
  wsp_loop-Advances, char-Advances, crlf-Advances, quoted_pair-Advances,
}
use smtp_nel_filter.Mime.Space.{
  fws_end, fws_crlf, fws_parse, ccontent_result, ccontent_pair, ccontent_parse,
  comment_fws_ccontent_parse, repeat, repeat_next, comment_parse, cfws_fws_comment_parse,
  cfws_parse, unstrict_char_parse,
}

fws_end-Leaves : (a b : Bool) {f r s : Bytes} → Suffix f s → Suffix r s → Leaves s (fws_end a b f r)
unfolding fws_end
fws_end-Leaves true true p q = leaves q
fws_end-Leaves true false p q = leaves p
fws_end-Leaves false true p q = leaves q
fws_end-Leaves false false p q = leaves_parse

-- `final_token` is where the CRLF was tried.
fws_crlf-Leaves :
    (a : Bool) {f : Bytes} {o : Outcome (Unit {0})} → Leaves f o → Leaves f (fws_crlf a f o)
unfolding fws_crlf
fws_crlf-Leaves a (leaves {r} p) =
    Leaves-bind_within (Leaves-weaken p (wsp_loop-Advances false r))
      (λ b t q. fws_end-Leaves a b here q)
fws_crlf-Leaves a leaves_parse = fws_end-Leaves a false here here
fws_crlf-Leaves a leaves_continue = leaves_continue
fws_crlf-Leaves a leaves_memory = leaves_memory
fws_crlf-Leaves a leaves_fuel = leaves_fuel

pub fws-Advances : Advances fws_parse
unfolding fws_parse
fws-Advances s =
    Leaves-bind (wsp_loop-Advances false s) (λ a r. fws_crlf-Leaves a (crlf-Advances r))

ccontent_result-Leaves :
    {s : Bytes} {o : Outcome (Unit {0})} → Leaves s o → Leaves s (ccontent_result s o)
unfolding ccontent_result
ccontent_result-Leaves (leaves p) = leaves p
ccontent_result-Leaves leaves_parse = leaves_parse
ccontent_result-Leaves leaves_continue = leaves here
ccontent_result-Leaves leaves_memory = leaves here
ccontent_result-Leaves leaves_fuel = leaves_fuel

ccontent_pair-Leaves :
    (comment : Parser (Unit {0})) {s : Bytes} {o : Outcome ℕ}
    → Advances comment
    → Leaves s o
    → Leaves s (ccontent_pair comment s o)
unfolding ccontent_pair
ccontent_pair-Leaves comment {s} k (leaves p) = leaves p
ccontent_pair-Leaves comment {s} k leaves_parse = ccontent_result-Leaves (k s)
ccontent_pair-Leaves comment {s} k leaves_continue = leaves here
ccontent_pair-Leaves comment {s} k leaves_memory = leaves here
ccontent_pair-Leaves comment {s} k leaves_fuel = leaves_fuel

ccontent-Advances :
    (comment : Parser (Unit {0})) → Advances comment → Advances (ccontent_parse comment)
unfolding ccontent_parse
ccontent-Advances comment k [] = leaves_continue
ccontent-Advances comment k (c ∷ s) =
    Leaves-if _ (leaves (later here))
      (ccontent_pair-Leaves comment k (quoted_pair-Advances (c ∷ s)))

comment_fws_ccontent-Advances :
    (comment : Parser (Unit {0})) → Advances comment → Advances (comment_fws_ccontent_parse comment)
unfolding comment_fws_ccontent_parse
comment_fws_ccontent-Advances comment k s =
    Leaves-bind (Leaves-lenient (fws-Advances s) here) (λ _. ccontent-Advances comment k)

repeat_next-Leaves :
    (go_on : Parser Bool) (seen : Bool) {s : Bytes} {o : Outcome (Unit {0})}
    → Advances go_on
    → Leaves s o
    → Leaves s (repeat_next go_on seen s o)
unfolding repeat_next
repeat_next-Leaves go_on seen k (leaves {r} q) = Leaves-weaken q (k r)
repeat_next-Leaves go_on seen k leaves_parse = leaves here
repeat_next-Leaves go_on seen k leaves_continue = leaves_continue
repeat_next-Leaves go_on seen k leaves_memory = leaves_memory
repeat_next-Leaves go_on seen k leaves_fuel = leaves_fuel

pub repeat-Advances :
    (fuel : ℕ) (p : Parser (Unit {0})) (seen : Bool) → Advances p → Advances (repeat fuel p seen)
unfolding repeat
repeat-Advances zero p seen k s = leaves_fuel
repeat-Advances (suc fuel) p seen k s =
    repeat_next-Leaves _ seen (repeat-Advances fuel p true k) (k s)

pub comment-Advances : (fuel : ℕ) → Advances (comment_parse fuel)
unfolding comment_parse
comment-Advances zero s = leaves_fuel
comment-Advances (suc fuel) s = Leaves-bind (char-Advances b'(' s) (λ _ r.
    Leaves-bind
      (repeat-Advances fuel _ false (comment_fws_ccontent-Advances _ (comment-Advances fuel)) r)
      (λ _ t. Leaves-bind (Leaves-lenient (fws-Advances t) here) (λ _. char-Advances b')')))

-- Not even a comment that never ends moves the cursor out of the buffer.
pub cfws-Advances : (fuel : ℕ) → Advances (cfws_parse fuel)
unfolding cfws_parse cfws_fws_comment_parse
cfws-Advances fuel s =
    Leaves-bind
      (repeat-Advances fuel _ false
        (λ r. Leaves-bind (Leaves-lenient (fws-Advances r) here) (λ _. comment-Advances fuel)) s)
      (λ seen r. Leaves-if seen (leaves here) (fws-Advances r))

pub unstrict_char-Advances : (fuel token : ℕ) → Advances (unstrict_char_parse fuel token)
unfolding unstrict_char_parse
unstrict_char-Advances fuel token s =
    Leaves-bind (Leaves-lenient (cfws-Advances fuel s) here) (λ _. char-Advances token)
