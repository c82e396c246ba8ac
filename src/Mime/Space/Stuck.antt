-- ===== src/Mime/Space/Stuck.antt =====
-- A comment whose closing parenthesis is the last byte of the buffer is never left: the loop of
-- smtp_comment_parse takes the missing byte of a quoted pair for a success and does not advance.
use smtp_nel_filter.Prelude.{
  ℕ, zero, suc, ◌+◌, Bool, true, false, [], ◌∷◌, Bytes, ◌≡◌, ◌≢◌, ◌∙◌, refl, arith,
}
use smtp_nel_filter.Outcome.{Outcome, ok, out_of_fuel, bind, lenient}
use smtp_nel_filter.Outcome.Fuel.{Approx, ran_out, same}
use smtp_nel_filter.Mime.Chars.{is_ctext}
use smtp_nel_filter.Mime.Scan.{char_parse, quoted_pair_parse}
use smtp_nel_filter.Mime.Space.{
  ccontent_pair, ccontent_result, fws_parse, ccontent_parse, comment_fws_ccontent_parse, repeat,
  repeat_next, comment_parse, cfws_fws_comment_parse, cfws_parse,
}
use smtp_nel_filter.Mime.Space.Comments.{
  Content, done, text, pair, blank, nested, IsContent, print, size, round, close, fws-solid,
  round-text, round-pair, round-paren, comment-close, comment-print_rest, close-step, close-blank,
  print-ne-nil,
}
use smtp_nel_filter.Mime.Space.Fuel.{comment-Approx_add}

round-last : (fuel : ℕ) → round fuel (b')' ∷ []) ≡ ok tt (b')' ∷ [])
unfolding comment_fws_ccontent_parse ccontent_parse ccontent_pair quoted_pair_parse is_ctext
round-last fuel = rw (fws-solid b')' [] refl)

close-last : (rounds fuel : ℕ) (seen : Bool) → close rounds fuel seen (b')' ∷ []) ≡ out_of_fuel
unfolding repeat repeat_next
close-last zero fuel seen = refl
close-last (suc rounds) fuel seen = rw (round-last fuel) (close-last rounds fuel true)

-- An opening parenthesis before `s`: the loop goes on at `r`, or runs out of fuel at once.
close-nested :
    (rounds fuel : ℕ) (seen : Bool) (s r : Bytes)
    → Approx (ok tt r) (round fuel s)
    → close rounds fuel true r ≡ out_of_fuel
    → close (suc rounds) fuel seen s ≡ out_of_fuel
unfolding repeat
close-nested rounds fuel seen s r a e = go (round fuel s) a
  where
    go :
        (o : Outcome (Unit {0}))
        → Approx (ok tt r) o
        → bind
            (repeat_next (repeat rounds (round fuel) true) seen s o)
            (λ _ t. bind (lenient (fws_parse t) t) λ _. char_parse b')')
          ≡ out_of_fuel
    go _ ran_out = unfold repeat_next in refl
    go _ same = unfold repeat_next in e

-- A complete nested comment is read, or the fuel ends before.
comment-nested :
    (i : Content) (fuel : ℕ) (r : Bytes)
    → IsContent i
    → r ≢ []
    → Approx (ok tt r) (comment_parse fuel (b'(' ∷ print i (b')' ∷ r)))
comment-nested i fuel r h ne =
    let e : suc (suc (size i)) + fuel ≡ suc (suc (size i) + fuel) = omega arith in
    rw (e, comment-print_rest i (suc (size i) + fuel) r h ne (omega arith)) at
      (comment-Approx_add (suc (suc (size i))) fuel (b'(' ∷ print i (b')' ∷ r)))

round-nested_last :
    (i : Content) (fuel : ℕ) (r : Bytes)
    → IsContent i
    → r ≢ []
    → Approx (ok tt r) (round fuel (b'(' ∷ print i (b')' ∷ r)))
round-nested_last i fuel r h ne =
    rw (round-paren fuel b'(' _ (print-ne-nil i b')' r) refl) (go (comment-nested i fuel r h ne))
  where
    go :
        {o : Outcome (Unit {0})}
        → Approx (ok tt r) o
        → Approx (ok tt r) (ccontent_result (b'(' ∷ print i (b')' ∷ r)) o)
    go ran_out = unfold ccontent_result in ran_out
    go same = unfold ccontent_result in same

close-stuck :
    (k : Content) (rounds fuel : ℕ) (seen : Bool)
    → IsContent k
    → close rounds fuel seen (print k (b')' ∷ [])) ≡ out_of_fuel
close-stuck k zero fuel seen h = unfold repeat in refl
close-stuck done (suc n) fuel seen h = close-last (suc n) fuel seen
close-stuck (text c k) (suc n) fuel seen h =
    close-step n fuel seen _ _ (round-text fuel c _ h.0) ∙ close-stuck k n fuel true h.1
close-stuck (pair c k) (suc n) fuel seen h =
    close-step n fuel seen _ _ (round-pair fuel c _) ∙ close-stuck k n fuel true h
close-stuck (blank c k) (suc n) fuel seen h =
    close-blank (suc n) fuel seen c _ h.0 ∙ close-stuck k (suc n) fuel seen h.1
close-stuck (nested i k) (suc n) fuel seen h =
    close-nested n fuel seen _ _ (round-nested_last i fuel _ h.0 (print-ne-nil k b')' []))
      (close-stuck k n fuel true h.1)

-- Whatever the content, no amount of fuel ends the loop on a comment that ends the buffer.
pub comment-stuck :
    (k : Content) (fuel : ℕ)
    → IsContent k
    → comment_parse fuel (b'(' ∷ print k (b')' ∷ [])) ≡ out_of_fuel
comment-stuck k zero h = unfold comment_parse in refl
comment-stuck k (suc fuel) h = comment-close fuel _ ∙ close-stuck k fuel fuel false h

-- So smtp_cfws_parse, which every structured header field calls, is not left either.
pub cfws-stuck :
    (k : Content) (fuel : ℕ)
    → IsContent k
    → cfws_parse fuel (b'(' ∷ print k (b')' ∷ [])) ≡ out_of_fuel
unfolding cfws_parse cfws_fws_comment_parse repeat repeat_next
cfws-stuck k zero h = refl
cfws-stuck k (suc fuel) h =
    rw (fws-solid b'(' (print k (b')' ∷ [])) refl, comment-stuck k (suc fuel) h)
