-- ===== src/Mime/Space/Fuel.antt =====
-- The fuel of comments and CFWS only bounds the work: once it suffices, more of it gives the same
-- answer.
use smtp_nel_filter.Prelude.{ℕ, zero, suc, ◌+◌, Bool, Bytes, [], ◌∷◌, ◌≡◌, ◌≢◌, arith, true, false}
use smtp_nel_filter.Outcome.{
  Outcome, ok, error_parse, error_continue, error_memory, out_of_fuel, fault, Parser,
}
use smtp_nel_filter.Outcome.Fuel.{
  Approx, ran_out, same, Approximates, Approx-eq, Approx-trans, Approx-if, Approx-bind,
}
use smtp_nel_filter.Mime.Chars.{is_ctext}
use smtp_nel_filter.Mime.Scan.{quoted_pair_parse}
use smtp_nel_filter.Mime.Space.{
  ccontent_result, ccontent_pair, ccontent_parse, comment_fws_ccontent_parse, repeat, repeat_next,
  comment_parse, cfws_fws_comment_parse, cfws_parse,
}

ccontent_result-Approx :
    (here : Bytes) {o o' : Outcome (Unit {0})}
    → Approx o' o
    → Approx (ccontent_result here o') (ccontent_result here o)
unfolding ccontent_result
ccontent_result-Approx here ran_out = ran_out
ccontent_result-Approx here same = same

module _ {p p' : Parser (Unit {0})} (h : Approximates p p') where
  ccontent_pair-Approx :
      (here : Bytes) (o : Outcome ℕ) → Approx (ccontent_pair p' here o) (ccontent_pair p here o)
  unfolding ccontent_pair
  ccontent_pair-Approx here (ok a r) = same
  ccontent_pair-Approx here error_parse = ccontent_result-Approx here (h here)
  ccontent_pair-Approx here error_continue = same
  ccontent_pair-Approx here error_memory = same
  ccontent_pair-Approx here out_of_fuel = same
  ccontent_pair-Approx here fault = same

  ccontent-Approx : Approximates (ccontent_parse p) (ccontent_parse p')
  unfolding ccontent_parse
  ccontent-Approx [] = same
  ccontent-Approx (c ∷ t) =
      Approx-if (is_ctext c) {x = ok tt t} same
        (ccontent_pair-Approx (c ∷ t) (quoted_pair_parse (c ∷ t)))

  round-Approx : Approximates (comment_fws_ccontent_parse p) (comment_fws_ccontent_parse p')
  unfolding comment_fws_ccontent_parse
  round-Approx s = Approx-bind same (λ _. ccontent-Approx)

repeat_next-Approx :
    {go_on go_on' : Parser Bool} (seen : Bool) (here : Bytes) {o o' : Outcome (Unit {0})}
    → Approximates go_on go_on'
    → Approx o' o
    → Approx (repeat_next go_on' seen here o') (repeat_next go_on seen here o)
unfolding repeat_next
repeat_next-Approx seen here k ran_out = ran_out
repeat_next-Approx seen here {o = ok a r} k same = k r
repeat_next-Approx seen here {o = error_parse} k same = same
repeat_next-Approx seen here {o = error_continue} k same = same
repeat_next-Approx seen here {o = error_memory} k same = same
repeat_next-Approx seen here {o = out_of_fuel} k same = same
repeat_next-Approx seen here {o = fault} k same = same

repeat-Approx :
    {p p' : Parser (Unit {0})}
    → Approximates p p'
    → (fuel : ℕ) (seen : Bool) → Approximates (repeat fuel p seen) (repeat (suc fuel) p' seen)
unfolding repeat
repeat-Approx h zero seen s = ran_out
repeat-Approx h (suc fuel) seen s = repeat_next-Approx seen s (repeat-Approx h fuel true) (h s)

comment-Approx : (fuel : ℕ) → Approximates (comment_parse fuel) (comment_parse (suc fuel))
unfolding comment_parse
comment-Approx zero s = ran_out
comment-Approx (suc fuel) s = Approx-bind same (λ _ r.
    Approx-bind (repeat-Approx (round-Approx (comment-Approx fuel)) fuel false r) (λ _ t. same))

cfws-Approx : (fuel : ℕ) → Approximates (cfws_parse fuel) (cfws_parse (suc fuel))
unfolding cfws_parse cfws_fws_comment_parse
cfws-Approx fuel s =
    Approx-bind (repeat-Approx (λ r. Approx-bind same (λ _. comment-Approx fuel)) fuel false s)
      (λ seen r. same)

-- From one unit more to any number of units.
steps :
    {p : ℕ → Parser (Unit {0})}
    → ((f : ℕ) → Approximates (p f) (p (suc f)))
    → (more fuel : ℕ) → Approximates (p fuel) (p (more + fuel))
steps {p} h zero fuel s = let e : 0 + fuel ≡ fuel = omega arith in rw e same
steps {p} h (suc more) fuel s =
    let e : suc more + fuel ≡ suc (more + fuel) = omega arith in
    rw e (Approx-trans (steps h more fuel s) (h (more + fuel) s))

pub comment-Approx_add :
    (more fuel : ℕ) → Approximates (comment_parse fuel) (comment_parse (more + fuel))
comment-Approx_add = steps comment-Approx

-- An answer of smtp_comment_parse is its answer for every larger fuel.
pub comment-more_fuel :
    (more fuel : ℕ) (s : Bytes)
    → comment_parse fuel s ≢ out_of_fuel
    → comment_parse fuel s ≡ comment_parse (more + fuel) s
comment-more_fuel more fuel s = Approx-eq (comment-Approx_add more fuel s)

-- An answer of smtp_cfws_parse is its answer for every larger fuel.
pub cfws-more_fuel :
    (more fuel : ℕ) (s : Bytes)
    → cfws_parse fuel s ≢ out_of_fuel
    → cfws_parse fuel s ≡ cfws_parse (more + fuel) s
cfws-more_fuel more fuel s = Approx-eq (steps cfws-Approx more fuel s)
