-- ===== src/Outcome/Fuel.antt =====
-- More fuel changes no answer: `Approx o o'` says that `o` ran out of fuel, or is `o'`.
use mathlib.Core.Path.{subst}
use smtp_nel_filter.Prelude.{Bytes, ◌≡◌, ◌≢◌, refl, Bool, true, false, if◌then◌else◌}
use smtp_nel_filter.Outcome.{
  Outcome, ok, error_parse, error_continue, error_memory, out_of_fuel, fault, Parser, bind, lenient,
  or_else,
}

pub data Approx {ℓ} {A : Type ℓ} (o' : Outcome A) : Outcome A → Type ℓ where
  ran_out : Approx o' out_of_fuel
  same : Approx o' o'

abbrev pub Approximates {ℓ} : {A : Type ℓ} → Parser A → Parser A → Type ℓ
Approximates p p' = (s : Bytes) → Approx (p' s) (p s)

module _ {ℓ} {A : Type ℓ} where
  pub Approx-eq : {o o' : Outcome A} → Approx o' o → o ≢ out_of_fuel → o ≡ o'
  Approx-eq ran_out h = absurd (h refl)
  Approx-eq same h = refl

  pub Approx-trans : {a b c : Outcome A} → Approx b a → Approx c b → Approx c a
  Approx-trans ran_out q = ran_out
  Approx-trans same q = q

  pub Approx-of_eq : {o o' : Outcome A} → o ≡ o' → Approx o' o
  Approx-of_eq {o} e = subst (λ x. Approx x o) e same

  pub Approx-if :
      (b : Bool) {x x' y y' : Outcome A}
      → Approx x' x
      → Approx y' y
      → Approx (if b then x' else y') (if b then x else y)
  Approx-if true p q = p
  Approx-if false p q = q

  pub Approx-lenient :
      {o o' : Outcome A} (here : Bytes) → Approx o' o → Approx (lenient o' here) (lenient o here)
  Approx-lenient here ran_out = ran_out
  Approx-lenient here same = same

  pub Approx-or_else :
      {o o' p p' : Outcome A} → Approx o' o → Approx p' p → Approx (or_else o' p') (or_else o p)
  Approx-or_else ran_out q = ran_out
  Approx-or_else {o = ok a r} same q = same
  Approx-or_else {o = error_parse} same q = q
  Approx-or_else {o = error_continue} same q = same
  Approx-or_else {o = error_memory} same q = same
  Approx-or_else {o = out_of_fuel} same q = ran_out
  Approx-or_else {o = fault} same q = same

module _ {ℓ κ} {A : Type ℓ} {B : Type κ} where
  pub Approx-bind :
      {o o' : Outcome A} {f f' : A → Parser B}
      → Approx o' o
      → ((a : A) → Approximates (f a) (f' a))
      → Approx (bind o' f') (bind o f)
  Approx-bind ran_out k = ran_out
  Approx-bind {o = ok a r} same k = k a r
  Approx-bind {o = error_parse} same k = same
  Approx-bind {o = error_continue} same k = same
  Approx-bind {o = error_memory} same k = same
  Approx-bind {o = out_of_fuel} same k = ran_out
  Approx-bind {o = fault} same k = same
