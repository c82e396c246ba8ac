-- ===== src/Outcome/Inversion.antt =====
-- A chain of parsers that succeeds: its first part succeeded, and so did the rest.
use smtp_nel_filter.Prelude.{Bytes, ◌≡◌, refl}
use smtp_nel_filter.Outcome.{
  Outcome, ok, error_parse, error_continue, error_memory, out_of_fuel, fault, Parser, bind,
}

module _ {ℓ κ} {A : Type ℓ} {B : Type κ} where
  pub bind-eq-ok :
      (o : Outcome A) (f : A → Parser B) {b : B} {rest : Bytes}
      → bind o f ≡ ok b rest
      → (a : A) × (r : Bytes) × (o ≡ ok a r) × (f a r ≡ ok b rest)
  bind-eq-ok (ok a r) f e = (a, r, refl, e)
  bind-eq-ok error_parse f e = cc
  bind-eq-ok error_continue f e = cc
  bind-eq-ok error_memory f e = cc
  bind-eq-ok out_of_fuel f e = cc
  bind-eq-ok fault f e = cc
