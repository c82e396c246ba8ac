-- ===== src/Outcome/Suffix.antt =====
-- What a successful parser leaves is a suffix of what it was given: `*index` never moves back and
-- never beyond `length`.
use mathlib.Core.Path.{subst}
use smtp_nel_filter.Prelude.{
  ℕ, Bytes, [], ◌∷◌, ◌++◌, ◌≡◌, refl, ap, length, ◌≤◌, ◌<◌, arith, Bool, true, false, if◌then◌else◌,
}
use smtp_nel_filter.Outcome.{
  Outcome, ok, error_parse, error_continue, error_memory, out_of_fuel, fault, Parser, bind, lenient,
  or_else,
}

pub data Suffix (r : Bytes) : Bytes → Type 0 where
  here : Suffix r r
  later : {c : ℕ} {s : Bytes} → Suffix r s → Suffix r (c ∷ s)

pub Suffix-trans : {a b c : Bytes} → Suffix a b → Suffix b c → Suffix a c
Suffix-trans p here = p
Suffix-trans p (later q) = later (Suffix-trans p q)

pub length-Suffix : {a b : Bytes} → Suffix a b → length a ≤ length b
length-Suffix here = omega arith
length-Suffix (later q) = omega (arith, length-Suffix q)

-- The bytes that were consumed.
pub Suffix-split : {a b : Bytes} → Suffix a b → (used : Bytes) × (b ≡ used ++ a)
Suffix-split here = ([], refl)
Suffix-split (later {c} q) = let (used, e) = Suffix-split q in (c ∷ used, ap (◌∷◌ c) e)

-- The outcome is no fault and, if it is a success, leaves a suffix of `s`.
pub data Leaves {ℓ} {A : Type ℓ} (s : Bytes) : Outcome A → Type ℓ where
  leaves : {a : A} {r : Bytes} → Suffix r s → Leaves s (ok a r)
  leaves_parse : Leaves s error_parse
  leaves_continue : Leaves s error_continue
  leaves_memory : Leaves s error_memory
  leaves_fuel : Leaves s out_of_fuel

abbrev pub Advances {ℓ} : {A : Type ℓ} → Parser A → Type ℓ
Advances p = (s : Bytes) → Leaves s (p s)

module _ {ℓ} {A : Type ℓ} where
  pub Leaves-ok :
      {s : Bytes} {o : Outcome A} {a : A} {r : Bytes} → Leaves s o → o ≡ ok a r → Suffix r s
  Leaves-ok {s} (leaves p) e = subst (λ x. Suffix x s) (cc) p
  Leaves-ok leaves_parse e = cc
  Leaves-ok leaves_continue e = cc
  Leaves-ok leaves_memory e = cc
  Leaves-ok leaves_fuel e = cc

  pub Leaves-if :
      (b : Bool) {s : Bytes} {o p : Outcome A}
      → Leaves s o
      → Leaves s p
      → Leaves s (if b then o else p)
  Leaves-if true x y = x
  Leaves-if false x y = y

  pub Leaves-weaken : {r s : Bytes} {o : Outcome A} → Suffix r s → Leaves r o → Leaves s o
  Leaves-weaken q (leaves p) = leaves (Suffix-trans p q)
  Leaves-weaken q leaves_parse = leaves_parse
  Leaves-weaken q leaves_continue = leaves_continue
  Leaves-weaken q leaves_memory = leaves_memory
  Leaves-weaken q leaves_fuel = leaves_fuel

  pub Leaves-lenient :
      {s : Bytes} {o : Outcome A} {r : Bytes} → Leaves s o → Suffix r s → Leaves s (lenient o r)
  Leaves-lenient (leaves p) q = leaves p
  Leaves-lenient leaves_parse q = leaves q
  Leaves-lenient leaves_continue q = leaves_continue
  Leaves-lenient leaves_memory q = leaves_memory
  Leaves-lenient leaves_fuel q = leaves_fuel

  pub Leaves-or_else :
      {s : Bytes} {o p : Outcome A} → Leaves s o → Leaves s p → Leaves s (or_else o p)
  Leaves-or_else (leaves x) y = leaves x
  Leaves-or_else leaves_parse y = y
  Leaves-or_else leaves_continue y = leaves_continue
  Leaves-or_else leaves_memory y = leaves_memory
  Leaves-or_else leaves_fuel y = leaves_fuel

module _ {ℓ κ} {A : Type ℓ} {B : Type κ} where
  pub Leaves-bind_within :
      {s : Bytes} {o : Outcome A} {f : A → Parser B}
      → Leaves s o
      → ((a : A) (r : Bytes) → Suffix r s → Leaves s (f a r))
      → Leaves s (bind o f)
  Leaves-bind_within (leaves {a} {r} p) k = k a r p
  Leaves-bind_within leaves_parse k = leaves_parse
  Leaves-bind_within leaves_continue k = leaves_continue
  Leaves-bind_within leaves_memory k = leaves_memory
  Leaves-bind_within leaves_fuel k = leaves_fuel

  -- What follows a success starts at the suffix that it leaves.
  pub Leaves-bind :
      {s : Bytes} {o : Outcome A} {f : A → Parser B}
      → Leaves s o
      → ((a : A) → Advances (f a))
      → Leaves s (bind o f)
  Leaves-bind l k = Leaves-bind_within l (λ a r p. Leaves-weaken p (k a r))

-- The same of an outcome that, if it is a success, has read one byte at least.
pub data Reads {ℓ} {A : Type ℓ} : Bytes → Outcome A → Type ℓ where
  reads : {c : ℕ} {s r : Bytes} {a : A} → Suffix r s → Reads (c ∷ s) (ok a r)
  reads_parse : {s : Bytes} → Reads s error_parse
  reads_continue : {s : Bytes} → Reads s error_continue
  reads_memory : {s : Bytes} → Reads s error_memory
  reads_fuel : {s : Bytes} → Reads s out_of_fuel

module _ {ℓ} {A : Type ℓ} where
  pub Reads-if :
      (b : Bool) {s : Bytes} {o p : Outcome A}
      → Reads s o
      → Reads s p
      → Reads s (if b then o else p)
  Reads-if true x y = x
  Reads-if false x y = y

  -- Behind a byte that was read.
  pub Reads-behind : (c : ℕ) {s : Bytes} {o : Outcome A} → Leaves s o → Reads (c ∷ s) o
  Reads-behind c (leaves p) = reads p
  Reads-behind c leaves_parse = reads_parse
  Reads-behind c leaves_continue = reads_continue
  Reads-behind c leaves_memory = reads_memory
  Reads-behind c leaves_fuel = reads_fuel

  longer : {c : ℕ} {a : A} {r s t : Bytes} → Suffix (c ∷ r) s → Suffix t r → Reads s (ok a t)
  longer here p = reads p
  longer (later q) p = reads (Suffix-trans (later p) q)

  pub Reads-weaken : {r s : Bytes} {o : Outcome A} → Suffix r s → Reads r o → Reads s o
  Reads-weaken q (reads p) = longer q p
  Reads-weaken q reads_parse = reads_parse
  Reads-weaken q reads_continue = reads_continue
  Reads-weaken q reads_memory = reads_memory
  Reads-weaken q reads_fuel = reads_fuel

  -- What an outcome says of the cursor: it stays inside the buffer, and a success moves it.
  abbrev pub IsWithin : Bytes → Outcome A → Type 0
  IsWithin s (ok a rest) = (used : Bytes) × (s ≡ used ++ rest) × (0 < length used)
  IsWithin s error_parse = Unit
  IsWithin s error_continue = Unit
  IsWithin s error_memory = Unit
  IsWithin s out_of_fuel = Unit
  IsWithin s fault = ⊥

  pub Reads-IsWithin : {s : Bytes} {o : Outcome A} → Reads s o → IsWithin s o
  Reads-IsWithin (reads {c} p) =
      let (used, e) = Suffix-split p in (c ∷ used, ap (◌∷◌ c) e, omega arith)
  Reads-IsWithin reads_parse = tt
  Reads-IsWithin reads_continue = tt
  Reads-IsWithin reads_memory = tt
  Reads-IsWithin reads_fuel = tt

module _ {ℓ κ} {A : Type ℓ} {B : Type κ} where
  -- The first part reads a byte.
  pub Reads-bind :
      {s : Bytes} {o : Outcome A} {f : A → Parser B}
      → Reads s o
      → ((a : A) → Advances (f a))
      → Reads s (bind o f)
  Reads-bind (reads {c} {s} {r} {a} p) k = Reads-behind c (Leaves-weaken p (k a r))
  Reads-bind reads_parse k = reads_parse
  Reads-bind reads_continue k = reads_continue
  Reads-bind reads_memory k = reads_memory
  Reads-bind reads_fuel k = reads_fuel

  -- What follows reads a byte.
  pub Reads-then :
      {s : Bytes} {o : Outcome A} {f : A → Parser B}
      → Leaves s o
      → ((a : A) (r : Bytes) → Reads r (f a r))
      → Reads s (bind o f)
  Reads-then (leaves {a} {r} p) k = Reads-weaken p (k a r)
  Reads-then leaves_parse k = reads_parse
  Reads-then leaves_continue k = reads_continue
  Reads-then leaves_memory k = reads_memory
  Reads-then leaves_fuel k = reads_fuel
