-- ===== src/Outcome.antt =====
-- What a parser of the program returns (the codes of include/smtp.h), and the shapes in which
-- the code continues after a call: on success, on success or a mismatch, or on a mismatch only.
use smtp_nel_filter.Prelude.{Bytes}
pub mod Suffix
pub mod Inversion
pub mod Fuel

-- `ok a rest` is SMTP_NO_ERROR with `*result = a` and `*index` moved to where `rest` begins;
-- with any other code `*index` keeps its value. `out_of_fuel` is no code of the program: the
-- loop did not end within the fuel. Nor is `fault`: the code reads where it must not, or dereferences
-- a null pointer, and what it does then is undefined.
pub data Outcome {ℓ} (A : Type ℓ) : Type ℓ where
  ok : A → Bytes → Outcome A
  error_parse error_continue error_memory out_of_fuel fault : Outcome A

-- A cursor is the list of the bytes from `message[*index]` up to `message[length - 1]`.
abbrev pub Parser {ℓ} : Type ℓ → Type ℓ
Parser A = Bytes → Outcome A

-- `if (r != SMTP_NO_ERROR) return r;`
abbrev pub bind {ℓ κ} : {A : Type ℓ} {B : Type κ} → Outcome A → (A → Parser B) → Outcome B
bind (ok a rest) f = f a rest
bind error_parse f = error_parse
bind error_continue f = error_continue
bind error_memory f = error_memory
bind out_of_fuel f = out_of_fuel
bind fault f = fault

-- `if ((r != SMTP_NO_ERROR) && (r != SMTP_ERROR_PARSE)) return r;`, where a mismatch leaves the
-- cursor at `here`.
abbrev pub lenient {ℓ} : {A : Type ℓ} → Outcome A → Bytes → Outcome (Unit {0})
lenient (ok a rest) here = ok tt rest
lenient error_parse here = ok tt here
lenient error_continue here = error_continue
lenient error_memory here = error_memory
lenient out_of_fuel here = out_of_fuel
lenient fault here = fault

-- `if (r == SMTP_ERROR_PARSE) r = other;`
abbrev pub or_else {ℓ} : {A : Type ℓ} → Outcome A → Outcome A → Outcome A
or_else (ok a rest) other = ok a rest
or_else error_parse other = other
or_else error_continue other = error_continue
or_else error_memory other = error_memory
or_else out_of_fuel other = out_of_fuel
or_else fault other = fault

infixl 5 ◌>>=◌
infixr 5 ◌>>◌
abbrev pub ◌>>=◌ {ℓ κ} : {A : Type ℓ} {B : Type κ} → Parser A → (A → Parser B) → Parser B
p >>= f = λ s. bind (p s) f

abbrev pub ◌>>◌ {ℓ κ} : {A : Type ℓ} {B : Type κ} → Parser A → Parser B → Parser B
p >> q = p >>= λ _. q

abbrev pub pure {ℓ} : {A : Type ℓ} → A → Parser A
pure a s = ok a s

-- An optional part.
abbrev pub skip {ℓ} : {A : Type ℓ} → Parser A → Parser (Unit {0})
skip p s = lenient (p s) s

-- A choice.
abbrev pub either {ℓ} : {A : Type ℓ} → Parser A → Parser A → Parser A
either p q s = or_else (p s) (q s)
