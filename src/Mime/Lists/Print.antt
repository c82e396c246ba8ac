-- ===== src/Mime/Lists/Print.antt =====
-- Lists whose elements have a text: the texts with the separator between them are read back.
use smtp_nel_filter.Prelude.{ℕ, suc, true, ◌<◌, ◌≡◌, refl, ap, arith, List, [], ◌∷◌, Bytes, length}
use smtp_nel_filter.Outcome.{Parser, ok, error_parse}
use smtp_nel_filter.Mime.Space.{unstrict_char_parse}
use smtp_nel_filter.Mime.Space.Plain.{is_plain, unstrict_char-first}
use smtp_nel_filter.Mime.Lists.{Clist, struct_list_parse}
use smtp_nel_filter.Mime.Lists.Grammar.{
  IsClist, Elements, last, next, behind, separated, struct_list_parse-Separated,
}

-- How an element is written, what it stands for, which texts are allowed, and before what.
pub record Notation {A : Type 0} (Text : Type 0) (parser : Parser A) : Type 1 where
  pub print : Text → Bytes → Bytes
  pub value : Text → A
  pub Valid : Text → Type 0
  pub Ends : ℕ → Bytes → Type 0
  pub parse-print :
      (t : Text) (c : ℕ) (s : Bytes)
      → Valid t
      → Ends c s
      → parser (print t (c ∷ s)) ≡ ok (value t) (c ∷ s)

abbrev pub Each : {T : Type 0} → (T → Type 0) → List T → Type 0
Each P [] = Unit
Each P (t ∷ ts) = P t × Each P ts

-- The texts behind separators, and what follows them.
abbrev pub print_behind : {T : Type 0} → ℕ → (T → Bytes → Bytes) → List T → Bytes → Bytes
print_behind symbol print [] rest = rest
print_behind symbol print (t ∷ ts) rest = symbol ∷ print t (print_behind symbol print ts rest)

abbrev pub values : {T A : Type 0} → (T → A) → List T → List A
values value [] = []
values value (t ∷ ts) = value t ∷ values value ts

pub length-values :
    {T A : Type 0} (value : T → A) (ts : List T) → length (values value ts) ≡ length ts
length-values value [] = refl
length-values value (t ∷ ts) = ap suc (length-values value ts)

module _ {A Text : Type 0} (clist : Clist A) (law : IsClist clist) (fuel symbol : ℕ)
    (parser : Parser A) (notation : Notation Text parser) (positive : 0 < fuel)
    (plain : is_plain symbol ≡ true) (before_symbol : (s : Bytes) → notation.Ends symbol s) (c : ℕ)
    (s : Bytes) (end : notation.Ends c s)
    (stop : unstrict_char_parse fuel symbol (c ∷ s) ≡ error_parse) where
  print_behind-head :
      (ts : List Text)
      → (d : ℕ) × (r : Bytes) × (print_behind symbol notation.print ts (c ∷ s) ≡ d ∷ r)
        × notation.Ends d r
  print_behind-head [] = (c, s, refl, end)
  print_behind-head (t ∷ ts) =
      let r = notation.print t (print_behind symbol notation.print ts (c ∷ s)) in
      (symbol, r, refl, before_symbol r)

  element-print :
      (t : Text) (ts : List Text)
      → notation.Valid t
      → parser (notation.print t (print_behind symbol notation.print ts (c ∷ s)))
        ≡ ok (notation.value t) (print_behind symbol notation.print ts (c ∷ s))
  element-print t ts valid =
      let (d, r, e, ends) = print_behind-head ts in rw e (notation.parse-print t d r valid ends)

  pub Elements-print :
      (ts : List Text)
      → Each notation.Valid ts
      → Elements
          (behind fuel symbol parser)
          (c ∷ s)
          (values notation.value ts)
          (print_behind symbol notation.print ts (c ∷ s))
  Elements-print [] valid = last (rw stop) refl
  Elements-print (t ∷ ts) (valid, more) =
      next
        (rw
          (unstrict_char-first fuel symbol
            (notation.print t (print_behind symbol notation.print ts (c ∷ s))) positive plain)
          (element-print t ts valid))
        (Elements-print ts more)

  pub struct_list_parse-print :
      (t : Text) (ts : List Text)
      → Each notation.Valid (t ∷ ts)
      → length ts < fuel
      → struct_list_parse clist symbol parser fuel
          (notation.print t (print_behind symbol notation.print ts (c ∷ s)))
        ≡ ok (values notation.value (t ∷ ts)) (c ∷ s)
  struct_list_parse-print t ts (valid, more) h =
      struct_list_parse-Separated clist law fuel symbol parser
        (separated (element-print t ts valid) (Elements-print ts more))
        (omega (arith, length-values notation.value ts))
