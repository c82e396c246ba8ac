-- ===== src/Mime/Lists/Grammar.antt =====
-- A list is an element, and elements behind separators for items long items both are there.
use mathlib.Core.List.{append_assoc, append-nil}
use mathlib.Core.Path.{fun_ext, subst}
use smtp_nel_filter.Prelude.{
  ℕ, zero, suc, ◌<◌, ◌≡◌, refl, ◌∙◌, sym, ap, arith, List, [], ◌∷◌, ◌++◌, some, ◌⊎◌, inl, inr,
  Bytes, length,
}
use smtp_nel_filter.Outcome.{
  Outcome, ok, error_parse, error_continue, error_memory, out_of_fuel, fault, Parser, bind,
}
use smtp_nel_filter.Mime.Space.{unstrict_char_parse}
use smtp_nel_filter.Mime.Lists.{
  Clist, appended, list_value, list_symbol, multiple_loop, list_loop, list_first, struct_list_parse,
  struct_multiple_parse,
}

-- What clist promises items long items memory lasts.
pub record IsClist {A : Type 0} (clist : Clist A) : Type 0 where
  pub new-empty : clist.new ≡ some []
  pub append-last : (l : List A) (a : A) → clist.append l a ≡ some (l ++ a ∷ [])

-- The elements that `element` reads one behind another, up to a mismatch.
pub data Elements {A : Type 0} (element : Parser A) (end : Bytes) : List A → Bytes → Type 0 where
  last : {s : Bytes} → element s ≡ error_parse → s ≡ end → Elements element end [] s
  next :
      {a : A} {items : List A} {s r : Bytes}
      → element s ≡ ok a r
      → Elements element end items r
      → Elements element end (a ∷ items) s

module _ {A : Type 0} (clist : Clist A) (law : IsClist clist) where
  -- The loop reads all elements.
  pub loop-Elements :
      (element : Parser A) (rounds : ℕ) (l : List A) {end s : Bytes} {items : List A}
      → Elements element end items s
      → length items < rounds
      → multiple_loop clist element rounds l s ≡ ok (l ++ items) end
  unfolding multiple_loop list_value
  loop-Elements element zero l e h = absurd (omega arith)
  loop-Elements element (suc rounds) l (last stop here) h = rw (stop, here, append-nil l)
  loop-Elements element (suc rounds) l {end} (next {a} {items} step more) h =
      rw (step, law.append-last l a)
        (loop-Elements element rounds (l ++ a ∷ []) more (omega arith)
          ∙ ap (λ x. ok x end) (append_assoc l (a ∷ []) items))

  -- The list of the first element alone.
  list_first_lem :
      (parser : Parser A) (s : Bytes)
      → list_first clist parser s ≡ bind (parser s) (λ a r. ok (a ∷ []) r)
  unfolding list_first
  list_first_lem parser s = first (parser s)
    where
      first :
          (o : Outcome A)
          → (bind o λ value rest.
              bind (appended clist.new rest) λ l here. appended (clist.append l value) here)
            ≡ bind o (λ a r. ok (a ∷ []) r)
      first (ok a r) = simp (law.new-empty, law.append-last)
      first error_parse = refl
      first error_continue = refl
      first error_memory = refl
      first out_of_fuel = refl
      first fault = refl

  -- One element at least.
  pub struct_multiple_parse-Elements :
      (parser : Parser A) (fuel : ℕ) {a : A} {items : List A} {end s r : Bytes}
      → parser s ≡ ok a r
      → Elements parser end items r
      → length items < fuel
      → struct_multiple_parse clist parser fuel s ≡ ok (a ∷ items) end
  unfolding struct_multiple_parse
  struct_multiple_parse-Elements parser fuel {a} {s = s} first more h =
      ap (λ o. bind o (multiple_loop clist parser fuel)) (list_first_lem parser s)
      ∙ ap (λ o. bind (bind o λ a r. ok (a ∷ []) r) (multiple_loop clist parser fuel)) first
      ∙ loop-Elements parser fuel (a ∷ []) more h

  value-cases :
      (go_on : List A → Parser (List A)) (l : List A) (s : Bytes) (o : Outcome A) {l' : List A}
      {end : Bytes}
      → list_value clist go_on l s o ≡ ok l' end
      → ((o ≡ error_parse) × (l ≡ l') × (s ≡ end))
        ⊎ ((a : A) × (r : Bytes) × (o ≡ ok a r) × (go_on (l ++ a ∷ []) r ≡ ok l' end))
  unfolding list_value
  value-cases go_on l s (ok a r) e = inr (a, r, refl, rw (law.append-last l a) at e)
  value-cases go_on l s error_parse e = inl (refl, cc, cc)
  value-cases go_on l s error_continue e = cc
  value-cases go_on l s error_memory e = cc
  value-cases go_on l s out_of_fuel e = cc
  value-cases go_on l s fault e = cc

  -- What the loop returns are elements up to a mismatch.
  loop_sound :
      (element : Parser A) (rounds : ℕ) (l : List A) (s : Bytes) {l' : List A} {end : Bytes}
      → multiple_loop clist element rounds l s ≡ ok l' end
      → (items : List A) × (l' ≡ l ++ items) × Elements element end items s
  unfolding multiple_loop
  loop_sound element zero l s e = cc
  loop_sound element (suc rounds) l s e =
      elim (value-cases (multiple_loop clist element rounds) l s (element s) e) [
        | inl (stop, same, here) ↦ ([], sym same ∙ sym (append-nil l), last stop here)
        | inr (a, r, step, more) ↦
            let (items, all, elements) = loop_sound element rounds (l ++ a ∷ []) r more in
            (a ∷ items, all ∙ append_assoc l (a ∷ []) items, next step elements)
      ]

-- A separator and an element.
abbrev pub behind : {A : Type 0} → ℕ → ℕ → Parser A → Parser A
behind fuel symbol parser s = bind (unstrict_char_parse fuel symbol s) λ _. parser

-- The elements of a list: the first, and those behind separators.
pub data Separated {A : Type 0} (fuel symbol : ℕ) (parser : Parser A) (end : Bytes)
    : List A → Bytes → Type 0 where
  separated :
      {a : A} {items : List A} {s r : Bytes}
      → parser s ≡ ok a r
      → Elements (behind fuel symbol parser) end items r
      → Separated fuel symbol parser end (a ∷ items) s

module _ {A : Type 0} (clist : Clist A) (law : IsClist clist) (fuel symbol : ℕ)
    (parser : Parser A) where
  symbol-value :
      (go_on : List A → Parser (List A)) (l : List A) (s : Bytes) (o : Outcome (Unit {0}))
      → list_symbol clist parser go_on l s o ≡ list_value clist go_on l s (bind o λ _. parser)
  unfolding list_symbol list_value
  symbol-value go_on l s (ok _ r) = refl
  symbol-value go_on l s error_parse = refl
  symbol-value go_on l s error_continue = refl
  symbol-value go_on l s error_memory = refl
  symbol-value go_on l s out_of_fuel = refl
  symbol-value go_on l s fault = refl

  pub list-multiple :
      (rounds : ℕ) (l : List A) (s : Bytes)
      → list_loop clist fuel symbol parser rounds l s
        ≡ multiple_loop clist (behind fuel symbol parser) rounds l s
  unfolding list_loop multiple_loop
  list-multiple zero l s = refl
  list-multiple (suc rounds) l s =
      symbol-value (list_loop clist fuel symbol parser rounds) l s
        (unstrict_char_parse fuel symbol s)
      ∙ ap
          (λ go_on.
            list_value clist go_on l s (bind (unstrict_char_parse fuel symbol s) λ _. parser))
          (fun_ext (λ l'. fun_ext (λ r. list-multiple rounds l' r)))

  -- smtp_struct_list_parse returns the elements of a list, the first and those behind separators,
  -- and stops behind the last one, if there are fewer than the fuel and memory lasts.
  pub struct_list_parse-Separated :
      {end s : Bytes} {items : List A}
      → Separated fuel symbol parser end items s
      → length items < suc fuel
      → struct_list_parse clist symbol parser fuel s ≡ ok items end
  unfolding struct_list_parse
  struct_list_parse-Separated {end} {s} (separated {a} {items} {r = r} first more) h =
      ap (λ o. bind o (list_loop clist fuel symbol parser fuel)) (list_first_lem clist law parser s)
      ∙ ap (λ o. bind (bind o λ a r. ok (a ∷ []) r) (list_loop clist fuel symbol parser fuel)) first
      ∙ list-multiple fuel (a ∷ []) r
      ∙ loop-Elements clist law (behind fuel symbol parser) fuel (a ∷ []) more (omega arith)

  -- And whatever it returns is such a list.
  pub struct_list_parse-sound :
      (s : Bytes) {items : List A} {end : Bytes}
      → struct_list_parse clist symbol parser fuel s ≡ ok items end
      → Separated fuel symbol parser end items s
  unfolding struct_list_parse
  struct_list_parse-sound s {items} {end} e = behind_first (parser s) refl (
      ap (λ o. bind o (list_loop clist fuel symbol parser fuel))
        (sym (list_first_lem clist law parser s))
      ∙ e)
    where
      behind_first :
          (o : Outcome A)
          → parser s ≡ o
          → bind (bind o λ a r. ok (a ∷ []) r) (list_loop clist fuel symbol parser fuel)
            ≡ ok items end
          → Separated fuel symbol parser end items s
      behind_first (ok a r) first loop =
          let (more, all, elements) =
            loop_sound clist law (behind fuel symbol parser) fuel (a ∷ []) r
              (sym (list-multiple fuel (a ∷ []) r) ∙ loop) in
          subst (λ x. Separated fuel symbol parser end x s) (sym all) (separated first elements)
      behind_first error_parse first loop = cc
      behind_first error_continue first loop = cc
      behind_first error_memory first loop = cc
      behind_first out_of_fuel first loop = cc
      behind_first fault first loop = cc
