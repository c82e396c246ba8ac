-- ===== src/Mime/Lists.antt =====
-- The list combinators of src/mime.c: smtp_struct_multiple_parse and smtp_struct_list_parse. The
-- destructors that they call on an error only free memory.
pub mod Grammar
pub mod Print
use smtp_nel_filter.Prelude.{ℕ, zero, suc, List, Option, none, some}
use smtp_nel_filter.Outcome.{
  Outcome, ok, error_parse, error_continue, error_memory, out_of_fuel, fault, Parser, bind,
}
use smtp_nel_filter.Prelude.{Bytes}
use smtp_nel_filter.Mime.Space.{unstrict_char_parse}

-- What the code calls of clist; `none` is NULL, or a negative result.
pub record Clist (A : Type 0) : Type 0 where
  pub new : Option (List A)
  pub append : List A → A → Option (List A)

abbrev pub appended : {A : Type 0} → Option (List A) → Parser (List A)
appended none rest = error_memory
appended (some l) rest = ok l rest

-- What follows a further element: it is appended, and the loop goes on; a mismatch ends the list at
-- `final_token`.
unfoldable pub list_value :
    {A : Type 0}
    → Clist A
    → (List A → Parser (List A))
    → List A
    → Bytes
    → Outcome A
    → Outcome (List A)
list_value clist go_on l final_token (ok value rest) =
    bind (appended (clist.append l value) rest) go_on
list_value clist go_on l final_token error_parse = ok l final_token
list_value clist go_on l final_token error_continue = error_continue
list_value clist go_on l final_token error_memory = error_memory
list_value clist go_on l final_token out_of_fuel = out_of_fuel
list_value clist go_on l final_token fault = fault

-- What follows a separator.
unfoldable pub list_symbol :
    {A : Type 0}
    → Clist A
    → Parser A
    → (List A → Parser (List A))
    → List A
    → Bytes
    → Outcome (Unit {0})
    → Outcome (List A)
list_symbol clist parser go_on l final_token (ok _ rest) =
    list_value clist go_on l final_token (parser rest)
list_symbol clist parser go_on l final_token error_parse = ok l final_token
list_symbol clist parser go_on l final_token error_continue = error_continue
list_symbol clist parser go_on l final_token error_memory = error_memory
list_symbol clist parser go_on l final_token out_of_fuel = out_of_fuel
list_symbol clist parser go_on l final_token fault = fault

-- The two loops; the first number bounds their rounds.
unfoldable pub multiple_loop : {A : Type 0} → Clist A → Parser A → ℕ → List A → Parser (List A)
multiple_loop clist parser zero l s = out_of_fuel
multiple_loop clist parser (suc rounds) l s =
    list_value clist (multiple_loop clist parser rounds) l s (parser s)

unfoldable pub list_loop : {A : Type 0} → Clist A → ℕ → ℕ → Parser A → ℕ → List A → Parser (List A)
list_loop clist fuel symbol parser zero l s = out_of_fuel
list_loop clist fuel symbol parser (suc rounds) l s =
    list_symbol clist parser (list_loop clist fuel symbol parser rounds) l s
      (unstrict_char_parse fuel symbol s)

-- The first element, and the list that it is put in.
unfoldable pub list_first : {A : Type 0} → Clist A → Parser A → Parser (List A)
list_first clist parser s =
    bind (parser s)
      λ value rest. bind (appended clist.new rest) λ l here. appended (clist.append l value) here

unfoldable pub struct_multiple_parse : {A : Type 0} → Clist A → Parser A → ℕ → Parser (List A)
struct_multiple_parse clist parser fuel s =
    bind (list_first clist parser s) (multiple_loop clist parser fuel)

unfoldable pub struct_list_parse : {A : Type 0} → Clist A → ℕ → Parser A → ℕ → Parser (List A)
struct_list_parse clist symbol parser fuel s =
    bind (list_first clist parser s) (list_loop clist fuel symbol parser fuel)
