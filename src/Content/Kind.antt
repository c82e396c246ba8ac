-- ===== src/Content/Kind.antt =====
-- The Content-Type field: src/content-type.c. The debug output that reads the type is left out.
pub mod Part
pub mod Agreement
pub mod Defaults
use smtp_nel_filter.Prelude.{
  ℕ, zero, suc, ◌+◌, ◌-◌, Bool, true, false, ◌&&◌, ◌==◌, ltb, leb, if◌then◌else◌, Option, none,
  some, List, [], ◌∷◌, ◌++◌, Bytes, codes, length, take,
}
use smtp_nel_filter.Outcome.{
  Outcome, ok, error_parse, error_continue, error_memory, out_of_fuel, fault, Parser, bind, lenient,
  or_else,
}
use smtp_nel_filter.Platform.{Platform}
use smtp_nel_filter.Mime.Scan.{toupper}
use smtp_nel_filter.Mime.Space.{cfws_parse, unstrict_char_parse, unstrict_crlf_parse}
use smtp_nel_filter.Mime.Lists.{Clist, appended}
use smtp_nel_filter.Mime.Tokens.{mime_extension_token_parse}
use smtp_nel_filter.Address.{Env}
use smtp_nel_filter.Fields.Policy.{Verdict, returns, shown}
use smtp_nel_filter.Content.{MimeParameter, keyword_parse, mime_parameter_parse}

pub data DiscreteType : Type 0 where
  discrete_text discrete_image discrete_audio discrete_video discrete_application : DiscreteType
  discrete_extension : Bytes → DiscreteType

pub data CompositeType : Type 0 where
  composite_message composite_multipart : CompositeType

pub data MimeType : Type 0 where
  discrete_type : DiscreteType → MimeType
  composite_type : CompositeType → MimeType

-- A null pointer is `none`; `err_cnt` is set to 0.
pub record ContentType : Type 0 where
  pub ct_type : Option MimeType
  pub ct_subtype : Option Bytes
  pub ct_parameters : List MimeParameter
  pub err_cnt : ℕ

-- The pools' answers, the lists of parameters, and nel_env_analysis.
pub record ContentEngine : Type 0 where
  pub alloc_discrete_type : Bool
  pub alloc_composite_type : Bool
  pub alloc_mime_type : Bool
  pub alloc_content_type : Bool
  pub parameters : Clist MimeParameter
  pub analysis_content_type : ContentType → ℕ → Option ℕ

-- A structure from a pool.
abbrev pub pool_new : {A : Type 0} → Bool → A → Parser A
pool_new granted a s = if granted then ok a s else error_memory

unfoldable pub discrete_type_parse : Platform → ContentEngine → Parser DiscreteType
discrete_type_parse platform engine s =
    bind
      (or_else (keyword_parse "text" discrete_text s) (
        or_else (keyword_parse "image" discrete_image s) (
          or_else (keyword_parse "audio" discrete_audio s) (
            or_else (keyword_parse "video" discrete_video s) (
              or_else (keyword_parse "application" discrete_application s) (
                bind (mime_extension_token_parse platform s)
                  λ extension rest. ok (discrete_extension extension) rest))))))
      (pool_new engine.alloc_discrete_type)

unfoldable pub composite_type_parse : ContentEngine → Parser CompositeType
composite_type_parse engine s =
    bind
      (or_else (keyword_parse "message" composite_message s)
        (keyword_parse "multipart" composite_multipart s))
      (pool_new engine.alloc_composite_type)

-- Without a structure, `res = r` is SMTP_NO_ERROR: neither `*result` nor `*index` is set.
unfoldable pub mime_type_parse : Platform → ContentEngine → Parser (Option MimeType)
mime_type_parse platform engine s =
    bind
      (or_else
        (bind (composite_type_parse engine s) λ composite rest. ok (composite_type composite) rest)
        (bind (discrete_type_parse platform engine s)
          λ discrete rest. ok (discrete_type discrete) rest))
      λ type rest. if engine.alloc_mime_type then ok (some type) rest else ok none s

abbrev pub mime_subtype_parse : Platform → Parser Bytes
mime_subtype_parse = mime_extension_token_parse

-- `free_type:` smtp_mime_type_free dereferences its argument.
abbrev pub free_type : {A : Type 0} → Option MimeType → Outcome A → Outcome A
free_type none res = fault
free_type (some type) res = res

-- An error with `goto free_type`.
unfoldable pub or_free : {A : Type 0} → Option MimeType → Outcome A → Outcome A
or_free type (ok a rest) = ok a rest
or_free type error_parse = free_type type error_parse
or_free type error_continue = free_type type error_continue
or_free type error_memory = free_type type error_memory
or_free type out_of_fuel = out_of_fuel
or_free type fault = fault

-- The `switch` behind the type: a slash and the subtype, or `strdup ("unknown")`.
unfoldable pub content_subtype :
    Env → Option MimeType → Bytes → Outcome (Unit {0}) → Outcome (Option Bytes)
content_subtype env type here (ok _ rest) = or_free type (
    bind (lenient (cfws_parse env.fuel rest) rest)
      λ _ subtype. bind (mime_subtype_parse env.platform subtype) λ token end. ok (some token) end)
content_subtype env type here error_parse =
    ok (if env.platform.malloc 8 then some (codes "unknown") else none) here
content_subtype env type here error_continue = free_type type error_continue
content_subtype env type here error_memory = free_type type error_memory
content_subtype env type here out_of_fuel = out_of_fuel
content_subtype env type here fault = fault

-- A parameter is appended, a mismatch ends the list before its semicolon, and other errors leave
-- the type as it is.
unfoldable pub content_parameter :
    ContentEngine
    → Option MimeType
    → (List MimeParameter → Parser (List MimeParameter))
    → List MimeParameter
    → Bytes
    → Outcome MimeParameter
    → Outcome (List MimeParameter)
content_parameter engine type go_on l final_token (ok parameter rest) =
    bind (or_free type (appended (engine.parameters.append l parameter) rest)) go_on
content_parameter engine type go_on l final_token error_parse = ok l final_token
content_parameter engine type go_on l final_token error_continue = error_continue
content_parameter engine type go_on l final_token error_memory = error_memory
content_parameter engine type go_on l final_token out_of_fuel = out_of_fuel
content_parameter engine type go_on l final_token fault = fault

-- Whatever the code at the semicolon is, the list ends there.
unfoldable pub content_semi_colon :
    Env
    → ContentEngine
    → Option MimeType
    → (List MimeParameter → Parser (List MimeParameter))
    → List MimeParameter
    → Bytes
    → Outcome (Unit {0})
    → Outcome (List MimeParameter)
content_semi_colon env engine type go_on l final_token (ok _ rest) =
    bind (or_free type (lenient (cfws_parse env.fuel rest) rest)) λ _ parameter.
      content_parameter engine type go_on l final_token (mime_parameter_parse env parameter)
content_semi_colon env engine type go_on l final_token error_parse = ok l final_token
content_semi_colon env engine type go_on l final_token error_continue = ok l final_token
content_semi_colon env engine type go_on l final_token error_memory = ok l final_token
content_semi_colon env engine type go_on l final_token out_of_fuel = out_of_fuel
content_semi_colon env engine type go_on l final_token fault = fault

-- The first number bounds the rounds.
unfoldable pub content_parameters :
    Env → ContentEngine → Option MimeType → ℕ → List MimeParameter → Parser (List MimeParameter)
content_parameters env engine type zero l s = out_of_fuel
content_parameters env engine type (suc rounds) l s =
    content_semi_colon env engine type (content_parameters env engine type rounds) l s
      (unstrict_char_parse env.fuel b';' s)

-- `smtp_cfws_parse (message, length, &cur_token);`, whose result is not looked at.
unfoldable pub after_cfws : Bytes → Outcome (Unit {0}) → Outcome (Unit {0})
after_cfws here (ok _ rest) = ok tt rest
after_cfws here error_parse = ok tt here
after_cfws here error_continue = ok tt here
after_cfws here error_memory = ok tt here
after_cfws here out_of_fuel = out_of_fuel
after_cfws here fault = fault

-- Up to smtp_mime_content_type_new.
unfoldable pub content_value : Env → ContentEngine → Parser ContentType
content_value env engine s = bind (after_cfws s (cfws_parse env.fuel s)) λ _ start.
    bind (mime_type_parse env.platform engine start) λ type slash.
      bind (content_subtype env type slash (unstrict_char_parse env.fuel b'/' slash))
        λ subtype here. bind (or_free type (appended engine.parameters.new here)) λ list first.
          bind (content_parameters env engine type env.fuel list first) λ parameters end.
            bind (unstrict_crlf_parse env.fuel end) λ _ rest. or_free type (
              pool_new engine.alloc_content_type
                (record {
                  ct_type = type;
                  ct_subtype = subtype;
                  ct_parameters = parameters;
                  err_cnt = 0;
                })
                rest)
