-- ===== src/Content.antt =====
-- MIME fields: parameters of src/mime.c, and src/encoding.c, x-token.c and language.c.
pub mod Parameters
pub mod Kind
pub mod Disposition
use smtp_nel_filter.Prelude.{
  ℕ, zero, suc, ◌+◌, Bool, true, false, if◌then◌else◌, Option, none, some, List, [], ◌∷◌, ◌++◌,
  Bytes, codes, length,
}
use Prim.Native.String.{String}
use smtp_nel_filter.Outcome.{
  Outcome, ok, error_parse, error_continue, error_memory, out_of_fuel, fault, Parser, bind, or_else,
  ◌>>=◌, ◌>>◌, skip,
}
use smtp_nel_filter.Platform.{Platform}
use smtp_nel_filter.Mime.Scan.{wsp_parse, token_case_insensitive_len_parse}
use smtp_nel_filter.Mime.Space.{cfws_parse, unstrict_char_parse, unstrict_crlf_parse, colon_parse}
use smtp_nel_filter.Mime.Unstructured.{unstructured_parse}
use smtp_nel_filter.Mime.Words.{c_string, atom_parse}
use smtp_nel_filter.Mime.Lists.{Clist, appended}
use smtp_nel_filter.Mime.Tokens.{mime_token_parse, mime_attribute_parse, mime_value_parse}
use smtp_nel_filter.Address.{Env, new_struct}

pub record MimeParameter : Type 0 where
  pub pa_name : Bytes
  pub pa_value : Bytes

unfoldable pub mime_parameter_parse : Env → Parser MimeParameter
mime_parameter_parse env = do
  attribute ← mime_attribute_parse env.platform
  unstrict_char_parse env.fuel b'='
  skip (cfws_parse env.fuel)
  value ← mime_value_parse env.platform env.mmap_string env.fuel
  new_struct env 2 (record { pa_name = attribute; pa_value = value })

pub data MimeMechanism : Type 0 where
  mechanism_7bit mechanism_8bit mechanism_binary mechanism_quoted_printable mechanism_base64
        mechanism_token :
      MimeMechanism

-- smtp_token_case_insensitive_parse of a literal, whose size the macro takes.
abbrev pub keyword_parse : {A : Type 0} → String → A → Parser A
keyword_parse token type s =
    bind (token_case_insensitive_len_parse (codes token) (length (codes token)) s)
      λ _ rest. ok type rest

-- The chain of `if (r == SMTP_ERROR_PARSE)`. The token is not kept.
unfoldable pub mechanism_type : Platform → Parser MimeMechanism
mechanism_type platform s = or_else (keyword_parse "7bit" mechanism_7bit s) (
    or_else (keyword_parse "8bit" mechanism_8bit s) (
      or_else (keyword_parse "binary" mechanism_binary s) (
        or_else (keyword_parse "quoted-printable" mechanism_quoted_printable s) (
          or_else (keyword_parse "base64" mechanism_base64 s)
            (bind (mime_token_parse platform s) λ _ rest. ok mechanism_token rest)))))

-- `*result`, which is also stored in `part->encode_type`.
unfoldable pub mime_mechanism_parse : Platform → ℕ → Parser MimeMechanism
mime_mechanism_parse platform fuel = do
  skip wsp_parse
  type ← mechanism_type platform
  unstrict_crlf_parse fuel
  ok type

abbrev pub mime_encoding_parse : Platform → ℕ → Parser MimeMechanism
mime_encoding_parse = mime_mechanism_parse

-- Behind the token of smtp_mime_x_token_parse: its text is read, but not kept.
unfoldable pub x_token_text : Platform → ℕ → Bytes → Parser Bytes
x_token_text platform fuel token s =
    if platform.malloc (2 + length token + 1)
    then bind (colon_parse fuel s) (λ _ text.
      bind (unstructured_parse platform text)
        (λ _ end. bind (unstrict_crlf_parse fuel end) (λ _ rest. ok (b'X' ∷ b'-' ∷ token) rest)))
    else error_memory

-- Without a token, `goto free_token` frees a pointer that was never set.
unfoldable pub x_token_token : Platform → ℕ → Outcome Bytes → Outcome Bytes
x_token_token platform fuel (ok token rest) = x_token_text platform fuel token rest
x_token_token platform fuel error_parse = fault
x_token_token platform fuel error_continue = fault
x_token_token platform fuel error_memory = fault
x_token_token platform fuel out_of_fuel = out_of_fuel
x_token_token platform fuel fault = fault

unfoldable pub mime_x_token_parse : Platform → ℕ → Parser Bytes
mime_x_token_parse platform fuel s = x_token_token platform fuel (mime_token_parse platform s)

-- A language behind a comma, and the loop of smtp_mime_language_parse, whose rounds the number
-- bounds. A comma without a language is skipped.
unfoldable pub language_atom :
    Clist Bytes
    → (List Bytes → Parser (List Bytes))
    → List Bytes
    → Bytes
    → Outcome Bytes
    → Outcome (List Bytes)
language_atom clist go_on l here (ok atom rest) = bind (appended (clist.append l atom) rest) go_on
language_atom clist go_on l here error_parse = ok l here
language_atom clist go_on l here error_continue = error_continue
language_atom clist go_on l here error_memory = error_memory
language_atom clist go_on l here out_of_fuel = out_of_fuel
language_atom clist go_on l here fault = fault

unfoldable pub language_comma :
    Env
    → (List Bytes → Parser (List Bytes))
    → List Bytes
    → Bytes
    → Outcome (Unit {0})
    → Outcome (List Bytes)
language_comma env go_on l here (ok _ rest) =
    language_atom env.strings go_on l rest (atom_parse env.platform env.fuel rest)
language_comma env go_on l here error_parse = ok l here
language_comma env go_on l here error_continue = error_continue
language_comma env go_on l here error_memory = error_memory
language_comma env go_on l here out_of_fuel = out_of_fuel
language_comma env go_on l here fault = fault

unfoldable pub language_loop : Env → ℕ → List Bytes → Parser (List Bytes)
language_loop env zero l s = out_of_fuel
language_loop env (suc rounds) l s =
    language_comma env (language_loop env rounds) l s (unstrict_char_parse env.fuel b',' s)

pub record MimeLanguage : Type 0 where
  pub lg_list : List Bytes

unfoldable pub mime_language_parse : Env → Parser MimeLanguage
mime_language_parse env s = bind (appended env.strings.new s) λ list here.
    bind (language_loop env env.fuel list here) λ languages end.
      bind (unstrict_crlf_parse env.fuel end) λ _. new_struct env 1 (record { lg_list = languages })
