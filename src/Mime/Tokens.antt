-- ===== src/Mime/Tokens.antt =====
-- Tokens and parameters of src/mime.c.
use smtp_nel_filter.Prelude.{ℕ, Bool, [], ◌∷◌, Bytes, if◌then◌else◌, length}
use smtp_nel_filter.Outcome.{Outcome, error_parse, error_continue, Parser, or_else}
use smtp_nel_filter.Platform.{Platform}
use smtp_nel_filter.Mime.Chars.{is_token}
use smtp_nel_filter.Mime.Words.{MmapString, new_string, quoted_string_parse}

-- The bytes at the cursor that pass the test, and those behind them.
unfoldable pub custom_loop : (ℕ → Bool) → Bytes → Bytes × Bytes
custom_loop is_custom_char [] = ([], [])
custom_loop is_custom_char (c ∷ s) =
    let (gstr, rest) = custom_loop is_custom_char s in
    if is_custom_char c then (c ∷ gstr, rest) else ([], c ∷ s)

unfoldable pub custom_copy : Platform → Bytes × Bytes → Outcome Bytes
custom_copy platform ([], rest) = error_parse
custom_copy platform (c ∷ gstr, rest) = new_string platform (length (c ∷ gstr)) (c ∷ gstr) rest

unfoldable pub custom_string_parse : Platform → (ℕ → Bool) → Parser Bytes
custom_string_parse platform is_custom_char [] = error_continue
custom_string_parse platform is_custom_char (c ∷ s) =
    custom_copy platform (custom_loop is_custom_char (c ∷ s))

unfoldable pub mime_token_parse : Platform → Parser Bytes
mime_token_parse platform = custom_string_parse platform is_token

abbrev pub mime_attribute_parse : Platform → Parser Bytes
mime_attribute_parse = mime_token_parse

abbrev pub mime_extension_token_parse : Platform → Parser Bytes
mime_extension_token_parse = mime_token_parse

unfoldable pub mime_value_parse : Platform → MmapString → ℕ → Parser Bytes
mime_value_parse platform m fuel s =
    or_else (mime_token_parse platform s) (quoted_string_parse platform m fuel s)
