-- ===== src/Content/Parameters.antt =====
-- Parameters of MIME fields are read back.
use smtp_nel_filter.Prelude.{
  ℕ, zero, suc, ◌+◌, ◌*◌, ◌<◌, Bool, true, false, ◌&&◌, ◌==◌, leb, if◌then◌else◌, Bool-cases, inl,
  inr, [], ◌∷◌, ◌++◌, Bytes, All, all, All-all, ◌≡◌, refl, ap, ◌∙◌, arith, length,
}
use smtp_nel_filter.Outcome.{ok, error_parse}
use smtp_nel_filter.Platform.{Platform}
use smtp_nel_filter.Mime.Chars.{is_tspecials, is_token}
use smtp_nel_filter.Mime.Space.{cfws_parse}
use smtp_nel_filter.Mime.Space.Plain.{is_plain, cfws-plain, unstrict_char-first}
use smtp_nel_filter.Mime.Words.{c_string, new_string}
use smtp_nel_filter.Mime.Words.Quoted.{quote, quoted_string-quote}
use smtp_nel_filter.Mime.Tokens.{
  custom_loop, custom_copy, custom_string_parse, mime_token_parse, mime_value_parse,
}
use smtp_nel_filter.Address.{Env, new_struct}
use smtp_nel_filter.Address.Text.{IsEnv}
use smtp_nel_filter.Content.{mime_parameter_parse}

-- A byte of a token that is no control character.
unfoldable pub is_visible : ℕ → Bool
is_visible c = is_token c && leb 33 c

unfoldable pub is_name : Bytes → Bool
is_name [] = false
is_name (c ∷ s) = all is_visible (c ∷ s)

-- A value that is no token is quoted.
abbrev pub print_value : Bytes → Bytes → Bytes
print_value value rest =
    if is_name value then value ++ rest else b'"' ∷ (quote value ++ b'"' ∷ rest)

visible-plain : (c : ℕ) → is_visible c ≡ true → is_plain c ≡ true
unfolding is_visible is_token is_tspecials is_plain
visible-plain c h = ground arith

visible-token : (c : ℕ) → is_visible c ≡ true → is_token c ≡ true
unfolding is_visible
visible-token c h = ground arith

visible-not_nul : (c : ℕ) → is_visible c ≡ true → (c == 0) ≡ false
unfolding is_visible
visible-not_nul c h = ground arith

custom_loop-append :
    (xs : Bytes) (c : ℕ) (s : Bytes)
    → All is_visible xs
    → is_token c ≡ false
    → custom_loop is_token (xs ++ c ∷ s) ≡ (xs, c ∷ s)
unfolding custom_loop
custom_loop-append [] c s h stop = rw stop refl
custom_loop-append (x ∷ xs) c s (hx, h) stop =
    rw (visible-token x hx, custom_loop-append xs c s h stop) refl

c_string-visible : (xs : Bytes) → All is_visible xs → c_string xs ≡ xs
unfolding c_string
c_string-visible [] h = refl
c_string-visible (x ∷ xs) (hx, h) = rw (visible-not_nul x hx, c_string-visible xs h)

name-c_string : (xs : Bytes) → is_name xs ≡ true → c_string xs ≡ xs
unfolding is_name
name-c_string [] name = absurd (ground arith)
name-c_string (x ∷ xs) name = c_string-visible (x ∷ xs) (All-all is_visible (x ∷ xs) name)

token-print :
    (platform : Platform) (xs : Bytes) (c : ℕ) (s : Bytes)
    → is_name xs ≡ true
    → platform.malloc (length xs + 1) ≡ true
    → is_token c ≡ false
    → mime_token_parse platform (xs ++ c ∷ s) ≡ ok xs (c ∷ s)
unfolding is_name mime_token_parse custom_string_parse custom_copy new_string
token-print platform [] c s name memory stop = absurd (ground arith)
token-print platform (x ∷ xs) c s name memory stop =
    let visible = All-all is_visible (x ∷ xs) name in
    rw (custom_loop-append (x ∷ xs) c s visible stop, memory, c_string-visible (x ∷ xs) visible)
      refl

token-dquote :
    (platform : Platform) (s : Bytes) → mime_token_parse platform (b'"' ∷ s) ≡ error_parse
unfolding mime_token_parse custom_string_parse custom_copy custom_loop is_token is_tspecials
token-dquote platform s = refl

module _ (env : Env) (law : IsEnv env) where
  name-plain :
      (xs rest : Bytes)
      → is_name xs ≡ true
      → (c : ℕ) × (s : Bytes) × (xs ++ rest ≡ c ∷ s) × (is_plain c ≡ true)
  unfolding is_name
  name-plain [] rest name = absurd (ground arith)
  name-plain (x ∷ xs) rest name = (x, xs ++ rest, refl, visible-plain x (ground arith))

  pub value-plain :
      (xs rest : Bytes)
      → (c : ℕ) × (s : Bytes) × (print_value xs rest ≡ c ∷ s) × (is_plain c ≡ true)
  value-plain xs rest = elim (Bool-cases (is_name xs)) [
    | inl name ↦ rw name (name-plain xs rest name)
    | inr quoted ↦ rw quoted (b'"', quote xs ++ b'"' ∷ rest, refl, unfold is_plain in refl)
  ]

  -- smtp_mime_value_parse.
  pub value-print :
      (xs : Bytes) (c : ℕ) (s : Bytes)
      → length xs < env.fuel
      → is_token c ≡ false
      → mime_value_parse env.platform env.mmap_string env.fuel (print_value xs (c ∷ s))
        ≡ ok (c_string xs) (c ∷ s)
  unfolding mime_value_parse
  value-print xs c s size stop = elim (Bool-cases (is_name xs)) [
    | inl name ↦
        rw
          (
            name,
            token-print env.platform xs c s name (law.memory (length xs + 1)) stop,
            name-c_string xs name,
          )
          refl
    | inr quoted ↦
        rw
          (
            quoted,
            token-dquote env.platform (quote xs ++ b'"' ∷ c ∷ s),
            quoted_string-quote env.platform env.mmap_string env.fuel xs c s law.growing
                (law.memory (length (c_string xs) + 1)) size,
          )
          refl
  ]

  pub cfws-value :
      (fuel : ℕ) (c : ℕ) (s : Bytes)
      → is_plain c ≡ true
      → 0 < fuel
      → cfws_parse fuel (c ∷ s) ≡ error_parse
  cfws-value zero c s plain positive = absurd (omega arith)
  cfws-value (suc fuel) c s plain positive = cfws-plain c s plain fuel

  -- smtp_mime_parameter_parse reads a name and a value back, with an equals sign between them,
  -- before a byte that no token has: the value up to its first NUL, which is printed as a token if
  -- it is one without control characters, and else quoted. Memory lasts, and the fuel is above the
  -- length of the value.
  pub mime_parameter_parse-print :
      (name value : Bytes) (c : ℕ) (s : Bytes)
      → is_name name ≡ true
      → length value < env.fuel
      → is_token c ≡ false
      → mime_parameter_parse env (name ++ b'=' ∷ print_value value (c ∷ s))
        ≡ ok (record { pa_name = name; pa_value = c_string value }) (c ∷ s)
  unfolding mime_parameter_parse new_struct
  mime_parameter_parse-print name value c s h size stop =
      let rest = print_value value (c ∷ s) in
      let (d, t, e, plain) = value-plain value (c ∷ s) in
      let no_space : cfws_parse env.fuel rest ≡ error_parse =
        ap (cfws_parse env.fuel) e ∙ cfws-value env.fuel d t plain (omega arith) in
      rw
        (
          token-print env.platform name b'=' rest h (law.memory (length name + 1))
              (unfold is_token is_tspecials in refl),
          unstrict_char-first env.fuel b'=' rest (omega arith) (unfold is_plain in refl),
          no_space,
          value-print value c s size stop,
          law.memory (2 * env.platform.sizeof_ptr),
        )
        refl
