-- ===== src/Content/Disposition/RoundTrip.antt =====
-- File names of attachments are read back.
use smtp_nel_filter.Prelude.{
  ℕ, ◌<◌, true, false, ltb, List, [], ◌∷◌, ◌++◌, Bytes, codes, ◌≡◌, refl, ◌∙◌, arith, length,
}
use smtp_nel_filter.Outcome.{ok, error_parse}
use smtp_nel_filter.Mime.Chars.{is_wsp, is_tspecials, is_token}
use smtp_nel_filter.Mime.Scan.{toupper, strncasecmp_eq, advance, token_case_insensitive_len_parse}
use smtp_nel_filter.Mime.Space.Plain.{is_plain, unstrict_char-first, unstrict_char-mismatch}
use smtp_nel_filter.Mime.Words.{c_string}
use smtp_nel_filter.Mime.Lists.{list_loop}
use smtp_nel_filter.Mime.Lists.Grammar.{IsClist, behind, loop-Elements, list-multiple}
use smtp_nel_filter.Mime.Lists.Print.{
  Notation, Each, print_behind, values, length-values, Elements-print,
}
use smtp_nel_filter.Address.{Env}
use smtp_nel_filter.Address.Text.{IsEnv}
use smtp_nel_filter.Address.Ends.{cfws-crlf}
use smtp_nel_filter.Fields.RoundTrip.{crlf-at}
use smtp_nel_filter.Content.{keyword_parse}
use smtp_nel_filter.Content.Parameters.{print_value, value-print, cfws-value}
use smtp_nel_filter.Content.Disposition.{
  disposition_inline, disposition_attachment, filename_parm, DispositionEngine, guess_letter,
  disposition_guess_type, filename_parm_parse, parm_value, disposition_parm_new,
  disposition_parm_parse, disposition_type_parse, disposition_value,
}

abbrev pub print_filename : Bytes → Bytes → Bytes
print_filename value rest = codes "filename" ++ b'=' ∷ print_value value rest

-- A keyword is there: at least as many bytes follow as it has.
filename-here : (rest : Bytes) → keyword_parse "filename" tt (codes "filename" ++ rest) ≡ ok tt rest
unfolding token_case_insensitive_len_parse strncasecmp_eq toupper advance
filename-here rest =
    let enough : ltb (length (codes "filename" ++ rest)) 8 ≡ false = ground arith in rw enough refl

attachment-here :
    (rest : Bytes)
    → (keyword_parse "inline" disposition_inline (codes "attachment" ++ rest) ≡ error_parse)
      × (keyword_parse "attachment" disposition_attachment (codes "attachment" ++ rest)
          ≡ ok disposition_attachment rest)
unfolding token_case_insensitive_len_parse strncasecmp_eq toupper advance
attachment-here rest =
    let six : ltb (length (codes "attachment" ++ rest)) 6 ≡ false = ground arith in
    let ten : ltb (length (codes "attachment" ++ rest)) 10 ≡ false = ground arith in
    (rw six refl, rw ten refl)

module _ (env : Env) (law : IsEnv env) (engine : DispositionEngine)
    (memory : engine.alloc_dsp_parm ≡ true) where
  pub parm-print :
      (value : Bytes) (c : ℕ) (s : Bytes)
      → length value < env.fuel
      → is_token c ≡ false
      → disposition_parm_parse env engine (print_filename value (c ∷ s))
        ≡ ok (filename_parm (c_string value)) (c ∷ s)
  unfolding disposition_parm_parse disposition_guess_type guess_letter toupper parm_value
      filename_parm_parse disposition_parm_new
  parm-print value c s size stop =
      let rest = print_value value (c ∷ s) in
      rw
        (
          cfws-value env law env.fuel b'f' (codes "ilename" ++ b'=' ∷ rest)
              (unfold is_plain in refl) (omega arith),
          filename-here (b'=' ∷ rest),
          unstrict_char-first env.fuel b'=' rest (omega arith) (unfold is_plain in refl),
          value-print env law value c s size stop,
          memory,
        )
        refl

  abbrev pub filename_notation : Notation Bytes (disposition_parm_parse env engine)
  filename_notation = record {
    print = print_filename;
    value = λ value. filename_parm (c_string value);
    Valid = λ value. length value < env.fuel;
    Ends = λ c s. is_token c ≡ false;
    parse-print = parm-print;
  }

  type-print :
      (rest : Bytes)
      → 0 < env.fuel
      → engine.alloc_dsp_type ≡ true
      → disposition_type_parse env engine (codes "attachment" ++ rest)
        ≡ ok disposition_attachment rest
  unfolding disposition_type_parse
  type-print rest positive granted =
      let (no_inline, attachment) = attachment-here rest in
      rw
        (
          cfws-value env law env.fuel b'a' (codes "ttachment" ++ rest) (unfold is_plain in refl)
              positive,
          no_inline,
          attachment,
          granted,
        )
        refl

  parms-print :
      (files : List Bytes) (c : ℕ) (s : Bytes)
      → IsClist engine.parms
      → Each (λ value. length value < env.fuel) files
      → length files < env.fuel
      → is_wsp c ≡ false
      → list_loop engine.parms env.fuel b';'
          (disposition_parm_parse env engine)
          env.fuel
          []
          (print_behind b';' print_filename files (b'\r' ∷ b'\n' ∷ c ∷ s))
        ≡ ok (values (λ value. filename_parm (c_string value)) files) (b'\r' ∷ b'\n' ∷ c ∷ s)
  parms-print files c s lists short size end =
      let parser = disposition_parm_parse env engine in
      let positive : 0 < env.fuel = omega arith in
      list-multiple engine.parms lists env.fuel b';' parser env.fuel []
        (print_behind b';' print_filename files (b'\r' ∷ b'\n' ∷ c ∷ s))
      ∙ loop-Elements engine.parms lists (behind env.fuel b';' parser) env.fuel []
          (Elements-print engine.parms lists env.fuel b';' parser filename_notation positive
            (unfold is_plain in refl) (λ r. unfold is_token is_tspecials in refl) b'\r'
            (b'\n' ∷ c ∷ s) (unfold is_token is_tspecials in refl)
            (unstrict_char-mismatch env.fuel b';' b'\r' (b'\n' ∷ c ∷ s)
              (cfws-crlf env.fuel c s end positive) refl)
            files short)
          (omega (arith, length-values (λ value. filename_parm (c_string value)) files))

  -- smtp_mime_disposition_parse, before it shows the field to the engine, reads the file names of an
  -- attachment back, each behind a semicolon, as a token or quoted, up to its first NUL, and the
  -- line end, which no white space follows. Memory and the pools last, and the fuel is above the
  -- number of the names and their lengths.
  pub disposition_value-print :
      (files : List Bytes) (c : ℕ) (s : Bytes)
      → IsClist engine.parms
      → Each (λ value. length value < env.fuel) files
      → length files < env.fuel
      → is_wsp c ≡ false
      → engine.alloc_dsp_type ≡ true
      → engine.alloc_disposition ≡ true
      → disposition_value env engine
          (codes "attachment" ++ print_behind b';' print_filename files (b'\r' ∷ b'\n' ∷ c ∷ s))
        ≡ ok
            (record {
              dsp_type = disposition_attachment;
              dsp_parms = values (λ value. filename_parm (c_string value)) files;
              err_cnt = 0;
            })
            (c ∷ s)
  unfolding disposition_value
  disposition_value-print files c s lists short size end type_granted granted =
      simp lists.new-empty (
        rw
          (
            type-print (print_behind b';' print_filename files (b'\r' ∷ b'\n' ∷ c ∷ s))
                (omega arith) type_granted,
            parms-print files c s lists short size end,
            crlf-at env.fuel c s (omega arith) end,
            granted,
          )
          refl)
