-- ===== src/Tests/Content.antt =====
-- MIME fields on concrete inputs.
use smtp_nel_filter.Prelude.{◌≡◌, refl, arith, true, none, some, [], ◌∷◌, Bytes, codes}
use smtp_nel_filter.Outcome.{ok}
use smtp_nel_filter.Platform.{lp64}
use smtp_nel_filter.Mime.Scan.{toupper}
use smtp_nel_filter.Mime.Chars.{is_wsp, is_qtext, is_tspecials, is_token}
use smtp_nel_filter.Mime.Words.{c_string}
use smtp_nel_filter.Mime.Words.Quoted.{quote}
use smtp_nel_filter.Content.{mime_parameter_parse}
use smtp_nel_filter.Content.Parameters.{is_visible, is_name, mime_parameter_parse-print}
use smtp_nel_filter.Content.Kind.{
  composite_message, composite_multipart, composite_type, ContentType,
}
use smtp_nel_filter.Content.Kind.Part.{
  mime_none, mime_message, Part, strcasecmp_eq, content_type_param_get, classified, undefined,
  message_kind, message_part, classify_type, classify, get_body_type,
}
use smtp_nel_filter.Content.Kind.Agreement.{Agrees, classify-Agrees, classify-overflow}
use smtp_nel_filter.Content.Disposition.{
  disposition_attachment, filename_parm, DispositionEngine, disposition_value,
}
use smtp_nel_filter.Content.Disposition.RoundTrip.{disposition_value-print}
use smtp_nel_filter.Content.Disposition.{Disposition, get_attachment_file}
use smtp_nel_filter.Content.Disposition.Build.{
  no_size, disposition_new_with_data, SingleFields, disposition_single_fields_init, IsGiving,
  single_fields_init-new_with_data,
}
use smtp_nel_filter.Tests.Address.{endless, endless-IsClist, plenty, plenty-IsEnv}

mime_parameter_parse-print_example :
    mime_parameter_parse plenty (codes "boundary=\"a\\ b\";")
    ≡ ok (record { pa_name = codes "boundary"; pa_value = codes "a b" }) (codes ";")
unfolding is_qtext is_tspecials is_token is_visible is_name quote c_string
mime_parameter_parse-print_example =
    mime_parameter_parse-print plenty plenty-IsEnv (codes "boundary") (codes "a b") b';' [] refl
      (omega arith) refl

-- message/rfc822
abbrev mail : ContentType
mail = record {
  ct_type = some (composite_type composite_message);
  ct_subtype = some (codes "RFC822");
  ct_parameters = [];
  err_cnt = 0;
}

abbrev fresh : Part
fresh = record { body_type = mime_none; content_type = none; boundary = none }

mail-classified :
    classify lp64 mail fresh
    ≡ classified (record { body_type = mime_message; content_type = some mail; boundary = none })
unfolding classify classify_type message_kind message_part strcasecmp_eq toupper
mail-classified = refl

classify-Agrees_example :
    Agrees
      (get_body_type (some mail))
      (record { body_type = mime_message; content_type = some mail; boundary = none })
classify-Agrees_example = classify-Agrees lp64 mail fresh mail-classified

-- A boundary of 127 bytes.
abbrev long : Bytes
long =
    codes
      "xxxxxxxxxxxxxxxxxxxxxxxxxxxxxxxxxxxxxxxxxxxxxxxxxxxxxxxxxxxxxxxxxxxxxxxxxxxxxxxxxxxxxxxxxxxxxxxxxxxxxxxxxxxxxxxxxxxxxxxxxxxxxxx"

abbrev mixed : ContentType
mixed = record {
  ct_type = some (composite_type composite_multipart);
  ct_subtype = some (codes "mixed");
  ct_parameters = record { pa_name = codes "Boundary"; pa_value = long } ∷ [];
  err_cnt = 0;
}

classify-overflow_example : classify lp64 mixed fresh ≡ undefined
unfolding content_type_param_get strcasecmp_eq toupper
classify-overflow_example =
    classify-overflow lp64 mixed fresh long refl refl refl refl (omega arith) (omega arith)

abbrev granting : DispositionEngine
granting = record {
  alloc_disposition = true;
  alloc_dsp_parm = true;
  alloc_dsp_type = true;
  parms = endless;
  analysis_disposition = λ disposition permit. some permit;
}

disposition_value-print_example :
    disposition_value plenty granting (codes "attachment;filename=a.exe;filename=\"b\\ c\"\r\nX")
    ≡ ok
        (record {
          dsp_type = disposition_attachment;
          dsp_parms = filename_parm (codes "a.exe") ∷ filename_parm (codes "b c") ∷ [];
          err_cnt = 0;
        })
        (codes "X")
unfolding is_qtext is_tspecials is_token is_visible is_name quote c_string is_wsp
disposition_value-print_example =
    disposition_value-print plenty plenty-IsEnv granting refl (codes "a.exe" ∷ codes "b c" ∷ [])
      b'X' [] endless-IsClist (omega arith, (omega arith, tt)) (omega arith) refl refl refl

granting-IsGiving : IsGiving granting
granting-IsGiving = record {
  gives_type = refl;
  gives_parm = refl;
  gives_disposition = refl;
  lists = endless-IsClist;
}

abbrev blank_fields : SingleFields
blank_fields = record {
  fld_disposition = none;
  fld_disposition_filename = none;
  fld_disposition_creation_date = none;
  fld_disposition_modification_date = none;
  fld_disposition_read_date = some (codes "then");
  fld_disposition_size = no_size;
}

single_fields_init-new_with_data_example :
    (d : Disposition) × (disposition_new_with_data granting disposition_attachment
        (some (codes "a.exe"))
        none
        (some (codes "now"))
        none
        7
      ≡ some d)
    × (disposition_single_fields_init blank_fields d ≡ record {
      fld_disposition = some d;
      fld_disposition_filename = some (codes "a.exe");
      fld_disposition_creation_date = none;
      fld_disposition_modification_date = some (codes "now");
      fld_disposition_read_date = some (codes "then");
      fld_disposition_size = 7;
    })
    × (get_attachment_file d.dsp_parms ≡ some (codes "a.exe"))
single_fields_init-new_with_data_example =
    single_fields_init-new_with_data granting granting-IsGiving disposition_attachment
      (some (codes "a.exe")) none (some (codes "now")) none 7 blank_fields
