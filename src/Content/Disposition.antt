-- ===== src/Content/Disposition.antt =====
-- The Content-Disposition field: src/disposition.c.
pub mod RoundTrip
pub mod Build
use smtp_nel_filter.Prelude.{
  ℕ, Bool, true, false, ◌==◌, if◌then◌else◌, Option, none, some, List, [], ◌∷◌, Bytes,
}
use smtp_nel_filter.Outcome.{
  Outcome, ok, error_memory, fault, Parser, bind, lenient, or_else, ◌>>=◌, ◌>>◌,
}
use smtp_nel_filter.Mime.Scan.{toupper, number_parse}
use smtp_nel_filter.Mime.Space.{cfws_parse, unstrict_char_parse, unstrict_crlf_parse}
use smtp_nel_filter.Mime.Words.{quoted_string_parse}
use smtp_nel_filter.Mime.Lists.{Clist, appended, list_loop}
use smtp_nel_filter.Mime.Tokens.{mime_value_parse, mime_extension_token_parse}
use smtp_nel_filter.Address.{Env}
use smtp_nel_filter.Fields.Policy.{Verdict, shown}
use smtp_nel_filter.Content.{MimeParameter, keyword_parse, mime_parameter_parse}
use smtp_nel_filter.Content.Kind.{pool_new}

pub data DispositionType : Type 0 where
  disposition_inline disposition_attachment : DispositionType
  disposition_extension : Bytes → DispositionType

pub data DispositionParm : Type 0 where
  filename_parm creation_date_parm modification_date_parm read_date_parm : Bytes → DispositionParm
  size_parm : ℕ → DispositionParm
  parameter_parm : MimeParameter → DispositionParm

pub record Disposition : Type 0 where
  pub dsp_type : DispositionType
  pub dsp_parms : List DispositionParm
  pub err_cnt : ℕ

-- The pools' answers, the lists of parameters, and nel_env_analysis.
pub record DispositionEngine : Type 0 where
  pub alloc_disposition : Bool
  pub alloc_dsp_parm : Bool
  pub alloc_dsp_type : Bool
  pub parms : Clist DispositionParm
  pub analysis_disposition : Disposition → ℕ → Option ℕ

pub data GuessedType : Type 0 where
  guess_filename guess_creation_date guess_modification_date guess_read_date guess_size
        guess_parameter :
      GuessedType

unfoldable pub guess_letter : ℕ → GuessedType
guess_letter c =
    if c == b'F'
    then guess_filename
    else (if c == b'C'
        then guess_creation_date
        else (if c == b'M'
            then guess_modification_date
            else (if c == b'R'
                then guess_read_date
                else (if c == b'S' then guess_size else guess_parameter))))

unfoldable pub disposition_guess_type : Bytes → GuessedType
disposition_guess_type [] = guess_parameter
disposition_guess_type (c ∷ s) = guess_letter (toupper c)

unfoldable pub filename_parm_parse : Env → Parser Bytes
filename_parm_parse env = do
  keyword_parse "filename" tt
  unstrict_char_parse env.fuel b'='
  mime_value_parse env.platform env.mmap_string env.fuel

abbrev pub quoted_date_time_parse : Env → Parser Bytes
quoted_date_time_parse env = quoted_string_parse env.platform env.mmap_string env.fuel

unfoldable pub creation_date_parm_parse : Env → Parser Bytes
creation_date_parm_parse env = do
  keyword_parse "creation-date" tt
  unstrict_char_parse env.fuel b'='
  quoted_date_time_parse env

unfoldable pub modification_date_parm_parse : Env → Parser Bytes
modification_date_parm_parse env = do
  keyword_parse "modification-date" tt
  unstrict_char_parse env.fuel b'='
  quoted_date_time_parse env

unfoldable pub read_date_parm_parse : Env → Parser Bytes
read_date_parm_parse env = do
  keyword_parse "read-date" tt
  unstrict_char_parse env.fuel b'='
  quoted_date_time_parse env

unfoldable pub size_parm_parse : Env → Parser ℕ
size_parm_parse env = do keyword_parse "size" tt; unstrict_char_parse env.fuel b'='; number_parse

abbrev pub kept : {A : Type 0} → (A → DispositionParm) → Outcome A → Outcome DispositionParm
kept parm o = bind o λ value rest. ok (parm value) rest

-- The `switch` on the guess; a mismatch leaves `type` at a plain parameter, which is tried then.
unfoldable pub parm_value :
    Env → GuessedType → Bytes → Outcome DispositionParm → Outcome DispositionParm
parm_value env guess_filename s parameter =
    or_else (kept filename_parm (filename_parm_parse env s)) parameter
parm_value env guess_creation_date s parameter =
    or_else (kept creation_date_parm (creation_date_parm_parse env s)) parameter
parm_value env guess_modification_date s parameter =
    or_else (kept modification_date_parm (modification_date_parm_parse env s)) parameter
parm_value env guess_read_date s parameter =
    or_else (kept read_date_parm (read_date_parm_parse env s)) parameter
parm_value env guess_size s parameter = or_else (kept size_parm (size_parm_parse env s)) parameter
parm_value env guess_parameter s parameter = parameter

-- `free:` reads `dsp_parm`, which is null there, unless there is only a size.
unfoldable pub lost_parm : DispositionParm → Outcome DispositionParm
lost_parm (filename_parm value) = fault
lost_parm (creation_date_parm value) = fault
lost_parm (modification_date_parm value) = fault
lost_parm (read_date_parm value) = fault
lost_parm (size_parm value) = error_memory
lost_parm (parameter_parm value) = fault

unfoldable pub disposition_parm_new : DispositionEngine → DispositionParm → Parser DispositionParm
disposition_parm_new engine parm s = if engine.alloc_dsp_parm then ok parm s else lost_parm parm

unfoldable pub disposition_parm_parse : Env → DispositionEngine → Parser DispositionParm
disposition_parm_parse env engine s = bind (lenient (cfws_parse env.fuel s) s) λ _ here.
    bind
      (parm_value env (disposition_guess_type here) here
        (kept parameter_parm (mime_parameter_parse env here)))
      (disposition_parm_new engine)

unfoldable pub disposition_type_parse : Env → DispositionEngine → Parser DispositionType
disposition_type_parse env engine s = bind (lenient (cfws_parse env.fuel s) s) λ _ here.
    bind
      (or_else (keyword_parse "inline" disposition_inline here) (
        or_else (keyword_parse "attachment" disposition_attachment here) (
          bind (mime_extension_token_parse env.platform here)
            λ extension rest. ok (disposition_extension extension) rest)))
      (pool_new engine.alloc_dsp_type)

-- Up to smtp_mime_disposition_new. The loop is that of smtp_struct_list_parse behind its first
-- element.
unfoldable pub disposition_value : Env → DispositionEngine → Parser Disposition
disposition_value env engine s = bind (disposition_type_parse env engine s) λ type here.
    bind (appended engine.parms.new here) λ list first.
      bind
        (list_loop engine.parms env.fuel b';' (disposition_parm_parse env engine) env.fuel list
          first)
        λ parms end. bind (unstrict_crlf_parse env.fuel end) λ _.
          pool_new engine.alloc_disposition
            (record { dsp_type = type; dsp_parms = parms; err_cnt = 0 })

unfoldable pub disposition_parse : Env → DispositionEngine → ℕ → Bytes → Verdict Disposition × ℕ
disposition_parse env engine permit s =
    shown engine.analysis_disposition permit (disposition_value env engine s)

-- The first file name.
unfoldable pub get_attachment_file : List DispositionParm → Option Bytes
get_attachment_file [] = none
get_attachment_file (filename_parm value ∷ parms) = some value
get_attachment_file (creation_date_parm value ∷ parms) = get_attachment_file parms
get_attachment_file (modification_date_parm value ∷ parms) = get_attachment_file parms
get_attachment_file (read_date_parm value ∷ parms) = get_attachment_file parms
get_attachment_file (size_parm value ∷ parms) = get_attachment_file parms
get_attachment_file (parameter_parm value ∷ parms) = get_attachment_file parms
