-- ===== src/Content/Kind/Part.antt =====
-- What smtp_mime_content_type_parse of src/content-type.c notes in the current part: the kind of its
-- body and the boundary between its parts.
use smtp_nel_filter.Prelude.{
  ℕ, ◌+◌, Bool, true, false, ◌&&◌, ◌==◌, ltb, if◌then◌else◌, Option, none, some, List, [], ◌∷◌,
  Bytes, codes, length, take,
}
use smtp_nel_filter.Outcome.{
  Outcome, ok, error_parse, error_continue, error_memory, out_of_fuel, fault,
}
use smtp_nel_filter.Platform.{Platform}
use smtp_nel_filter.Mime.Scan.{toupper}
use smtp_nel_filter.Address.{Env}
use smtp_nel_filter.Fields.Policy.{Verdict, returns, shown}
use smtp_nel_filter.Content.{MimeParameter}
use smtp_nel_filter.Content.Kind.{
  composite_message, composite_multipart, MimeType, discrete_type, composite_type, ContentType,
  ContentEngine, content_value,
}

pub data BodyType : Type 0 where
  mime_none mime_single mime_multiple mime_message : BodyType

-- The fields of a part that this file writes.
pub record Part : Type 0 where
  pub body_type : BodyType
  pub content_type : Option ContentType
  pub boundary : Option Bytes

-- `strcasecmp (a, b) == 0`
unfoldable pub strcasecmp_eq : Bytes → Bytes → Bool
strcasecmp_eq [] [] = true
strcasecmp_eq [] (y ∷ b) = false
strcasecmp_eq (x ∷ a) [] = false
strcasecmp_eq (x ∷ a) (y ∷ b) = toupper x == toupper y && strcasecmp_eq a b

unfoldable pub content_type_param_get : Bytes → List MimeParameter → Option Bytes
content_type_param_get name [] = none
content_type_param_get name (parameter ∷ parameters) =
    let more = content_type_param_get name parameters in
    if strcasecmp_eq parameter.pa_name name then some parameter.pa_value else more

-- `undefined_boundary`: strncpy is given the length -1.
pub data Extracted : Type 0 where
  extracted : Option Bytes → Extracted
  undefined_boundary : Extracted

-- A boundary that starts with a quote is taken for a quoted one.
unfoldable pub unquoted : Bytes → Extracted
unquoted [] = extracted (some [])
unquoted (c ∷ []) = if c == b'"' then undefined_boundary else extracted (some (c ∷ []))
unquoted (c ∷ d ∷ s) =
    if c == b'"' then extracted (some (take (length s) (d ∷ s))) else extracted (some (c ∷ d ∷ s))

unfoldable pub copied_boundary : Platform → Option Bytes → Extracted
copied_boundary platform none = extracted none
copied_boundary platform (some boundary) =
    if platform.malloc (length boundary + 1) then unquoted boundary else extracted none

unfoldable pub extract_boundary : Platform → List MimeParameter → Extracted
extract_boundary platform parameters =
    copied_boundary platform (content_type_param_get (codes "boundary") parameters)

-- SMTP_ERROR_BUFFER is `too_long`; `undefined` is undefined behaviour.
pub data Classified : Type 0 where
  classified : Part → Classified
  too_long : Part → Classified
  undefined : Classified

-- `bound_buf` has 129 bytes, for two dashes, the boundary and a NUL.
unfoldable pub store_boundary : Platform → Part → Extracted → Classified
store_boundary platform part (extracted none) =
    classified
      (record { body_type = mime_single; content_type = part.content_type; boundary = none })
store_boundary platform part (extracted (some boundary)) =
    if ltb 128 (length boundary)
    then too_long (record {
      body_type = part.body_type;
      content_type = part.content_type;
      boundary = some boundary;
    })
    else (if ltb (length boundary + 2) 129
        then classified (record {
          body_type = mime_multiple;
          content_type = part.content_type;
          boundary =
              if platform.malloc (length boundary + 2 + 1)
              then some (b'-' ∷ b'-' ∷ boundary)
              else none;
        })
        else undefined)
store_boundary platform part undefined_boundary = undefined

-- The body of a message/rfc822 part is a message.
unfoldable pub message_kind : Option Bytes → Option BodyType
message_kind none = none
message_kind (some subtype) =
    some (if strcasecmp_eq subtype (codes "rfc822") then mime_message else mime_single)

unfoldable pub message_part : Part → Option BodyType → Classified
message_part part none = undefined
message_part part (some body_type) =
    classified
      (record { body_type = body_type; content_type = part.content_type; boundary = part.boundary })

-- The part with the content type; a discrete type is not noted in it.
abbrev pub with_type : ContentType → Part → Part
with_type content part = record {
  body_type = part.body_type;
  content_type = some content;
  boundary = part.boundary;
}

unfoldable pub classify_type : Platform → ContentType → Part → Option MimeType → Classified
classify_type platform content part none = undefined
classify_type platform content part (some (discrete_type type)) =
    message_part part (some mime_single)
classify_type platform content part (some (composite_type composite_multipart)) =
    store_boundary platform (with_type content part)
      (extract_boundary platform content.ct_parameters)
classify_type platform content part (some (composite_type composite_message)) =
    message_part (with_type content part) (message_kind content.ct_subtype)

unfoldable pub classify : Platform → ContentType → Part → Classified
classify platform content part = classify_type platform content part content.ct_type

-- get_body_type and get_body_type_from_content_type, with `none` for a null pointer that is read.
unfoldable pub type_kind : ContentType → Option MimeType → Option BodyType
type_kind content none = none
type_kind content (some (discrete_type type)) = some mime_single
type_kind content (some (composite_type composite_multipart)) = some mime_multiple
type_kind content (some (composite_type composite_message)) = message_kind content.ct_subtype

unfoldable pub get_body_type : Option ContentType → Option BodyType
get_body_type none = some mime_none
get_body_type (some content) = type_kind content content.ct_type

-- The codes of the whole field.
pub data ContentAnswer : Type 0 where
  answers : Verdict ContentType → ContentAnswer
  error_buffer : ContentAnswer

abbrev pub answered : Part → Verdict ContentType × ℕ → ContentAnswer × Part × ℕ
answered part (verdict, permit) = (answers verdict, part, permit)

-- Behind smtp_mime_content_type_new: the part, the engine and `permit`.
unfoldable pub content_decide :
    ContentEngine → ContentType → Bytes → Part → ℕ → Classified → ContentAnswer × Part × ℕ
content_decide engine content rest part permit (classified now) =
    answered now (shown engine.analysis_content_type permit (ok content rest))
content_decide engine content rest part permit (too_long now) = (error_buffer, now, permit)
content_decide engine content rest part permit undefined = (answers (returns fault), part, permit)

unfoldable pub content_answer :
    Platform → ContentEngine → Part → ℕ → Outcome ContentType → ContentAnswer × Part × ℕ
content_answer platform engine part permit (ok content rest) =
    content_decide engine content rest part permit (classify platform content part)
content_answer platform engine part permit error_parse =
    (answers (returns error_parse), part, permit)
content_answer platform engine part permit error_continue =
    (answers (returns error_continue), part, permit)
content_answer platform engine part permit error_memory =
    (answers (returns error_memory), part, permit)
content_answer platform engine part permit out_of_fuel =
    (answers (returns out_of_fuel), part, permit)
content_answer platform engine part permit fault = (answers (returns fault), part, permit)

unfoldable pub mime_content_type_parse :
    Env → ContentEngine → Part → ℕ → Bytes → ContentAnswer × Part × ℕ
mime_content_type_parse env engine part permit s =
    content_answer env.platform engine part permit (content_value env engine s)
