-- ===== src/Content/Kind/Defaults.antt =====
-- The content types that src/content-type.c makes itself, and what it asks of a content type. A null
-- pointer that is read is `none`; what is printed is left out.
use smtp_nel_filter.Prelude.{
  Bool, true, false, ◌==◌, if◌then◌else◌, Option, none, some, List, [], ◌∷◌, Bytes, codes,
}
use smtp_nel_filter.Platform.{Platform}
use smtp_nel_filter.Content.{MimeParameter}
use smtp_nel_filter.Content.Kind.{
  discrete_text, discrete_image, discrete_audio, discrete_video, discrete_application,
  discrete_extension, DiscreteType, composite_message, MimeType, discrete_type, composite_type,
  ContentType, ContentEngine,
}
use smtp_nel_filter.Content.Kind.Part.{
  BodyType, mime_none, mime_single, mime_multiple, mime_message, content_type_param_get,
  get_body_type,
}

-- The list, the copy of the subtype, and the structure.
unfoldable pub content_type_of : ContentEngine → MimeType → Bytes → Bool → Option ContentType
content_type_of engine type subtype granted = elim engine.parameters.new [
  | none ↦ none
  | some list ↦
      if granted
      then (if engine.alloc_content_type
          then some (record {
            ct_type = some type;
            ct_subtype = some subtype;
            ct_parameters = list;
            err_cnt = 0;
          })
          else none)
      else none
]

unfoldable pub get_content_type_of_text : Platform → ContentEngine → Option ContentType
get_content_type_of_text platform engine =
    if engine.alloc_discrete_type
    then (if engine.alloc_mime_type
        then content_type_of engine (discrete_type discrete_text) (codes "plain")
            (platform.malloc 6)
        else none)
    else none

unfoldable pub get_content_type_of_message : Platform → ContentEngine → Option ContentType
get_content_type_of_message platform engine =
    if engine.alloc_composite_type
    then (if engine.alloc_mime_type
        then content_type_of engine (composite_type composite_message) (codes "rfc822")
            (platform.malloc 7)
        else none)
    else none

unfoldable pub get_charset_of_content_type : List MimeParameter → Option Bytes
get_charset_of_content_type = content_type_param_get (codes "charset")

unfoldable pub is_text : DiscreteType → Bool
is_text discrete_text = true
is_text discrete_image = false
is_text discrete_audio = false
is_text discrete_video = false
is_text discrete_application = false
is_text (discrete_extension extension) = false

unfoldable pub discrete_text_type : Option MimeType → Option Bool
discrete_text_type none = none
discrete_text_type (some (discrete_type type)) = some (is_text type)
discrete_text_type (some (composite_type type)) = some false

unfoldable pub is_discrete_text : ContentType → Option Bool
is_discrete_text content = discrete_text_type content.ct_type

-- A null pointer, or a string of no bytes.
unfoldable pub is_blank : Option Bytes → Bool
is_blank none = true
is_blank (some []) = true
is_blank (some (c ∷ s)) = c == 0

unfoldable pub null_charset : List MimeParameter → Option Bool → Option Bool
null_charset parameters none = none
null_charset parameters (some text) =
    some (if text then is_blank (get_charset_of_content_type parameters) else false)

unfoldable pub null_charset_content_type : ContentType → Option Bool
null_charset_content_type content = null_charset content.ct_parameters (is_discrete_text content)

unfoldable pub same_body : BodyType → BodyType → Bool
same_body mime_none mime_none = true
same_body mime_single mime_single = true
same_body mime_multiple mime_multiple = true
same_body mime_message mime_message = true
same_body _ _ = false

abbrev pub tested : BodyType → Option BodyType → Option Bool
tested kind none = none
tested kind (some type) = some (same_body type kind)

unfoldable pub single_body_type : Option ContentType → Option Bool
single_body_type content = tested mime_single (get_body_type content)

unfoldable pub multiple_body_type : Option ContentType → Option Bool
multiple_body_type content = tested mime_multiple (get_body_type content)

unfoldable pub message_body_type : Option ContentType → Option Bool
message_body_type content = tested mime_message (get_body_type content)
