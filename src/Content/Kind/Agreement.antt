-- ===== src/Content/Kind/Agreement.antt =====
-- What a part is said to be, by the parser and by get_body_type; and boundaries that do not fit.
use smtp_nel_filter.Prelude.{
  ◌+◌, ◌≤◌, true, false, ◌==◌, ltb, Bool-cases, ◌⊎◌, inl, inr, Option, none, some, [], ◌∷◌, Bytes,
  codes, ◌≡◌, refl, sym, ap, arith, length,
}
use smtp_nel_filter.Platform.{Platform}
use smtp_nel_filter.Content.Kind.{
  composite_message, composite_multipart, MimeType, discrete_type, composite_type, ContentType,
}
use smtp_nel_filter.Content.Kind.Part.{
  BodyType, mime_single, mime_multiple, Part, content_type_param_get, Extracted, extracted,
  undefined_boundary, unquoted, copied_boundary, extract_boundary, classified, undefined,
  store_boundary, message_kind, message_part, with_type, classify_type, classify, type_kind,
  get_body_type,
}

-- What the parser and get_body_type may say.
abbrev pub Agrees : Option BodyType → Part → Type 0
Agrees kind now =
    (kind ≡ some now.body_type)
    ⊎ ((kind ≡ some mime_multiple) × (now.body_type ≡ mime_single) × (now.boundary ≡ none))

classified-eq : {a b : Part} → classified a ≡ classified b → a ≡ b
classified-eq e = cc

message-Agrees :
    (part : Part) (kind : Option BodyType) {now : Part}
    → message_part part kind ≡ classified now
    → Agrees kind now
unfolding message_part
message-Agrees part none e = cc
message-Agrees part (some kind) e = inl (ap (λ p. some p.body_type) (classified-eq e))

boundary-Agrees :
    (platform : Platform) (part : Part) (boundary : Extracted) {now : Part}
    → store_boundary platform part boundary ≡ classified now
    → Agrees (some mime_multiple) now
unfolding store_boundary
boundary-Agrees platform part (extracted none) e =
    let same = classified-eq e in
    inr (refl, sym (ap (λ p. p.body_type) same), sym (ap (λ p. p.boundary) same))
boundary-Agrees platform part (extracted (some b)) e = elim (Bool-cases (ltb 128 (length b))) [
  | inl long ↦ let e' = rw long at e in cc
  | inr short ↦ elim (Bool-cases (ltb (length b + 2) 129)) [
    | inl fits ↦ inl (ap (λ p. some p.body_type) (classified-eq (rw (short, fits) at e)))
    | inr overflows ↦ let e' = rw (short, overflows) at e in cc
  ]
]
boundary-Agrees platform part undefined_boundary e = cc

type-Agrees :
    (platform : Platform) (content : ContentType) (part : Part) (type : Option MimeType)
    {now : Part}
    → classify_type platform content part type ≡ classified now
    → Agrees (type_kind content type) now
unfolding classify_type type_kind
type-Agrees platform content part none e = cc
type-Agrees platform content part (some (discrete_type type)) e =
    message-Agrees part (some mime_single) e
type-Agrees platform content part (some (composite_type composite_multipart)) e =
    boundary-Agrees platform (with_type content part)
      (extract_boundary platform content.ct_parameters) e
type-Agrees platform content part (some (composite_type composite_message)) e =
    message-Agrees (with_type content part) (message_kind content.ct_subtype) e

-- Where smtp_mime_content_type_parse classifies a part, get_body_type says the same of its type,
-- but for a multipart without a boundary, which the parser takes for a single part.
pub classify-Agrees :
    (platform : Platform) (content : ContentType) (part : Part) {now : Part}
    → classify platform content part ≡ classified now
    → Agrees (get_body_type (some content)) now
unfolding classify get_body_type
classify-Agrees platform content part e = type-Agrees platform content part content.ct_type e

-- It starts with no quote.
abbrev pub Unquoted : Bytes → Type 0
Unquoted [] = Unit
Unquoted (c ∷ s) = (c == b'"') ≡ false

unquoted-same : (b : Bytes) → Unquoted b → unquoted b ≡ extracted (some b)
unfolding unquoted
unquoted-same [] h = refl
unquoted-same (c ∷ []) h = rw h refl
unquoted-same (c ∷ d ∷ s) h = rw h refl

-- The boundary of a multipart is written into an array of 129 bytes with two dashes and a NUL. One
-- of 127 or 128 bytes passes the check of its length, and the NUL is written behind the array. The
-- boundary starts with no quote, and memory for its copy is granted.
pub classify-overflow :
    (platform : Platform) (content : ContentType) (part : Part) (b : Bytes)
    → content.ct_type ≡ some (composite_type composite_multipart)
    → content_type_param_get (codes "boundary") content.ct_parameters ≡ some b
    → Unquoted b
    → platform.malloc (length b + 1) ≡ true
    → 127 ≤ length b
    → length b ≤ 128
    → classify platform content part ≡ undefined
unfolding classify classify_type extract_boundary copied_boundary store_boundary
classify-overflow platform content part b type found no_quote memory above below =
    let short : ltb 128 (length b) ≡ false = ground arith in
    let overflows : ltb (length b + 2) 129 ≡ false = ground arith in
    rw (type, found, memory, unquoted-same b no_quote, short, overflows) refl
