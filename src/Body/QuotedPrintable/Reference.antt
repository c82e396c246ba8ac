-- ===== src/Body/QuotedPrintable/Reference.antt =====
-- What a quoted-printable text means, read from left to right with no buffer: the description that
-- the state machine of src/body.c is compared with.
use smtp_nel_filter.Prelude.{
  ℕ, ◌≡◌, refl, Bool, ◌&&◌, [], ◌∷◌, ◌++◌, Bytes, ◌==◌, if◌then◌else◌, length, arith, false,
  Bool-cases, inl, inr,
}
use smtp_nel_filter.Outcome.{
  Outcome, ok, error_parse, error_continue, error_memory, out_of_fuel, fault, bind,
}
use mathlib.Core.List.{append_assoc}
use smtp_nel_filter.Body.QuotedPrintable.{to_char, Decoded}

-- A byte that neither is "=" nor ends a line.
abbrev pub IsPlain : ℕ → Type 0
IsPlain c = ((c == b'=') ≡ false) × ((c == 10) ≡ false) × ((c == 13) ≡ false)

-- What the state machine tells apart.
pub data Kind (c : ℕ) : Type 0 where
  equals : c ≡ b'=' → Kind c
  feed : c ≡ 10 → Kind c
  return : c ≡ 13 → Kind c
  other : IsPlain c → Kind c

pub Kind-total : (c : ℕ) → Kind c
Kind-total c = elim (Bool-cases (c == b'=')) [
  | inl e ↦ equals (ground arith)
  | inr e1 ↦ elim (Bool-cases (c == 10)) [
    | inl e ↦ feed (ground arith)
    | inr e2 ↦ elim (Bool-cases (c == 13)) [
      | inl e ↦ return (ground arith)
      | inr e3 ↦ other (e1, e2, e3)
    ]
  ]
]

-- Some bytes, and what the rest of the text means.
abbrev pub prepend : Bytes → Outcome Bytes → Outcome Bytes
prepend xs o = bind o λ ys. ok (xs ++ ys)

abbrev pub crlf : Bytes
crlf = 13 ∷ 10 ∷ []

-- A byte that is neither "=" nor ends a line; `in_header`, "_" is a blank.
unfoldable pub plain_char : Bool → ℕ → ℕ
plain_char in_header c = if c == b'_' && in_header then b' ' else c

unfoldable pub decode_last : Bool → ℕ → Outcome Bytes
decode_last in_header c =
    if c == 10
    then ok crlf []
    else if c == 13
    then ok [] []
    else ok (plain_char in_header c ∷ []) []

-- The last two bytes, the first of which is "=". A second byte that is pending when the text ends
-- is copied together with the byte behind the text, which is a fault.
unfoldable pub decode_escape : Bool → ℕ → Outcome Bytes
decode_escape in_header c =
    if c == 10
    then ok [] []
    else if c == 13
    then ok [] (b'=' ∷ 13 ∷ [])
    else if c == b'='
    then ok (b'=' ∷ b'=' ∷ []) []
    else if c == b'_' && in_header
    then ok (b'_' ∷ b' ' ∷ []) []
    else fault

unfoldable pub decode : Bool → Bytes → Outcome Bytes
decode in_header [] = ok [] []
decode in_header (a ∷ []) = decode_last in_header a
decode in_header (a ∷ b ∷ []) =
    let from_1 = decode in_header (b ∷ []) in
    if a == b'='
    then decode_escape in_header b
    else if a == 10
    then prepend crlf from_1
    else if a == 13
    then (if b == 10 then ok crlf [] else prepend crlf from_1)
    else prepend (plain_char in_header a ∷ []) from_1
decode in_header (a ∷ b ∷ c ∷ s) =
    let from_1 = decode in_header (b ∷ c ∷ s) in
    let from_2 = decode in_header (c ∷ s) in
    let from_3 = decode in_header s in
    if a == b'='
    then (if b == 10
        then from_2
        else if b == 13
        then (if c == 10 then from_3 else from_2)
        else prepend (to_char b c ∷ []) from_3)
    else if a == 10
    then prepend crlf from_1
    else if a == 13
    then (if b == 10 then prepend crlf from_2 else prepend crlf from_1)
    else prepend (plain_char in_header a ∷ []) from_1

pub prepend-nil : (o : Outcome Bytes) → prepend [] o ≡ o
prepend-nil (ok ys rest) = refl
prepend-nil error_parse = refl
prepend-nil error_continue = refl
prepend-nil error_memory = refl
prepend-nil out_of_fuel = refl
prepend-nil fault = refl

pub prepend-append :
    (xs ys : Bytes) (o : Outcome Bytes) → prepend xs (prepend ys o) ≡ prepend (xs ++ ys) o
prepend-append xs ys (ok zs rest) = rw (append_assoc xs ys zs)
prepend-append xs ys error_parse = refl
prepend-append xs ys error_continue = refl
prepend-append xs ys error_memory = refl
prepend-append xs ys out_of_fuel = refl
prepend-append xs ys fault = refl

-- What the parser returns, if `out` was written already.
unfoldable pub emit : Bytes → Outcome Bytes → Outcome Decoded
emit out o = bind o λ ys. ok (record { result = out ++ ys; result_len = length (out ++ ys) })

pub emit-prepend :
    (out xs : Bytes) (o : Outcome Bytes) → emit out (prepend xs o) ≡ emit (out ++ xs) o
unfolding emit
emit-prepend out xs (ok ys rest) = rw (append_assoc out xs ys)
emit-prepend out xs error_parse = refl
emit-prepend out xs error_continue = refl
emit-prepend out xs error_memory = refl
emit-prepend out xs out_of_fuel = refl
emit-prepend out xs fault = refl

-- The description, one kind of byte at a time.
module _ (h : Bool) where
  pub decode-feed : (s : Bytes) → decode h (10 ∷ s) ≡ prepend crlf (decode h s)
  unfolding decode decode_last
  decode-feed [] = refl
  decode-feed (a ∷ []) = refl
  decode-feed (a ∷ b ∷ s) = refl

  pub decode-return :
      (c : ℕ) (s : Bytes)
      → decode h (13 ∷ c ∷ s) ≡ prepend crlf (decode h (if c == 10 then s else c ∷ s))
  unfolding decode
  decode-return c [] = elim (Bool-cases (c == 10)) [ inl e ↦ rw e | inr e ↦ rw e ]
  decode-return c (a ∷ s) = elim (Bool-cases (c == 10)) [ inl e ↦ rw e | inr e ↦ rw e ]

  pub decode-plain :
      (c : ℕ) (s : Bytes)
      → IsPlain c
      → decode h (c ∷ s) ≡ prepend (plain_char h c ∷ []) (decode h s)
  unfolding decode decode_last
  decode-plain c [] (e1, e2, e3) = rw (e2, e3)
  decode-plain c (a ∷ []) (e1, e2, e3) = rw (e1, e2, e3)
  decode-plain c (a ∷ b ∷ s) (e1, e2, e3) = rw (e1, e2, e3)

  pub decode-soft_break : (s : Bytes) → decode h (b'=' ∷ 10 ∷ s) ≡ decode h s
  unfolding decode decode_escape
  decode-soft_break [] = refl
  decode-soft_break (a ∷ s) = refl

  pub decode-soft_return :
      (c : ℕ) (s : Bytes) → decode h (b'=' ∷ 13 ∷ c ∷ s) ≡ decode h (if c == 10 then s else c ∷ s)
  unfolding decode
  decode-soft_return c s = elim (Bool-cases (c == 10)) [ inl e ↦ rw e | inr e ↦ rw e ]

  pub decode-hexa :
      (x y : ℕ) (s : Bytes)
      → (x == 10) ≡ false
      → (x == 13) ≡ false
      → decode h (b'=' ∷ x ∷ y ∷ s) ≡ prepend (to_char x y ∷ []) (decode h s)
  unfolding decode
  decode-hexa x y s e1 e2 = rw (e1, e2)

  pub decode-last_escape : (c : ℕ) → decode h (b'=' ∷ c ∷ []) ≡ decode_escape h c
  unfolding decode
  decode-last_escape c = refl
