-- ===== src/Body/Binary.antt =====
-- smtp_mime_binary_body_parse and smtp_body_parse of src/body.c: bodies that are copied as they are.
use mathlib.Core.List.{append_assoc, append-nil}
use smtp_nel_filter.Prelude.{
  ◌<◌, ap, ℕ, zero, suc, ◌+◌, ◌-◌, ◌≡◌, refl, arith, Bool, false, ◌&&◌, [], ◌∷◌, ◌++◌, Bytes, ltb,
  leb, ◌==◌, if◌then◌else◌, length, length-append, take, drop,
}
use smtp_nel_filter.Prelude.Slices.{take-append, drop-append}
use smtp_nel_filter.Outcome.{Outcome, ok, error_memory, fault, Parser, bind}
use smtp_nel_filter.Platform.{Platform}
use smtp_nel_filter.Mime.Words.{grown}
use smtp_nel_filter.Body.QuotedPrintable.{MmapBuffer, Decoded}
use smtp_nel_filter.Body.QuotedPrintable.Rounds.{IsGrowing}

-- struct smtp_body: `bd_text` are the bytes from where it points, `bd_size` of which are the body.
pub record SmtpBody : Type 0 where
  pub bd_text : Bytes
  pub bd_size : ℕ

-- `sizeof_body` is sizeof (struct smtp_body).
unfoldable pub body_parse : Platform → ℕ → Parser SmtpBody
body_parse platform sizeof_body s =
    if platform.malloc sizeof_body
    then ok (record { bd_text = s; bd_size = length s }) []
    else error_memory

-- message[i]
abbrev pub byte_at : Bytes → ℕ → ℕ
byte_at [] i = 0
byte_at (c ∷ s) zero = c
byte_at (c ∷ s) (suc i) = byte_at s i

-- `length` without the line end at the end of the message.
unfoldable pub trimmed_length : Bytes → ℕ
trimmed_length message =
    let n = length message in
    if leb 1 n && byte_at message (n - 1) == 10
    then (if leb 1 (n - 1) && byte_at message (n - 2) == 13 then n - 2 else n - 1)
    else n

-- What is left begins at `*index`, which is moved to the trimmed length. An index behind it makes
-- the length wrap around, and the copy reads outside the message.
unfoldable pub mime_binary_body_parse : MmapBuffer → Bytes → ℕ → Outcome Decoded
mime_binary_body_parse b message index =
    let n = trimmed_length message in
    if ltb n index
    then fault
    else bind (grown (b.new_len (take (n - index) (drop index message))) (drop n message))
        λ str. ok (record { result = str; result_len = n - index })

byte_at-behind : (s : Bytes) (c : ℕ) (r : Bytes) (n : ℕ) → n ≡ length s → byte_at (s ++ c ∷ r) n ≡ c
byte_at-behind [] c r n e = rw e
byte_at-behind (x ∷ s) c r zero e = absurd (omega arith)
byte_at-behind (x ∷ s) c r (suc n) e = byte_at-behind s c r n (omega arith)

byte_at-front : (s r : Bytes) (n : ℕ) → n < length s → byte_at (s ++ r) n ≡ byte_at s n
byte_at-front [] r n h = absurd (omega arith)
byte_at-front (x ∷ s) r zero h = refl
byte_at-front (x ∷ s) r (suc n) h = byte_at-front s r n (omega arith)

-- Whether a text ends with a byte.
unfoldable pub ends_with : ℕ → Bytes → Bool
ends_with c s = leb 1 (length s) && byte_at s (length s - 1) == c

-- The line end of a body: none, LF, or CRLF.
pub data LineEnd (body : Bytes) : Bytes → Type 0 where
  none_at_all : ends_with 10 body ≡ false → LineEnd body []
  lf : ends_with 13 body ≡ false → LineEnd body (10 ∷ [])
  crlf : LineEnd body (13 ∷ 10 ∷ [])

pub trimmed_length-LineEnd :
    {body end : Bytes} → LineEnd body end → trimmed_length (body ++ end) ≡ length body
unfolding trimmed_length ends_with
trimmed_length-LineEnd {body} (none_at_all e) = rw (append-nil body, e)
trimmed_length-LineEnd {body} (lf e) =
    let whole = body ++ 10 ∷ [] in
    let size : length whole ≡ length body + 1 = omega (arith, length-append body (10 ∷ [])) in
    let last = byte_at-behind body 10 [] (length whole - 1) (omega arith) in
    let before = byte_at-front body (10 ∷ []) (length whole - 2) in
    let here : length whole - 2 ≡ length body - 1 = omega arith in
    ground (arith, ap (byte_at body) here)
trimmed_length-LineEnd {body} crlf =
    let whole = body ++ 13 ∷ 10 ∷ [] in
    let size : length whole ≡ length body + 2 = omega (arith, length-append body (13 ∷ 10 ∷ [])) in
    let before = byte_at-behind body 13 (10 ∷ []) (length whole - 2) (omega arith) in
    let last : byte_at whole (length whole - 1) ≡ 10 =
      rw (← append_assoc body (13 ∷ []) (10 ∷ [])) (
        byte_at-behind (body ++ 13 ∷ []) 10 [] (length ((body ++ 13 ∷ []) ++ 10 ∷ []) - 1) (
          omega
            (arith, length-append body (13 ∷ []), length-append (body ++ 13 ∷ []) (10 ∷ [])))) in
    ground arith

-- A body that is copied loses the line end at its end, and all of the message is used but the line end.
pub mime_binary_body_parse-LineEnd :
    (b : MmapBuffer) (body end : Bytes)
    → IsGrowing b
    → LineEnd body end
    → mime_binary_body_parse b (body ++ end) 0
      ≡ ok (record { result = body; result_len = length body }) end
unfolding mime_binary_body_parse
mime_binary_body_parse-LineEnd b body end law e =
    let n : length body - 0 ≡ length body = omega arith in
    let not_behind : ltb (length body) 0 ≡ false = ground arith in
    rw (
      trimmed_length-LineEnd e,
      not_behind,
      n,
      take-append body end,
      drop-append body end,
      law.new_len-copy body,
    )
