-- ===== src/Body/Parts.antt =====
-- smtp_mime_body_parse of src/body.c: the decoder that the transfer encoding asks for, and what is
-- handed to the stream of the part. The stream is the NEL engine's.
use smtp_nel_filter.Prelude.{
  ◌≡◌, ◌≢◌, refl, Bool, arith, take, false, true, List, [], ◌∷◌, ◌++◌, Bytes, Option, none, some,
  All, length,
}
use smtp_nel_filter.Prelude.Slices.{take-length_le}
use smtp_nel_filter.Outcome.{
  Outcome, ok, error_parse, error_continue, error_memory, out_of_fuel, fault, bind,
}
use smtp_nel_filter.Platform.{Platform}
use smtp_nel_filter.Content.{
  MimeMechanism, mechanism_7bit, mechanism_8bit, mechanism_binary, mechanism_quoted_printable,
  mechanism_base64, mechanism_token,
}
use smtp_nel_filter.Body.Base64.{Chunk, buf_size, mime_base64_body_parse}
use smtp_nel_filter.Body.Base64.Letters.{letters}
use smtp_nel_filter.Body.Base64.RoundTrip.{is_byte, encode, base64_body_parse-encode}
use smtp_nel_filter.Body.QuotedPrintable.{MmapBuffer, Decoded, quoted_printable_body_parse}
use smtp_nel_filter.Body.QuotedPrintable.Rounds.{IsGrowing}
use smtp_nel_filter.Body.QuotedPrintable.RoundTrip.{
  Item, AreItems, print, meanings, quoted_printable_body_parse-print,
}
use smtp_nel_filter.Body.Binary.{mime_binary_body_parse, LineEnd, mime_binary_body_parse-LineEnd}

-- nel_stream_put of the engine, on the state of the stream. `none` is a pointer that was never set,
-- with length 0.
pub record TextStream {ℓ} (S : Type ℓ) : Type ℓ where
  pub nel_stream_put : S → Option Bytes → S

-- `result_len` bytes of `result`.
abbrev pub result_of : Outcome Decoded → Outcome Bytes
result_of o = bind o λ d. ok (take d.result_len d.result)

-- `garbage` is what the base64 decoder's array holds before it is written to.
unfoldable pub decode_part : Platform → MmapBuffer → Chunk → MimeMechanism → Bytes → Outcome Bytes
decode_part platform b garbage mechanism_base64 message =
    mime_base64_body_parse platform garbage message
decode_part platform b garbage mechanism_quoted_printable message =
    result_of (quoted_printable_body_parse b false message)
decode_part platform b garbage mechanism_7bit message =
    result_of (mime_binary_body_parse b message 0)
decode_part platform b garbage mechanism_8bit message =
    result_of (mime_binary_body_parse b message 0)
decode_part platform b garbage mechanism_binary message =
    result_of (mime_binary_body_parse b message 0)
decode_part platform b garbage mechanism_token message =
    result_of (mime_binary_body_parse b message 0)

module _ {ℓ} {S : Type ℓ} (stream : TextStream S) where
  -- The decoder's code is not looked at; without a result nothing was stored in `result`.
  unfoldable pub put_result : S → Outcome Bytes → Outcome S
  put_result ts (ok result rest) = ok (stream.nel_stream_put ts (some result)) []
  put_result ts error_parse = ok (stream.nel_stream_put ts none) []
  put_result ts error_continue = ok (stream.nel_stream_put ts none) []
  put_result ts error_memory = ok (stream.nel_stream_put ts none) []
  put_result ts out_of_fuel = out_of_fuel
  put_result ts fault = fault

  -- `none` is the null pointer. SMTP_MIME_MECHANISM_ERROR and every other number go the same way as
  -- `mechanism_token`.
  unfoldable pub mime_body_parse :
      Platform → MmapBuffer → Chunk → Option Bytes → MimeMechanism → S → Outcome S
  mime_body_parse platform b garbage none encoding ts = ok ts []
  mime_body_parse platform b garbage (some []) encoding ts = ok ts []
  mime_body_parse platform b garbage (some (c ∷ message)) encoding ts =
      put_result ts (decode_part platform b garbage encoding (c ∷ message))

-- A mechanism that copies.
abbrev pub copies : MimeMechanism → Bool
copies mechanism_base64 = false
copies mechanism_quoted_printable = false
copies mechanism_7bit = true
copies mechanism_8bit = true
copies mechanism_binary = true
copies mechanism_token = true

-- How a message carries some bytes in a transfer encoding.
pub data Carries (content : Bytes) : MimeMechanism → Bytes → Type 0 where
  as_base64 :
      {message : Bytes}
      → All is_byte content
      → letters message ≡ encode content
      → Carries content mechanism_base64 message
  as_quoted_printable :
      (is : List Item)
      → AreItems false is
      → content ≡ meanings is
      → Carries content mechanism_quoted_printable (print is [])
  as_it_is :
      {mechanism : MimeMechanism} {end : Bytes}
      → copies mechanism ≡ true
      → LineEnd content end
      → Carries content mechanism (content ++ end)

module _ (platform : Platform) (b : MmapBuffer) (garbage : Chunk) where
  copied :
      (mechanism : MimeMechanism) (message : Bytes)
      → copies mechanism ≡ true
      → decode_part platform b garbage mechanism message
        ≡ result_of (mime_binary_body_parse b message 0)
  unfolding decode_part
  copied mechanism_7bit message e = refl
  copied mechanism_8bit message e = refl
  copied mechanism_binary message e = refl
  copied mechanism_token message e = refl
  copied mechanism_base64 message e = cc
  copied mechanism_quoted_printable message e = cc

  decode_part-Carries :
      {content message : Bytes} {mechanism : MimeMechanism}
      → IsGrowing b
      → platform.malloc (buf_size message) ≡ true
      → Carries content mechanism message
      → (rest : Bytes) × (decode_part platform b garbage mechanism message ≡ ok content rest)
  unfolding decode_part
  decode_part-Carries {content} {message} law memory (as_base64 bytes e) =
      ([], base64_body_parse-encode platform garbage content message memory bytes e)
  decode_part-Carries {content} law memory (as_quoted_printable is v e) = (
    [],
    rw (quoted_printable_body_parse-print b false is law v, ← e)
        (rw (take-length_le (length content) content (omega arith))),
  )
  decode_part-Carries {content} law memory (as_it_is {mechanism} {end} c e) = (
    end,
    rw (copied mechanism (content ++ end) c, mime_binary_body_parse-LineEnd b content end law e)
        (rw (take-length_le (length content) content (omega arith))),
  )

  -- A part that is not empty and carries some bytes in its transfer encoding hands exactly these
  -- bytes to its stream, in one piece, if memory never runs out: base64 with any bytes between the
  -- letters, quoted-printable, and for every other encoding the text without its last line end.
  pub mime_body_parse-Carries {ℓ} :
      {S : Type ℓ} (stream : TextStream S) (ts : S) (content message : Bytes)
      (mechanism : MimeMechanism)
      → IsGrowing b
      → platform.malloc (buf_size message) ≡ true
      → Carries content mechanism message
      → message ≢ []
      → mime_body_parse stream platform b garbage (some message) mechanism ts
        ≡ ok (stream.nel_stream_put ts (some content)) []
  unfolding mime_body_parse put_result
  mime_body_parse-Carries stream ts content [] mechanism law memory c h = absurd (h refl)
  mime_body_parse-Carries stream ts content (x ∷ message) mechanism law memory c h =
      rw ((decode_part-Carries law memory c).1)
