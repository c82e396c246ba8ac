-- ===== src/Body/Base64/Size.antt =====
-- The decoder never writes beyond the buffer that it allocates.
use smtp_nel_filter.Prelude.{
  ℕ, ◌+◌, ◌*◌, ◌≤◌, ◌<◌, ◌≡◌, [], ◌∷◌, Bytes, length, length-append, arith, Option, none, some,
}
use smtp_nel_filter.Outcome.{ok}
use smtp_nel_filter.Platform.{Platform}
use smtp_nel_filter.Body.Base64.{
  get_base64_value, Chunk, Decoder, decode_byte, decode_rest, decode_loop, buf_size,
  mime_base64_body_parse,
}

-- Every byte read pays for three quarters of a byte written; the chunk holds what is not yet
-- written.
decode_byte-size :
    (d : Decoder) (o : Option ℕ)
    → d.chunk_index < 4
    → (4 * length (decode_byte d o).1 + 3 * (decode_byte d o).0.chunk_index ≤ 3 * d.chunk_index + 3)
      × ((decode_byte d o).0.chunk_index < 4)
unfolding decode_byte
decode_byte-size d none h = (omega arith, omega arith)
decode_byte-size d (some v) h = (ground arith, ground arith)

decode_rest-size :
    (d : Decoder) → d.chunk_index < 4 → 4 * length (decode_rest d) ≤ 3 * d.chunk_index + 1
unfolding decode_rest
decode_rest-size d h = ground arith

decode_loop-size :
    (d : Decoder) (s : Bytes)
    → d.chunk_index < 4
    → 4 * length (decode_loop d s) ≤ 3 * d.chunk_index + 3 * length s + 1
unfolding decode_loop
decode_loop-size d [] h = omega (arith, decode_rest-size d h)
decode_loop-size d (c ∷ s) h =
    let (step, index) = decode_byte-size d (get_base64_value c) h in
    omega (
      arith,
      length-append (decode_byte d (get_base64_value c)).1
          (decode_loop (decode_byte d (get_base64_value c)).0 s),
      decode_loop-size (decode_byte d (get_base64_value c)).0 s index,
    )

-- The output of smtp_mime_base64_body_parse is shorter than its buffer.
pub base64_body_parse-lt-buf_size :
    (platform : Platform) (garbage : Chunk) (s : Bytes) {out rest : Bytes}
    → mime_base64_body_parse platform garbage s ≡ ok out rest
    → length out < buf_size s
unfolding mime_base64_body_parse buf_size
base64_body_parse-lt-buf_size platform garbage s e =
    ground (arith, decode_loop-size (record { chunk = garbage; chunk_index = 0 }) s (omega arith))
