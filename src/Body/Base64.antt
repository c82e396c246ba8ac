-- ===== src/Body/Base64.antt =====
-- smtp_mime_base64_body_parse of src/body.c. The decoder keeps up to four values in `chunk`, skips
-- every byte that is no letter of the alphabet, and writes three bytes for each full chunk.
pub mod Letters
pub mod RoundTrip
pub mod Size
use Prim.Native.Nat.{bit_or}
use smtp_nel_filter.Prelude.{
  ℕ, zero, suc, ◌+◌, ◌-◌, ◌*◌, ◌/◌, ◌%◌, Bool, ◌&&◌, [], ◌∷◌, ◌++◌, Bytes, leb, ◌==◌, if◌then◌else◌,
  length, Option, none, some,
}
use smtp_nel_filter.Outcome.{Outcome, ok, error_memory, Parser}
use smtp_nel_filter.Platform.{Platform}

-- `none` is -1.
unfoldable pub get_base64_value : ℕ → Option ℕ
get_base64_value ch =
    if leb b'A' ch && leb ch b'Z'
    then some (ch - b'A')
    else if leb b'a' ch && leb ch b'z'
    then some (ch - b'a' + 26)
    else if leb b'0' ch && leb ch b'9'
    then some (ch - b'0' + 52)
    else if ch == b'+'
    then some 62
    else if ch == b'/'
    then some 63
    else none

-- `char chunk[4]`
pub record Chunk : Type 0 where
  pub chunk_0 : ℕ
  pub chunk_1 : ℕ
  pub chunk_2 : ℕ
  pub chunk_3 : ℕ

abbrev pub cleared : Chunk
cleared = record { chunk_0 = 0; chunk_1 = 0; chunk_2 = 0; chunk_3 = 0 }

-- `chunk[chunk_index] = value`
abbrev pub store : Chunk → ℕ → ℕ → Chunk
store chunk i value =
    if i == 0
    then record chunk { chunk_0 = value }
    else if i == 1
    then record chunk { chunk_1 = value }
    else if i == 2
    then record chunk { chunk_2 = value }
    else record chunk { chunk_3 = value }

-- The bytes that `out` is given, of which a `char` keeps eight bits.
unfoldable pub out_0 : Chunk → ℕ
out_0 c = bit_or (c.chunk_0 * 4) (c.chunk_1 / 16) % 256

unfoldable pub out_1 : Chunk → ℕ
out_1 c = bit_or (c.chunk_1 * 16) (c.chunk_2 / 4) % 256

unfoldable pub out_2 : Chunk → ℕ
out_2 c = bit_or (c.chunk_2 * 64) c.chunk_3 % 256

-- The variables of the loop that the next round reads.
pub record Decoder : Type 0 where
  pub chunk : Chunk
  pub chunk_index : ℕ

abbrev fill : Chunk → ℕ → Decoder × Bytes
fill chunk index =
    if index == 4
    then (record { chunk = cleared; chunk_index = 0 }, out_0 chunk ∷ out_1 chunk ∷ out_2 chunk ∷ [])
    else (record { chunk = chunk; chunk_index = index }, [])

-- One byte of the message: the new state, and what is written to `buf`.
unfoldable pub decode_byte : Decoder → Option ℕ → Decoder × Bytes
decode_byte d none = (d, [])
decode_byte d (some value) = fill (store d.chunk d.chunk_index value) (d.chunk_index + 1)

-- Behind the loop: a chunk that is not full.
unfoldable pub decode_rest : Decoder → Bytes
decode_rest d =
    if d.chunk_index == 0
    then []
    else if leb 3 d.chunk_index
    then out_0 d.chunk ∷ out_1 d.chunk ∷ []
    else out_0 d.chunk ∷ []

unfoldable pub decode_loop : Decoder → Bytes → Bytes
decode_loop d [] = decode_rest d
decode_loop d (c ∷ s) =
    let (d', written) = decode_byte d (get_base64_value c) in written ++ decode_loop d' s

-- The size of the buffer that the output is written to.
unfoldable pub buf_size : Bytes → ℕ
buf_size s = length s * 3 / 4 + 3

-- `garbage` is what the array `chunk` holds before it is written to.
unfoldable pub mime_base64_body_parse : Platform → Chunk → Parser Bytes
mime_base64_body_parse platform garbage s =
    if platform.malloc (buf_size s)
    then ok (decode_loop (record { chunk = garbage; chunk_index = 0 }) s) []
    else error_memory
