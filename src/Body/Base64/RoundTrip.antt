-- ===== src/Body/Base64/RoundTrip.antt =====
-- Decoding what RFC 4648 encodes.
use Prim.Native.Nat.{bit_or}
use smtp_nel_filter.Prelude.{
  ℕ, zero, suc, ◌+◌, ◌-◌, ◌*◌, ◌/◌, ◌%◌, ◌<◌, ◌≡◌, refl, ◌∙◌, Bool, true, false, [], ◌∷◌, Bytes,
  ltb, ◌==◌, if◌then◌else◌, arith, some, All,
}
use smtp_nel_filter.Outcome.{ok}
use smtp_nel_filter.Platform.{Platform}
use smtp_nel_filter.Body.Base64.{
  get_base64_value, Chunk, cleared, out_0, out_1, out_2, Decoder, decode_byte, decode_rest,
  decode_loop, buf_size, mime_base64_body_parse,
}
use smtp_nel_filter.Body.Base64.Letters.{letters, decode_loop-letters}

-- The alphabet: value 0 to 63.
unfoldable pub base64_char : ℕ → ℕ
base64_char v =
    if ltb v 26
    then v + b'A'
    else if ltb v 52
    then v - 26 + b'a'
    else if ltb v 62
    then v - 52 + b'0'
    else if v == 62
    then b'+'
    else b'/'

pub get_base64_value-base64_char : (v : ℕ) → v < 64 → get_base64_value (base64_char v) ≡ some v
unfolding get_base64_value base64_char
get_base64_value-base64_char v h = ground arith

-- Three bytes are four letters; two are three, one is two. The padding is left out.
abbrev pub encode : Bytes → Bytes
encode [] = []
encode (a ∷ []) = base64_char (a / 4) ∷ base64_char (a % 4 * 16) ∷ []
encode (a ∷ b ∷ []) =
    base64_char (a / 4) ∷ base64_char (a % 4 * 16 + b / 16) ∷ base64_char (b % 16 * 4) ∷ []
encode (a ∷ b ∷ c ∷ r) =
    base64_char (a / 4)
    ∷ base64_char (a % 4 * 16 + b / 16)
    ∷ base64_char (b % 16 * 4 + c / 64)
    ∷ base64_char (c % 64)
    ∷ encode r

-- A test on every pair of values of six bits.
module _ (test : ℕ → ℕ → Bool) where
  -- All y below the number, with x fixed.
  row : ℕ → ℕ → Bool
  row x zero = true
  row x (suc y) = if test x y then row x y else false

  rows : ℕ → Bool
  rows zero = true
  rows (suc x) = if row x 64 then rows x else false

  row-test : (x n : ℕ) → row x n ≡ true → (y : ℕ) → y < n → test x y ≡ true
  unfolding row
  row-test x zero all y h = absurd (omega arith)
  row-test x (suc n) all y h =
      let before : row x n ≡ true → y < n → test x y ≡ true = λ e. row-test x n e y in
      ground (arith, before)

  rows-row : (n : ℕ) → rows n ≡ true → (x : ℕ) → x < n → row x 64 ≡ true
  unfolding rows
  rows-row zero all x h = absurd (omega arith)
  rows-row (suc n) all x h =
      let before : rows n ≡ true → x < n → row x 64 ≡ true = λ e. rows-row n e x in
      ground (arith, before)

  pairs_sound : (x y : ℕ) → rows 64 ≡ true → x < 64 → y < 64 → test x y ≡ true
  pairs_sound x y all hx hy = row-test x 64 (rows-row 64 all x hx) y hy

eq_of_test : (x y : ℕ) → (x == y) ≡ true → x ≡ y
eq_of_test x y h = ground arith

or_0 : (x y : ℕ) → x < 64 → y < 64 → bit_or (x * 4) (y / 16) % 256 ≡ x * 4 + y / 16
or_0 x y hx hy =
    eq_of_test _ _
      (pairs_sound (λ x y. bit_or (x * 4) (y / 16) % 256 == x * 4 + y / 16) x y table hx hy)
  where
    table : rows (λ x y. bit_or (x * 4) (y / 16) % 256 == x * 4 + y / 16) 64 ≡ true
    table = unfold rows row in refl

or_1 : (x y : ℕ) → x < 64 → y < 64 → bit_or (x * 16) (y / 4) % 256 ≡ x % 16 * 16 + y / 4
or_1 x y hx hy =
    eq_of_test _ _
      (pairs_sound (λ x y. bit_or (x * 16) (y / 4) % 256 == x % 16 * 16 + y / 4) x y table hx hy)
  where
    table : rows (λ x y. bit_or (x * 16) (y / 4) % 256 == x % 16 * 16 + y / 4) 64 ≡ true
    table = unfold rows row in refl

or_2 : (x y : ℕ) → x < 64 → y < 64 → bit_or (x * 64) y % 256 ≡ x % 4 * 64 + y
or_2 x y hx hy =
    eq_of_test _ _ (pairs_sound (λ x y. bit_or (x * 64) y % 256 == x % 4 * 64 + y) x y table hx hy)
  where
    table : rows (λ x y. bit_or (x * 64) y % 256 == x % 4 * 64 + y) 64 ≡ true
    table = unfold rows row in refl

-- A byte.
abbrev pub is_byte : ℕ → Bool
is_byte c = ltb c 256

value : (v : ℕ) → v < 64 → get_base64_value (base64_char v) ≡ some v
value = get_base64_value-base64_char

-- The state at a chunk's start; what the cells hold does not matter.
abbrev start : Chunk → Decoder
start garbage = record { chunk = garbage; chunk_index = 0 }

out_0-values :
    (c : Chunk) → c.chunk_0 < 64 → c.chunk_1 < 64 → out_0 c ≡ c.chunk_0 * 4 + c.chunk_1 / 16
unfolding out_0
out_0-values c = or_0 c.chunk_0 c.chunk_1

out_1-values :
    (c : Chunk) → c.chunk_1 < 64 → c.chunk_2 < 64 → out_1 c ≡ c.chunk_1 % 16 * 16 + c.chunk_2 / 4
unfolding out_1
out_1-values c = or_1 c.chunk_1 c.chunk_2

out_2-values :
    (c : Chunk) → c.chunk_2 < 64 → c.chunk_3 < 64 → out_2 c ≡ c.chunk_2 % 4 * 64 + c.chunk_3
unfolding out_2
out_2-values c = or_2 c.chunk_2 c.chunk_3

-- Three bytes, from the values of four letters.
abbrev triple : ℕ → ℕ → ℕ → ℕ → Bytes → Bytes
triple v w x y r = (v * 4 + w / 16) ∷ (w % 16 * 16 + x / 4) ∷ (x % 4 * 64 + y) ∷ r

decode_two :
    (g : Chunk) (v w : ℕ)
    → v < 64
    → w < 64
    → decode_loop (start g) (base64_char v ∷ base64_char w ∷ []) ≡ (v * 4 + w / 16) ∷ []
unfolding decode_loop decode_byte decode_rest
decode_two g v w hv hw =
    rw (value v hv, value w hw) (rw (out_0-values (record g { chunk_0 = v; chunk_1 = w }) hv hw))

decode_three :
    (g : Chunk) (v w x : ℕ)
    → v < 64
    → w < 64
    → x < 64
    → decode_loop (start g) (base64_char v ∷ base64_char w ∷ base64_char x ∷ [])
      ≡ (v * 4 + w / 16) ∷ (w % 16 * 16 + x / 4) ∷ []
unfolding decode_loop decode_byte decode_rest
decode_three g v w x hv hw hx =
    let c : Chunk = record g { chunk_0 = v; chunk_1 = w; chunk_2 = x } in
    rw (value v hv, value w hw, value x hx) (rw (out_0-values c hv hw, out_1-values c hw hx))

decode_four :
    (g : Chunk) (v w x y : ℕ) (r : Bytes)
    → v < 64
    → w < 64
    → x < 64
    → y < 64
    → decode_loop (start g) (base64_char v ∷ base64_char w ∷ base64_char x ∷ base64_char y ∷ r)
      ≡ triple v w x y (decode_loop (start cleared) r)
unfolding decode_loop decode_byte
decode_four g v w x y r hv hw hx hy =
    let c : Chunk = record { chunk_0 = v; chunk_1 = w; chunk_2 = x; chunk_3 = y } in
    rw (value v hv, value w hw, value x hx, value y hy)
      (rw (out_0-values c hv hw, out_1-values c hw hx, out_2-values c hx hy))

byte-lt : (a : ℕ) → is_byte a ≡ true → a < 256
byte-lt a h = ground arith

byte_1 : (a b : ℕ) → b < 256 → a / 4 * 4 + (a % 4 * 16 + b / 16) / 16 ≡ a
byte_1 a b hb = omega arith

byte_2 :
    (a b c : ℕ)
    → b < 256
    → c < 256
    → (a % 4 * 16 + b / 16) % 16 * 16 + (b % 16 * 4 + c / 64) / 4 ≡ b
byte_2 a b c hb hc = omega arith

byte_3 : (b c : ℕ) → c < 256 → (b % 16 * 4 + c / 64) % 4 * 64 + c % 64 ≡ c
byte_3 b c hc = omega arith

decode_loop-encode :
    (g : Chunk) (xs : Bytes) → All is_byte xs → decode_loop (start g) (encode xs) ≡ xs
decode_loop-encode g [] h = unfold decode_loop decode_rest in refl
decode_loop-encode g (a ∷ []) (ha, h) =
    let la = byte-lt a ha in
    let first : a / 4 * 4 + a % 4 * 16 / 16 ≡ a = omega arith in
    decode_two g (a / 4) (a % 4 * 16) (omega arith) (omega arith) ∙ cc first
decode_loop-encode g (a ∷ b ∷ []) (ha, (hb, h)) =
    let la = byte-lt a ha in
    let lb = byte-lt b hb in
    let second : (a % 4 * 16 + b / 16) % 16 * 16 + b % 16 * 4 / 4 ≡ b = omega arith in
    decode_three g (a / 4) (a % 4 * 16 + b / 16) (b % 16 * 4) (omega arith) (omega arith)
      (omega arith)
    ∙ cc (byte_1 a b lb, second)
decode_loop-encode g (a ∷ b ∷ c ∷ r) (ha, (hb, (hc, h))) =
    let la = byte-lt a ha in
    let lb = byte-lt b hb in
    let lc = byte-lt c hc in
    decode_four g (a / 4) (a % 4 * 16 + b / 16) (b % 16 * 4 + c / 64) (c % 64) (encode r)
      (omega arith) (omega arith) (omega arith) (omega arith)
    ∙ cc (byte_1 a b lb, byte_2 a b c lb lc, byte_3 b c lc, decode_loop-encode cleared r h)

-- A text whose letters are the encoding of some bytes is decoded to those bytes, wherever line
-- ends, padding and other bytes outside the alphabet stand in it, whatever the array held before,
-- if memory is granted; all of the text is used.
pub base64_body_parse-encode :
    (platform : Platform) (garbage : Chunk) (xs s : Bytes)
    → platform.malloc (buf_size s) ≡ true
    → All is_byte xs
    → letters s ≡ encode xs
    → mime_base64_body_parse platform garbage s ≡ ok xs []
unfolding mime_base64_body_parse
base64_body_parse-encode platform garbage xs s memory h e =
    rw (memory, decode_loop-letters (start garbage) s, e, decode_loop-encode garbage xs h)
