-- ===== src/Body/QuotedPrintable.antt =====
-- smtp_mime_quoted_printable_body_parse of src/body.c. Ordinary bytes are not copied one by one:
-- `start` and `count` delimit what is still to be written, and the state machine writes it out
-- before it writes anything else. Pointers into the message are the bytes from there on.
pub mod Reference
pub mod Rounds
pub mod Equivalence
pub mod RoundTrip
use Prim.Native.Nat.{bit_or}
use smtp_nel_filter.Prelude.{
  ℕ, zero, suc, ◌+◌, ◌-◌, ◌*◌, ◌%◌, Bool, ◌&&◌, [], ◌∷◌, Bytes, ltb, leb, ◌==◌, if◌then◌else◌,
  length, take, Option,
}
use smtp_nel_filter.Outcome.{Outcome, ok, out_of_fuel, fault, Parser, bind}
use smtp_nel_filter.Mime.Words.{grown}

-- What the decoders call of mmapstring; `none` is NULL.
pub record MmapBuffer : Type 0 where
  pub sized_new : ℕ → Option Bytes
  pub new_len : Bytes → Option Bytes
  pub append_c : Bytes → ℕ → Option Bytes
  pub append_len : Bytes → Bytes → Option Bytes

unfoldable pub hexa_to_char : ℕ → ℕ
hexa_to_char hexdigit =
    if leb b'0' hexdigit && leb hexdigit b'9'
    then hexdigit - b'0'
    else if leb b'a' hexdigit && leb hexdigit b'f'
    then hexdigit - b'a' + 10
    else if leb b'A' hexdigit && leb hexdigit b'F'
    then hexdigit - b'A' + 10
    else 0

unfoldable pub to_char : ℕ → ℕ → ℕ
to_char hexa_0 hexa_1 = bit_or (hexa_to_char hexa_0 * 16) (hexa_to_char hexa_1) % 256

pub data QpState : Type 0 where
  state_normal : QpState
  state_coded : QpState
  state_out : QpState
  state_cr : QpState

-- The variables of the loop but `cur_token`, which is the cursor.
pub record Machine : Type 0 where
  pub state : QpState
  pub start : Bytes
  pub count : ℕ
  pub mmapstr : Bytes
  pub written : ℕ

-- `*result` and `*result_len`.
pub record Decoded : Type 0 where
  pub result : Bytes
  pub result_len : ℕ

module _ (b : MmapBuffer) where
  -- `if (count > 0)`: the bytes from `start` on are written; to read behind the message is a fault.
  unfoldable pub flush : Machine → Parser Machine
  flush m here =
      if m.count == 0
      then ok m here
      else if ltb (length m.start) m.count
      then fault
      else bind (grown (b.append_len m.mmapstr (take m.count m.start)) here)
          λ str. ok (record m { mmapstr = str; written = m.written + m.count; count = 0 })

  -- write_decoded_qp (mmapstr, "\r\n", 2), behind which `start` is the cursor.
  unfoldable pub write_crlf : Machine → Parser Machine
  write_crlf m here =
      bind (grown (b.append_len m.mmapstr (13 ∷ 10 ∷ [])) here)
        λ str rest. ok (record m { mmapstr = str; written = m.written + 2; start = rest }) rest

  -- mmap_string_append_c (mmapstr, ch), likewise.
  unfoldable pub write_char : Machine → ℕ → Parser Machine
  write_char m ch here =
      bind (grown (b.append_c m.mmapstr ch) here)
        λ str rest. ok (record m { mmapstr = str; written = m.written + 1; start = rest }) rest

  -- Behind "=\r".
  unfoldable pub qp_soft_cr : Machine → Parser Machine
  qp_soft_cr m [] = ok (record m { state = state_out }) (b'=' ∷ 13 ∷ [])
  qp_soft_cr m (c ∷ s) =
      if c == 10
      then ok (record m { start = s; state = state_normal }) s
      else ok (record m { start = c ∷ s; state = state_normal }) (c ∷ s)

  -- Behind "=" and a byte that ends no line.
  unfoldable pub qp_hexa : Machine → ℕ → Parser Machine
  qp_hexa m first [] =
      ok (record m { start = first ∷ []; count = m.count + 1; state = state_normal }) (first ∷ [])
  qp_hexa m first (second ∷ s) =
      bind (write_char m (to_char first second) s) λ m'. ok (record m' { state = state_normal })

  -- Behind "=".
  unfoldable pub qp_escape : Machine → Parser Machine
  qp_escape m [] = ok (record m { start = b'=' ∷ []; count = m.count + 1; state = state_normal }) []
  qp_escape m (c ∷ s) =
      if c == 10
      then ok (record m { start = s; state = state_normal }) s
      else if c == 13
      then qp_soft_cr m s
      else qp_hexa m c s

  -- A round in STATE_CODED; only "=" has a case.
  unfoldable pub qp_coded : Machine → ℕ → Parser Machine
  qp_coded m c s =
      bind (flush m (c ∷ s)) λ m' _. if c == b'=' then qp_escape m' s else ok m' (c ∷ s)

  -- Before too many bytes are pending.
  unfoldable pub qp_spill : Machine → Parser Machine
  qp_spill m here =
      if leb 512 m.count
      then (bind (flush m here) λ m' rest. ok (record m' { start = rest }) rest)
      else ok m here

  -- A round in STATE_NORMAL.
  unfoldable pub qp_normal : Bool → Machine → ℕ → Parser Machine
  qp_normal in_header m c s =
      if c == b'='
      then ok (record m { state = state_coded }) (c ∷ s)
      else if c == 10
      then (bind (flush m (c ∷ s)) λ m' _. write_crlf m' s)
      else if c == 13
      then ok (record m { state = state_cr }) s
      else if c == b'_' && in_header
      then (bind (flush m (c ∷ s)) λ m' _. write_char m' b' ' s)
      else bind (qp_spill m (c ∷ s)) λ m' _. ok (record m' { count = m'.count + 1 }) s

  -- A round in STATE_CR.
  unfoldable pub qp_cr : Machine → ℕ → Parser Machine
  qp_cr m c s = bind (flush m (c ∷ s)) λ m' _.
      bind (write_crlf m' (if c == 10 then s else c ∷ s))
        λ m''. ok (record m'' { state = state_normal })

  -- The round that the state asks for, and what follows it.
  unfoldable pub qp_round :
      Bool → (Machine → Parser Machine) → QpState → Machine → ℕ → Parser Machine
  qp_round in_header go_on state_normal m c s = bind (qp_normal in_header m c s) go_on
  qp_round in_header go_on state_coded m c s = bind (qp_coded m c s) go_on
  qp_round in_header go_on state_out m c s = ok m (c ∷ s)
  qp_round in_header go_on state_cr m c s = bind (qp_cr m c s) go_on

  unfoldable pub qp_loop : Bool → ℕ → Machine → Parser Machine
  qp_loop in_header zero m s = out_of_fuel
  qp_loop in_header (suc fuel) m [] = ok (record m { state = state_out }) []
  qp_loop in_header (suc fuel) m (c ∷ s) = qp_round in_header (qp_loop in_header fuel) m.state m c s

  -- Behind the loop.
  unfoldable pub qp_finish : Machine → Parser Decoded
  qp_finish m here =
      bind (flush m here) λ m'. ok (record { result = m'.mmapstr; result_len = m'.written })

  -- A byte takes two rounds at most, and the last round sees the end.
  unfoldable pub quoted_printable_body_parse : Bool → Parser Decoded
  quoted_printable_body_parse in_header s = bind (grown (b.sized_new (length s)) s) λ str here.
      bind
        (qp_loop in_header (2 * length s + 1)
          (record { state = state_normal; start = here; count = 0; mmapstr = str; written = 0 })
          here)
        qp_finish
