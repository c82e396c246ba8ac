-- ===== src/Body/QuotedPrintable/Rounds.antt =====
-- The state machine against the description, round by round.
use mathlib.Core.List.{append_assoc, append-nil}
use smtp_nel_filter.Prelude.{
  ℕ, suc, ◌+◌, ◌≡◌, arith, Bool, false, ◌&&◌, [], ◌∷◌, ◌++◌, Bytes, leb, ltb, ◌==◌, if◌then◌else◌,
  length, length-append, some, Bool-cases, inl, inr,
}
use smtp_nel_filter.Prelude.Slices.{take-append}
use smtp_nel_filter.Outcome.{Outcome, ok, bind}
use smtp_nel_filter.Body.QuotedPrintable.{
  MmapBuffer, to_char, QpState, state_normal, state_coded, state_out, state_cr, Machine, Decoded,
  flush, write_crlf, write_char, qp_soft_cr, qp_hexa, qp_escape, qp_coded, qp_spill, qp_normal,
  qp_cr, qp_round, qp_loop, qp_finish,
}
use smtp_nel_filter.Body.QuotedPrintable.Reference.{
  prepend, crlf, plain_char, emit, emit-prepend, IsPlain,
}

-- What mmapstring documents, if memory never runs out.
pub record IsGrowing (b : MmapBuffer) : Type 0 where
  pub sized_new-empty : (n : ℕ) → b.sized_new n ≡ some []
  pub new_len-copy : (s : Bytes) → b.new_len s ≡ some s
  pub append_c-last : (s : Bytes) (c : ℕ) → b.append_c s c ≡ some (s ++ c ∷ [])
  pub append_len-behind : (s t : Bytes) → b.append_len s t ≡ some (s ++ t)

-- `out` was written, and the bytes `p` in front of `rest` are pending.
abbrev pub pending : QpState → Bytes → Bytes → Bytes → Machine
pending state out p rest = record {
  state = state;
  start = p ++ rest;
  count = length p;
  mmapstr = out;
  written = length out;
}

-- Nothing is pending, and `start` lies anywhere.
abbrev pub flushed : QpState → Bytes → Bytes → Machine
flushed state out start = record {
  state = state;
  start = start;
  count = 0;
  mmapstr = out;
  written = length out;
}

covered : (p rest : Bytes) → ltb (length (p ++ rest)) (length p) ≡ false
covered p rest = ground (arith, length-append p rest)

module _ (b : MmapBuffer) (law : IsGrowing b) where
  pub flush-pending :
      (state : QpState) (out p rest here : Bytes)
      → flush b (pending state out p rest) here ≡ ok (flushed state (out ++ p) (p ++ rest)) here
  unfolding flush
  flush-pending state out [] rest here = rw (append-nil out)
  flush-pending state out (x ∷ p) rest here =
      let some_pending : (length (x ∷ p) == 0) ≡ false = ground arith in
      rw
        (
          some_pending,
          covered (x ∷ p) rest,
          take-append (x ∷ p) rest,
          law.append_len-behind out (x ∷ p),
        )
        (rw (length-append out (x ∷ p)))

  pub write_crlf-flushed :
      (state : QpState) (out start here : Bytes)
      → write_crlf b (flushed state out start) here ≡ ok (pending state (out ++ crlf) [] here) here
  unfolding write_crlf
  write_crlf-flushed state out start here =
      rw (law.append_len-behind out crlf) (rw (length-append out crlf))

  pub write_char-flushed :
      (state : QpState) (out start : Bytes) (c : ℕ) (here : Bytes)
      → write_char b (flushed state out start) c here
        ≡ ok (pending state (out ++ c ∷ []) [] here) here
  unfolding write_char
  write_char-flushed state out start c here =
      rw (law.append_c-last out c) (rw (length-append out (c ∷ [])))

  module _ (in_header : Bool) where
    -- What is returned when the loop goes on from here.
    abbrev pub returned : ℕ → Machine → Bytes → Outcome Decoded
    returned fuel m s = bind (qp_loop b in_header fuel m s) (qp_finish b)

    pub returned-end :
        (f : ℕ) (state : QpState) (out p : Bytes)
        → returned (suc f) (pending state out p []) [] ≡ emit (out ++ p) (ok [] [])
    unfolding qp_loop qp_finish emit
    returned-end f state out p = rw (flush-pending state_out out p [] [], append-nil (out ++ p))

    -- From a cursor at `s` on, `o` is decoded, whatever is pending.
    abbrev pub Means : ℕ → Bytes → Outcome Bytes → Type 0
    Means f s o = (out p : Bytes) → returned f (pending state_normal out p s) s ≡ emit (out ++ p) o

    Means-flushed :
        (f : ℕ) (s : Bytes) (o : Outcome Bytes)
        → Means f s o
        → (out p xs : Bytes)
        → returned f (pending state_normal ((out ++ p) ++ xs) [] s) s
          ≡ emit (out ++ p) (prepend xs o)
    Means-flushed f s o ih out p xs =
        rw (emit-prepend (out ++ p) xs o)
          (rw (ih ((out ++ p) ++ xs) []) (rw (append-nil ((out ++ p) ++ xs))))

    pub line_feed :
        (f : ℕ) (s : Bytes) (o : Outcome Bytes)
        → Means f s o
        → Means (suc f) (10 ∷ s) (prepend crlf o)
    unfolding qp_loop qp_round qp_normal
    line_feed f s o ih out p =
        rw
          (
            flush-pending state_normal out p (10 ∷ s) (10 ∷ s),
            write_crlf-flushed state_normal (out ++ p) (p ++ 10 ∷ s) s,
          )
          (Means-flushed f s o ih out p crlf)

    pub carriage_return :
        (f c : ℕ) (s : Bytes) (o : Outcome Bytes)
        → Means f (if c == 10 then s else c ∷ s) o
        → Means (suc (suc f)) (13 ∷ c ∷ s) (prepend crlf o)
    unfolding qp_loop qp_round qp_normal qp_cr
    carriage_return f c s o ih out p =
        rw
          (
            flush-pending state_cr out p (13 ∷ c ∷ s) (c ∷ s),
            write_crlf-flushed state_cr (out ++ p) (p ++ 13 ∷ c ∷ s) (if c == 10 then s else c ∷ s),
          )
          (Means-flushed f (if c == 10 then s else c ∷ s) o ih out p crlf)

    pub last_return : (f : ℕ) → Means (suc (suc f)) (13 ∷ []) (ok [] [])
    unfolding qp_loop qp_round qp_normal qp_finish emit
    last_return f out p = rw (flush-pending state_out out p (13 ∷ []) [], append-nil (out ++ p))

    pub plain :
        (f c : ℕ) (s : Bytes) (o : Outcome Bytes)
        → IsPlain c
        → Means f s o
        → Means (suc f) (c ∷ s) (prepend (plain_char in_header c ∷ []) o)
    unfolding qp_loop qp_round qp_normal qp_spill plain_char
    plain f c s o (e1, e2, e3) ih out p = elim (Bool-cases (c == b'_' && in_header)) [
      | inl blank ↦
          rw (e1, e2, e3, blank)
            (rw
              (
                flush-pending state_normal out p (c ∷ s) (c ∷ s),
                write_char-flushed state_normal (out ++ p) (p ++ c ∷ s) b' ' s,
              )
              (Means-flushed f s o ih out p (b' ' ∷ [])))
      | inr ordinary ↦ elim (Bool-cases (leb 512 (length p))) [
        | inl many ↦
            rw (e1, e2, e3, ordinary, many, flush-pending state_normal out p (c ∷ s) (c ∷ s))
              (rw (emit-prepend (out ++ p) (c ∷ []) o) (ih (out ++ p) (c ∷ [])))
        | inr few ↦
            rw (e1, e2, e3, ordinary, few)
              (rw (emit-prepend (out ++ p) (c ∷ []) o, append_assoc out p (c ∷ []))
                (longer (ih out (p ++ c ∷ []))))
      ]
    ]
      where
        longer :
            returned f (pending state_normal out (p ++ c ∷ []) s) s ≡ emit (out ++ (p ++ c ∷ [])) o
            → returned f
                (record {
                  state = state_normal;
                  start = p ++ c ∷ s;
                  count = length p + 1;
                  mmapstr = out;
                  written = length out;
                })
                s
              ≡ emit (out ++ (p ++ c ∷ [])) o
        longer e =
            let n : length (p ++ c ∷ []) ≡ length p + 1 = omega (arith, length-append p (c ∷ [])) in
            rw (← n, ← append_assoc p (c ∷ []) s) e

    -- Behind "=", once what was pending is written.
    pub soft_break :
        (f : ℕ) (s : Bytes) (o : Outcome Bytes)
        → Means f s o
        → Means (suc (suc f)) (b'=' ∷ 10 ∷ s) o
    unfolding qp_loop qp_round qp_normal qp_coded qp_escape
    soft_break f s o ih out p =
        rw (flush-pending state_coded out p (b'=' ∷ 10 ∷ s) (b'=' ∷ 10 ∷ s))
          (rw (ih (out ++ p) []) (rw (append-nil (out ++ p))))

    pub soft_return :
        (f c : ℕ) (s : Bytes) (o : Outcome Bytes)
        → Means f (if c == 10 then s else c ∷ s) o
        → Means (suc (suc f)) (b'=' ∷ 13 ∷ c ∷ s) o
    unfolding qp_loop qp_round qp_normal qp_coded qp_escape qp_soft_cr
    soft_return f c s o ih out p = elim (Bool-cases (c == 10)) [
      | inl lf ↦
          rw (lf, flush-pending state_coded out p (b'=' ∷ 13 ∷ c ∷ s) (b'=' ∷ 13 ∷ c ∷ s))
            (behind s (rw lf at ih))
      | inr other ↦
          rw (other, flush-pending state_coded out p (b'=' ∷ 13 ∷ c ∷ s) (b'=' ∷ 13 ∷ c ∷ s))
            (behind (c ∷ s) (rw other at ih))
    ]
      where
        behind :
            (r : Bytes)
            → Means f r o
            → returned f (pending state_normal (out ++ p) [] r) r ≡ emit (out ++ p) o
        behind r ih' = rw (ih' (out ++ p) []) (rw (append-nil (out ++ p)))

    pub hexa :
        (f x y : ℕ) (s : Bytes) (o : Outcome Bytes)
        → (x == 10) ≡ false
        → (x == 13) ≡ false
        → Means f s o
        → Means (suc (suc f)) (b'=' ∷ x ∷ y ∷ s) (prepend (to_char x y ∷ []) o)
    unfolding qp_loop qp_round qp_normal qp_coded qp_escape qp_hexa
    hexa f x y s o e1 e2 ih out p =
        rw
          (
            flush-pending state_coded out p (b'=' ∷ x ∷ y ∷ s) (b'=' ∷ x ∷ y ∷ s),
            e1,
            e2,
            write_char-flushed state_coded (out ++ p) (p ++ b'=' ∷ x ∷ y ∷ s) (to_char x y) s,
          )
          (Means-flushed f s o ih out p (to_char x y ∷ []))

    pub last_equals : (f : ℕ) → Means (suc (suc (suc f))) (b'=' ∷ []) (ok (b'=' ∷ []) [])
    unfolding qp_loop qp_round qp_normal qp_coded qp_escape qp_finish emit
    last_equals f out p =
        rw (flush-pending state_coded out p (b'=' ∷ []) (b'=' ∷ []))
          (rw (flush-pending state_out (out ++ p) (b'=' ∷ []) [] []))

    pub cut_short : (f : ℕ) → Means (suc (suc (suc f))) (b'=' ∷ 13 ∷ []) (ok [] (b'=' ∷ 13 ∷ []))
    unfolding qp_loop qp_round qp_normal qp_coded qp_escape qp_soft_cr qp_finish emit flush
    cut_short f out p =
        rw (flush-pending state_coded out p (b'=' ∷ 13 ∷ []) (b'=' ∷ 13 ∷ []))
          (rw (append-nil (out ++ p)))
