-- ===== src/Body/QuotedPrintable/Equivalence.antt =====
-- smtp_mime_quoted_printable_body_parse is the description, on every message.
use mathlib.Core.List.{append_assoc, append-nil}
use smtp_nel_filter.Prelude.{
  ℕ, zero, suc, ◌+◌, ◌*◌, ◌<◌, ◌≤◌, ◌≡◌, refl, arith, Bool, false, ◌&&◌, [], ◌∷◌, ◌++◌, Bytes, ◌==◌,
  if◌then◌else◌, length, Bool-cases, inl, inr,
}
use smtp_nel_filter.Outcome.{ok}
use smtp_nel_filter.Body.QuotedPrintable.{
  MmapBuffer, state_normal, state_coded, state_out, flush, qp_hexa, qp_escape, qp_coded, qp_spill,
  qp_normal, qp_round, qp_loop, qp_finish, quoted_printable_body_parse,
}
use smtp_nel_filter.Body.QuotedPrintable.Reference.{
  plain_char, decode_last, decode_escape, decode, emit, Kind-total, decode-feed, decode-return,
  decode-plain, decode-soft_break, decode-soft_return, decode-hexa, decode-last_escape, equals,
  feed, return, other,
}
use smtp_nel_filter.Body.QuotedPrintable.Rounds.{
  IsGrowing, flush-pending, write_char-flushed, returned-end, pending, returned, Means, line_feed,
  carriage_return, last_return, plain, soft_break, soft_return, hexa, last_equals, cut_short,
}

module _ (b : MmapBuffer) (law : IsGrowing b) (h : Bool) where
  nothing : (f : ℕ) → Means b law h (suc f) [] (ok [] [])
  nothing f out p = returned-end b law h f state_normal out p

  -- A last byte that was counted before it is read.
  over_counted :
      (f c : ℕ) (out : Bytes)
      → (c == 10) ≡ false
      → (c == 13) ≡ false
      → returned b law h (suc (suc (suc f))) (pending state_normal out (c ∷ []) []) (c ∷ [])
        ≡ emit out (decode_escape h c)
  unfolding decode_escape qp_loop qp_round qp_normal qp_coded qp_escape qp_spill qp_finish emit
  over_counted f c out e1 e2 = elim (Bool-cases (c == b'=')) [
    | inl eq ↦
        let n : c ≡ b'=' = ground arith in
        rw (n, flush-pending b law state_coded out (b'=' ∷ []) [] (b'=' ∷ []))
          (rw (flush-pending b law state_out (out ++ b'=' ∷ []) (b'=' ∷ []) [] [])
            (rw (append_assoc out (b'=' ∷ []) (b'=' ∷ []))))
    | inr ne ↦ elim (Bool-cases (c == b'_' && h)) [
      | inl blank ↦
          let n : c ≡ b'_' = ground arith in
          rw
            (
              e1,
              e2,
              ne,
              blank,
              flush-pending b law state_normal out (c ∷ []) [] (c ∷ []),
              write_char-flushed b law state_normal (out ++ c ∷ []) (c ∷ []) b' ' [],
            )
            (rw
              (
                n,
                append_assoc out (b'_' ∷ []) (b' ' ∷ []),
                flush-pending b law state_out (out ++ b'_' ∷ b' ' ∷ []) [] [] [],
              )
              (rw (append-nil (out ++ b'_' ∷ b' ' ∷ []))))
      | inr plain ↦ rw (e1, e2, ne, plain) (unfold flush in refl)
    ]
  ]

  escape_last :
      (f c : ℕ)
      → (c == 10) ≡ false
      → (c == 13) ≡ false
      → Means b law h (suc (suc (suc (suc (suc f))))) (b'=' ∷ c ∷ []) (decode_escape h c)
  unfolding qp_loop qp_round qp_normal qp_coded qp_escape qp_hexa
  escape_last f c e1 e2 out p =
      rw (flush-pending b law state_coded out p (b'=' ∷ c ∷ []) (b'=' ∷ c ∷ []), e1, e2)
        (over_counted f c (out ++ p) e1 e2)

  -- The messages of up to `k` bytes.
  abbrev Decodes : ℕ → Type 0
  Decodes k = (f : ℕ) (s : Bytes) → length s ≤ k → 2 * length s < f → Means b law h f s (decode h s)

  behind_lf : (c : ℕ) (s : Bytes) → length (if c == 10 then s else c ∷ s) ≤ suc (length s)
  behind_lf c s = ground arith

  escaped :
      (k : ℕ)
      → Decodes k
      → (f c : ℕ) (s : Bytes) → length s < k
      → 2 * length (c ∷ s) < f
      → (c == 10) ≡ false
      → (c == 13) ≡ false
      → Means b law h (suc (suc f)) (b'=' ∷ c ∷ s) (decode h (b'=' ∷ c ∷ s))
  escaped k ih zero c s le n e1 e2 = absurd (omega arith)
  escaped k ih (suc zero) c s le n e1 e2 = absurd (omega arith)
  escaped k ih (suc (suc zero)) c s le n e1 e2 = absurd (omega arith)
  escaped k ih (suc (suc (suc f))) c [] le n e1 e2 =
      rw (decode-last_escape h c) (escape_last f c e1 e2)
  escaped k ih (suc (suc (suc f))) c (d ∷ s) le n e1 e2 = rw (decode-hexa h c d s e1 e2) (
      hexa b law h (suc (suc (suc f))) c d s (decode h s) e1 e2
        (ih (suc (suc (suc f))) s (omega arith) (omega arith)))

  soft :
      (k : ℕ)
      → Decodes k
      → (f : ℕ) (s : Bytes) → length s < k
      → 2 * suc (length s) < f
      → Means b law h (suc (suc f)) (b'=' ∷ 13 ∷ s) (decode h (b'=' ∷ 13 ∷ s))
  soft k ih zero s le n = absurd (omega arith)
  soft k ih (suc f) [] le n = unfold decode decode_escape in cut_short b law h f
  soft k ih (suc f) (d ∷ s) le n =
      let r = if d == 10 then s else d ∷ s in
      rw (decode-soft_return h d s) (
        soft_return b law h (suc f) d s (decode h r)
          (ih (suc f) r (omega (arith, behind_lf d s)) (omega (arith, behind_lf d s))))

  from_equals :
      (k : ℕ)
      → Decodes k
      → (f : ℕ) (s : Bytes) → length s ≤ k
      → 2 * length s < f
      → Means b law h (suc (suc f)) (b'=' ∷ s) (decode h (b'=' ∷ s))
  from_equals k ih zero s le n = absurd (omega arith)
  from_equals k ih (suc f) [] le n = unfold decode decode_last plain_char in last_equals b law h f
  from_equals k ih (suc f) (c ∷ s) le n = elim (Kind-total c) [
    | feed e ↦
        rw (e, decode-soft_break h s)
          (soft_break b law h (suc f) s (decode h s) (ih (suc f) s (omega arith) (omega arith)))
    | return e ↦ rw e (soft k ih (suc f) s (omega arith) (omega arith))
    | equals e ↦ escaped k ih (suc f) c s (omega arith) (omega arith) (ground arith) (ground arith)
    | other (e1, e2, e3) ↦ escaped k ih (suc f) c s (omega arith) (omega arith) e2 e3
  ]

  from_return :
      (k : ℕ)
      → Decodes k
      → (f : ℕ) (s : Bytes) → length s ≤ k
      → 2 * length s < f
      → Means b law h (suc (suc f)) (13 ∷ s) (decode h (13 ∷ s))
  from_return k ih f [] le n = unfold decode decode_last in last_return b law h f
  from_return k ih f (c ∷ s) le n =
      let r = if c == 10 then s else c ∷ s in
      rw (decode-return h c s) (
        carriage_return b law h f c s (decode h r)
          (ih f r (omega (arith, behind_lf c s)) (omega (arith, behind_lf c s))))

  decodes : (k : ℕ) → Decodes k
  decodes k zero s le n = absurd (omega arith)
  decodes k (suc f) [] le n = unfold decode in nothing f
  decodes zero (suc f) (c ∷ s) le n = absurd (omega arith)
  decodes (suc k) (suc zero) (c ∷ s) le n = absurd (omega arith)
  decodes (suc k) (suc (suc f)) (c ∷ s) le n = elim (Kind-total c) [
    | equals e ↦ rw e (from_equals k (decodes k) f s (omega arith) (omega arith))
    | feed e ↦
        rw (e, decode-feed h s)
          (line_feed b law h (suc f) s (decode h s)
            (decodes k (suc f) s (omega arith) (omega arith)))
    | return e ↦ rw e (from_return k (decodes k) f s (omega arith) (omega arith))
    | other e ↦
        rw (decode-plain h c s e) (
          plain b law h (suc f) c s (decode h s) e
            (decodes k (suc f) s (omega arith) (omega arith)))
  ]

  -- On every message the state machine, with its bytes that are pending and its rounds, returns what
  -- the description says, cuts and faults included, if memory never runs out: it ends within its
  -- rounds, and the length that it returns is that of the output.
  pub quoted_printable_body_parse-decode :
      (s : Bytes) → quoted_printable_body_parse b h s ≡ emit [] (decode h s)
  unfolding quoted_printable_body_parse
  quoted_printable_body_parse-decode s =
      rw (law.sized_new-empty (length s))
        (decodes (length s) (2 * length s + 1) s (omega arith) (omega arith) [] [])
