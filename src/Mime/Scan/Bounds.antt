-- ===== src/Mime/Scan/Bounds.antt =====
-- The scanners of src/mime.c stay inside the buffer.
use smtp_nel_filter.Prelude.{
  ℕ, zero, suc, Bool, true, false, [], ◌∷◌, Bytes, ltb, length, ◌≤◌, arith, Bool-cases, inl, inr,
}
use smtp_nel_filter.Outcome.Suffix.{
  here, later, Leaves, Reads, reads_parse, reads_continue, Reads-if, Reads-behind, leaves,
  leaves_parse, leaves_continue, Advances, Leaves-if, Leaves-bind, Leaves-lenient, Leaves-weaken,
}
use smtp_nel_filter.Mime.Scan.{
  wsp_parse, wsp_loop, char_parse, number_loop, number_parse, advance,
  token_case_insensitive_len_parse, crlf_parse, quoted_pair_parse,
}

advance-Leaves : (n : ℕ) (s : Bytes) → n ≤ length s → Leaves s (advance n s)
unfolding advance
advance-Leaves zero s h = leaves here
advance-Leaves (suc n) [] h = absurd (omega arith)
advance-Leaves (suc n) (c ∷ s) h = Leaves-weaken (later here) (advance-Leaves n s (omega arith))

pub wsp-Advances : Advances wsp_parse
unfolding wsp_parse
wsp-Advances [] = leaves_continue
wsp-Advances (c ∷ s) = Leaves-if _ (leaves (later here)) leaves_parse

pub wsp_loop-Advances : (seen : Bool) → Advances (wsp_loop seen)
unfolding wsp_loop
wsp_loop-Advances seen [] = leaves_continue
wsp_loop-Advances seen (c ∷ s) =
    Leaves-if _ (Leaves-weaken (later here) (wsp_loop-Advances true s)) (leaves here)

pub char-Advances : (token : ℕ) → Advances (char_parse token)
unfolding char_parse
char-Advances token [] = leaves_continue
char-Advances token (c ∷ s) = Leaves-if _ (leaves (later here)) leaves_parse

pub number_loop-Advances : (parsed : Bool) (n : ℕ) → Advances (number_loop parsed n)
unfolding number_loop
number_loop-Advances parsed n [] = leaves_continue
number_loop-Advances parsed n (c ∷ s) =
    Leaves-if _ (Leaves-weaken (later here) (number_loop-Advances true _ s))
      (Leaves-if _ (leaves here) leaves_parse)

pub number-Advances : Advances number_parse
unfolding number_parse
number-Advances = number_loop-Advances false 0

-- A number has a digit at least.
pub number-Reads : (s : Bytes) → Reads s (number_parse s)
unfolding number_parse number_loop
number-Reads [] = reads_continue
number-Reads (c ∷ s) = Reads-if _ (Reads-behind c (number_loop-Advances true _ s)) reads_parse

-- The guard for the length keeps the cursor inside the buffer.
pub token-Advances : (token : Bytes) (n : ℕ) → Advances (token_case_insensitive_len_parse token n)
unfolding token_case_insensitive_len_parse
token-Advances token n s = elim (Bool-cases (ltb (length s) n)) [
  | inl short ↦ rw short leaves_continue
  | inr enough ↦
      let inside : n ≤ length s = ground arith in
      rw enough (Leaves-if _ (advance-Leaves n s inside) leaves_parse)
]

pub crlf-Advances : Advances crlf_parse
unfolding crlf_parse
crlf-Advances s =
    Leaves-bind (Leaves-lenient (char-Advances b'\r' s) here) (λ _. char-Advances b'\n')

pub quoted_pair-Advances : Advances quoted_pair_parse
unfolding quoted_pair_parse
quoted_pair-Advances [] = leaves_continue
quoted_pair-Advances (c ∷ []) = leaves_continue
quoted_pair-Advances (c ∷ d ∷ s) = Leaves-if _ (leaves (later (later here))) leaves_parse
