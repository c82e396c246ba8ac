-- ===== src/Mime/Scan/Keyword.antt =====
-- smtp_token_case_insensitive_len_parse: which keywords it reads.
use smtp_nel_filter.Prelude.{
  ℕ, suc, ◌+◌, ◌≤◌, ◌<◌, ◌≡◌, refl, true, false, [], ◌∷◌, ◌++◌, Bytes, ltb, arith, length,
  length-append,
}
use smtp_nel_filter.Outcome.{ok}
use smtp_nel_filter.Mime.Scan.{strncasecmp_eq, advance, token_case_insensitive_len_parse}

advance-append : (t s : Bytes) → advance (length t) (t ++ s) ≡ ok tt s
unfolding advance
advance-append [] s = refl
advance-append (x ∷ t) s = advance-append t s

strncasecmp_eq-append : (t s : Bytes) → strncasecmp_eq (length t) (t ++ s) t ≡ true
unfolding strncasecmp_eq
strncasecmp_eq-append [] s = refl
strncasecmp_eq-append (x ∷ t) s = ground (arith, strncasecmp_eq-append t s)

-- A keyword in front of any input is read, when its own length is passed.
pub token-append : (t s : Bytes) → token_case_insensitive_len_parse t (length t) (t ++ s) ≡ ok tt s
unfolding token_case_insensitive_len_parse
token-append t s =
    let short : ltb (length (t ++ s)) (length t) ≡ false = ground (arith, length-append t s) in
    rw (short, strncasecmp_eq-append t s, advance-append t s)

-- A letter that matches is not a NUL, so the comparison goes on.
strncasecmp_eq-letter :
    (x a n : ℕ) (t s : Bytes)
    → strncasecmp_eq (suc n) (a ∷ s) (x ∷ t) ≡ true
    → 64 < x
    → strncasecmp_eq n s t ≡ true
unfolding strncasecmp_eq
strncasecmp_eq-letter x a n t s e p = ground arith

strncasecmp_eq-end : (n a : ℕ) (s : Bytes) → strncasecmp_eq (suc n) (a ∷ s) [] ≡ true → a ≡ 0
unfolding strncasecmp_eq
strncasecmp_eq-end n a s e = ground arith

token-eq-ok :
    (t : Bytes) (n : ℕ) (s : Bytes) {rest : Bytes}
    → token_case_insensitive_len_parse t n s ≡ ok tt rest
    → (n ≤ length s) × (strncasecmp_eq n s t ≡ true)
unfolding token_case_insensitive_len_parse
token-eq-ok t n s e = (ground arith, ground arith)

-- A three-letter keyword that is compared over more than three bytes has to be followed by a NUL.
pub token_overlong :
    (x y z n : ℕ) (s : Bytes) {rest : Bytes}
    → token_case_insensitive_len_parse (x ∷ y ∷ z ∷ []) (4 + n) s ≡ ok tt rest
    → 64 < x
    → 64 < y
    → 64 < z
    → (a b c : ℕ) × (r : Bytes) × (s ≡ a ∷ b ∷ c ∷ 0 ∷ r)
token_overlong x y z n s e p q u = go s (token-eq-ok _ (4 + n) s e)
  where
    go :
        (s : Bytes)
        → (4 + n ≤ length s) × (strncasecmp_eq (4 + n) s (x ∷ y ∷ z ∷ []) ≡ true)
        → (a b c : ℕ) × (r : Bytes) × (s ≡ a ∷ b ∷ c ∷ 0 ∷ r)
    go [] (l, m) = absurd (omega arith)
    go (a ∷ []) (l, m) = absurd (omega arith)
    go (a ∷ b ∷ []) (l, m) = absurd (omega arith)
    go (a ∷ b ∷ c ∷ []) (l, m) = absurd (omega arith)
    go (a ∷ b ∷ c ∷ d ∷ r) (l, m) =
        let four : 4 + n ≡ suc (suc (suc (suc n))) = omega arith in
        let m₁ = strncasecmp_eq-letter x a _ _ _ (rw four at m) p in
        let m₂ = strncasecmp_eq-letter y b _ _ _ m₁ q in
        let m₃ = strncasecmp_eq-letter z c _ _ _ m₂ u in
        let nul = strncasecmp_eq-end n d r m₃ in (a, b, c, r, rw nul)
