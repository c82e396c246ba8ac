-- ===== src/Mime/Unstructured/Folding.antt =====
-- A text that is folded over several lines is read as a whole.
use mathlib.Core.List.{append_assoc}
use smtp_nel_filter.Prelude.{
  ℕ, suc, ◌+◌, Bool, true, false, not, ◌||◌, List, [], ◌∷◌, ◌++◌, Bytes, ◌==◌, ◌≡◌, refl, ◌∙◌, ap,
  arith, some, length, length-append, All,
}
use smtp_nel_filter.Prelude.Slices.{take-append, drop-append}
use smtp_nel_filter.Outcome.{ok}
use smtp_nel_filter.Platform.{Platform}
use smtp_nel_filter.Mime.Chars.{is_wsp}
use smtp_nel_filter.Mime.Scan.{wsp_loop}
use smtp_nel_filter.Mime.Words.{c_string, new_string}
use smtp_nel_filter.Mime.Unstructured.{
  unstructured_start, unstructured_lf, unstructured_wsp, unstructured_out, unstructured_step,
  unstructured_loop, unstructured_copy, unstructured_parse, ignore_result,
  ignore_unstructured_parse,
}

-- A byte that ends no line.
abbrev pub is_inline : ℕ → Bool
is_inline c = not (c == b'\r' || c == b'\n')

-- A further line: its blank, a byte, and the others.
pub record Line : Type 0 where
  pub blank : ℕ
  pub first : ℕ
  pub more : Bytes

abbrev pub IsLine : Line → Type 0
IsLine l = (is_wsp l.blank ≡ true) × (is_inline l.first ≡ true) × All is_inline l.more

abbrev pub AllLines : List Line → Type 0
AllLines [] = Unit
AllLines (l ∷ ls) = IsLine l × AllLines ls

-- The lines with CRLF between them.
abbrev pub fold : Bytes → List Line → Bytes
fold line [] = line
fold line (l ∷ ls) = line ++ b'\r' ∷ b'\n' ∷ l.blank ∷ l.first ∷ fold l.more ls

-- The end of the buffer, or a byte that is not white space.
abbrev pub Unfolded : Bytes → Type 0
Unfolded [] = Unit
Unfolded (c ∷ s) = is_wsp c ≡ false

start-inline :
    (c : ℕ) → is_inline c ≡ true → unstructured_step unstructured_start c ≡ unstructured_start
unfolding unstructured_step
start-inline c h = ground arith

wsp-inline :
    (c : ℕ) → is_inline c ≡ true → unstructured_step unstructured_wsp c ≡ unstructured_start
unfolding unstructured_step
wsp-inline c h = ground arith

lf-blank : (c : ℕ) → is_wsp c ≡ true → unstructured_step unstructured_lf c ≡ unstructured_wsp
unfolding unstructured_step is_wsp
lf-blank c h = ground arith

lf-text : (c : ℕ) → is_wsp c ≡ false → unstructured_step unstructured_lf c ≡ unstructured_out
unfolding unstructured_step is_wsp
lf-text c h = ground arith

-- A line and its end.
loop-line :
    (line rest : Bytes) (cur terminal : ℕ)
    → All is_inline line
    → unstructured_loop unstructured_start cur terminal (line ++ b'\r' ∷ b'\n' ∷ rest)
      ≡ unstructured_loop unstructured_lf (cur + length line + 2) (cur + length line) rest
unfolding unstructured_loop unstructured_step
loop-line [] rest cur terminal h =
    let here : cur + 0 ≡ cur = omega arith in
    let there : cur + 1 + 1 ≡ cur + 2 = omega arith in rw (here, there)
loop-line (x ∷ line) rest cur terminal (hx, h) =
    let moved : cur + 1 + length line ≡ cur + suc (length line) = omega arith in
    ap (λ state. unstructured_loop state (cur + 1) cur (line ++ b'\r' ∷ b'\n' ∷ rest))
      (start-inline x hx)
    ∙ loop-line line rest (cur + 1) cur h
    ∙ ap (λ n. unstructured_loop unstructured_lf (n + 2) n rest) moved

loop-blank :
    (l : Line) (rest : Bytes) (cur terminal : ℕ)
    → IsLine l
    → unstructured_loop unstructured_lf cur terminal (l.blank ∷ l.first ∷ rest)
      ≡ unstructured_loop unstructured_start (cur + 2) terminal rest
unfolding unstructured_loop
loop-blank l rest cur terminal (blank, first, h) =
    let moved : cur + 1 + 1 ≡ cur + 2 = omega arith in
    ap (λ state. unstructured_loop state (cur + 1) terminal (l.first ∷ rest))
      (lf-blank l.blank blank)
    ∙ ap (λ state. unstructured_loop state (cur + 1 + 1) terminal rest) (wsp-inline l.first first)
    ∙ ap (λ n. unstructured_loop unstructured_start n terminal rest) moved

loop-end :
    (rest : Bytes) (cur terminal : ℕ)
    → Unfolded rest
    → unstructured_loop unstructured_lf cur terminal rest ≡ some terminal
unfolding unstructured_loop
loop-end [] cur terminal h = refl
loop-end (c ∷ rest) cur terminal h =
    ap (λ state. unstructured_loop state (cur + 1) terminal rest) (lf-text c h)

-- The whole loop ends at the end of the last line.
loop-fold :
    (line : Bytes) (ls : List Line) (rest : Bytes) (cur terminal : ℕ)
    → All is_inline line
    → AllLines ls
    → Unfolded rest
    → unstructured_loop unstructured_start cur terminal (fold line ls ++ b'\r' ∷ b'\n' ∷ rest)
      ≡ some (cur + length (fold line ls))
loop-fold line [] rest cur terminal h hs end =
    loop-line line rest cur terminal h
    ∙ loop-end rest (cur + length line + 2) (cur + length line) end
loop-fold line (l ∷ ls) rest cur terminal h (hl, hs) end =
    let crlf = b'\r' ∷ b'\n' ∷ rest in
    let behind = b'\r' ∷ b'\n' ∷ l.blank ∷ l.first ∷ fold l.more ls in
    let sizes : cur + length line + 2 + 2 + length (fold l.more ls)
        ≡ cur + length (line ++ behind) =
      omega (arith, length-append line behind) in
    ap (unstructured_loop unstructured_start cur terminal) (append_assoc line behind crlf)
    ∙ loop-line line (l.blank ∷ l.first ∷ (fold l.more ls ++ crlf)) cur terminal h
    ∙ loop-blank l (fold l.more ls ++ crlf) (cur + length line + 2) (cur + length line) hl
    ∙ loop-fold l.more ls rest (cur + length line + 2 + 2) (cur + length line) hl.2 hs end
    ∙ ap some sizes

-- No white space is skipped.
begin :
    (line : Bytes) (ls : List Line) (rest : Bytes)
    → Unfolded line
    → wsp_loop false (fold line ls ++ b'\r' ∷ b'\n' ∷ rest)
      ≡ ok false (fold line ls ++ b'\r' ∷ b'\n' ∷ rest)
unfolding wsp_loop is_wsp
begin [] [] rest h = refl
begin [] (l ∷ ls) rest h = refl
begin (x ∷ line) [] rest h = rw h
begin (x ∷ line) (l ∷ ls) rest h = rw h

-- smtp_unstructured_parse yields a text of one or several lines, the CRLFs between them included,
-- up to its first NUL, and stops before the CRLF behind the last line, if memory is granted. No line
-- has a CR or LF inside; the first starts with no white space, each other one with a blank and a
-- byte, and what follows the last CRLF with no white space.
pub unstructured_parse-fold :
    (platform : Platform) (line : Bytes) (ls : List Line) (rest : Bytes)
    → platform.malloc (length (fold line ls) + 1) ≡ true
    → Unfolded line
    → All is_inline line
    → AllLines ls
    → Unfolded rest
    → unstructured_parse platform (fold line ls ++ b'\r' ∷ b'\n' ∷ rest)
      ≡ ok (c_string (fold line ls)) (b'\r' ∷ b'\n' ∷ rest)
unfolding unstructured_parse unstructured_copy new_string
unstructured_parse-fold platform line ls rest memory start h hs end =
    let text = fold line ls in
    let crlf = b'\r' ∷ b'\n' ∷ rest in
    let from_zero : 0 + length text ≡ length text = omega arith in
    rw (
      begin line ls rest start,
      loop-fold line ls rest 0 0 h hs end,
      from_zero,
      memory,
      take-append text crlf,
      drop-append text crlf,
    )

-- smtp_ignore_unstructured_parse skips such a text, which may start with white space, and stops
-- before the CRLF behind the last line.
pub ignore_unstructured-fold :
    (line : Bytes) (ls : List Line) (rest : Bytes)
    → All is_inline line
    → AllLines ls
    → Unfolded rest
    → ignore_unstructured_parse (fold line ls ++ b'\r' ∷ b'\n' ∷ rest)
      ≡ ok tt (b'\r' ∷ b'\n' ∷ rest)
unfolding ignore_unstructured_parse ignore_result
ignore_unstructured-fold line ls rest h hs end =
    let from_zero : 0 + length (fold line ls) ≡ length (fold line ls) = omega arith in
    rw (
      loop-fold line ls rest 0 0 h hs end,
      from_zero,
      drop-append (fold line ls) (b'\r' ∷ b'\n' ∷ rest),
    )
