-- ===== src/Mime/Words/Atom.antt =====
-- Atoms are read whole.
use smtp_nel_filter.Prelude.{
  ℕ, suc, Bool, true, false, [], ◌∷◌, ◌++◌, Bytes, ◌≡◌, ◌==◌, not, ◌&&◌, all, All-all, refl, arith,
  All, length, ◌+◌,
}
use smtp_nel_filter.Outcome.{ok, error_parse}
use smtp_nel_filter.Platform.{Platform}
use smtp_nel_filter.Mime.Chars.{is_atext}
use smtp_nel_filter.Mime.Space.Plain.{is_plain, fws-plain, cfws-plain}
use smtp_nel_filter.Mime.Words.{
  c_string, new_string, atom_loop, atom_copy, atom_text_parse, atom_parse, fws_atom_parse,
}

atom_loop-append :
    (xs : Bytes) (c : ℕ) (s : Bytes)
    → All is_atext xs
    → is_atext c ≡ false
    → atom_loop (xs ++ c ∷ s) ≡ (xs, c ∷ s)
unfolding atom_loop
atom_loop-append [] c s h stop = rw stop
atom_loop-append (x ∷ xs) c s (hx, h) stop = rw (hx, atom_loop-append xs c s h stop)

-- The bytes of an atom that is not taken for a comment.
unfoldable pub is_atom : Bytes → Bool
is_atom [] = false
is_atom (c ∷ xs) = not (c == b'(') && all is_atext (c ∷ xs)

start-plain : (c : ℕ) → is_atext c ≡ true → (c == b'(') ≡ false → is_plain c ≡ true
unfolding is_atext is_plain
start-plain c h k = ground arith

pub nil-no_atom : is_atom [] ≡ false
unfolding is_atom
nil-no_atom = refl

pub atom-plain : (x : ℕ) (xs : Bytes) → is_atom (x ∷ xs) ≡ true → is_plain x ≡ true
unfolding is_atom
atom-plain x xs h = start-plain x (ground arith) (ground arith)

pub atom_text-append :
    (platform : Platform) (xs : Bytes) (c : ℕ) (s : Bytes)
    → is_atom xs ≡ true
    → platform.malloc (length xs + 1) ≡ true
    → is_atext c ≡ false
    → atom_text_parse platform (xs ++ c ∷ s) ≡ ok (c_string xs) (c ∷ s)
unfolding is_atom atom_text_parse atom_copy new_string
atom_text-append platform [] c s h memory stop = absurd (ground arith)
atom_text-append platform (x ∷ xs) c s h memory stop =
    rw (atom_loop-append (x ∷ xs) c s (All-all is_atext (x ∷ xs) (ground arith)) stop, memory)

-- smtp_atom_parse.
pub atom-print :
    (platform : Platform) (fuel : ℕ) (xs : Bytes) (c : ℕ) (s : Bytes)
    → is_atom xs ≡ true
    → platform.malloc (length xs + 1) ≡ true
    → is_atext c ≡ false
    → atom_parse platform (suc fuel) (xs ++ c ∷ s) ≡ ok (c_string xs) (c ∷ s)
unfolding is_atom atom_parse
atom-print platform fuel [] c s h memory stop = absurd (ground arith)
atom-print platform fuel (x ∷ xs) c s h memory stop =
    rw (cfws-plain x (xs ++ c ∷ s) (start-plain x (ground arith) (ground arith)) fuel)
      (atom_text-append platform (x ∷ xs) c s h memory stop)

-- smtp_fws_atom_parse.
pub fws_atom-print :
    (platform : Platform) (xs : Bytes) (c : ℕ) (s : Bytes)
    → is_atom xs ≡ true
    → platform.malloc (length xs + 1) ≡ true
    → is_atext c ≡ false
    → fws_atom_parse platform (xs ++ c ∷ s) ≡ ok (c_string xs) (c ∷ s)
unfolding is_atom fws_atom_parse
fws_atom-print platform [] c s h memory stop = absurd (ground arith)
fws_atom-print platform (x ∷ xs) c s h memory stop =
    rw (fws-plain x (xs ++ c ∷ s) (start-plain x (ground arith) (ground arith)))
      (atom_text-append platform (x ∷ xs) c s h memory stop)

-- A quote is no atom.
atom_text-dquote :
    (platform : Platform) (s : Bytes) → atom_text_parse platform (b'"' ∷ s) ≡ error_parse
unfolding atom_text_parse atom_copy atom_loop is_atext
atom_text-dquote platform s = refl

pub dquote-plain : is_plain b'"' ≡ true
unfolding is_plain
dquote-plain = refl

pub atom-dquote :
    (platform : Platform) (fuel : ℕ) (s : Bytes)
    → atom_parse platform (suc fuel) (b'"' ∷ s) ≡ error_parse
unfolding atom_parse
atom-dquote platform fuel s = rw (cfws-plain b'"' s dquote-plain fuel, atom_text-dquote platform s)

pub fws_atom-dquote :
    (platform : Platform) (s : Bytes) → fws_atom_parse platform (b'"' ∷ s) ≡ error_parse
unfolding fws_atom_parse
fws_atom-dquote platform s = rw (fws-plain b'"' s dquote-plain, atom_text-dquote platform s)
