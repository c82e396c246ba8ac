-- ===== src/Address/Spec.antt =====
-- addr-spec: the bytes up to one of `> , CR LF ( ) : ;`, without their blanks.
use smtp_nel_filter.Prelude.{
  ℕ, zero, suc, ◌+◌, ◌<◌, Bool, true, false, not, ◌&&◌, ◌||◌, ◌==◌, [], ◌∷◌, ◌++◌, Bytes, ◌≡◌, refl,
  ◌∙◌, ap, arith, All, some, length, all,
}
use smtp_nel_filter.Outcome.{ok, lenient}
use smtp_nel_filter.Platform.{Platform}
use smtp_nel_filter.Mime.Chars.{is_wsp, is_atext}
use smtp_nel_filter.Mime.Space.{cfws_parse}
use smtp_nel_filter.Mime.Space.Plain.{is_plain, cfws-plain, cfws-blanks, unstrict_char-plain}
use smtp_nel_filter.Mime.Words.{c_string, new_string}
use smtp_nel_filter.Mime.Words.Atom.{is_atom}
use smtp_nel_filter.Address.{
  starts_with, undisclosed, is_final, addr_end, remove_blanks, addr_copy, addr_text_parse,
  addr_spec_parse, angle_addr_parse,
}

-- A byte that the address goes on behind.
abbrev pub is_inner : ℕ → Bool
is_inner c = not (is_final c)

addr_end-append :
    (xs : Bytes) (c : ℕ) (s : Bytes)
    → All is_inner xs
    → is_final c ≡ true
    → addr_end (xs ++ c ∷ s) ≡ (xs, c ∷ s)
unfolding addr_end
addr_end-append [] c s h final = rw final
addr_end-append (x ∷ xs) c s (hx, h) final =
    let more : is_final x ≡ false = ground arith in rw (more, addr_end-append xs c s h final)

pub not_undisclosed :
    (c : ℕ) (s : Bytes) → (c == b'<') ≡ false → starts_with undisclosed (c ∷ s) ≡ false
unfolding starts_with
not_undisclosed c s h = ground arith

addr_text-append :
    (platform : Platform) (x : ℕ) (xs : Bytes) (c : ℕ) (s : Bytes)
    → platform.malloc (length xs + 2) ≡ true
    → (x == b'<') ≡ false
    → All is_inner (x ∷ xs)
    → is_final c ≡ true
    → addr_text_parse platform (x ∷ (xs ++ c ∷ s))
      ≡ ok (some (c_string (remove_blanks (x ∷ xs)))) (c ∷ s)
unfolding addr_text_parse addr_copy new_string
addr_text-append platform x xs c s memory angle h final =
    let size : suc (length xs) + 1 ≡ length xs + 2 = omega arith in
    rw (not_undisclosed x (xs ++ c ∷ s) angle, addr_end-append (x ∷ xs) c s h final, size, memory)

-- smtp_addr_spec_parse reads the bytes up to the first of `> , CR LF ( ) : ;`, and leaves out their
-- blanks and what follows a NUL, if memory is granted; the first byte starts no white space and no
-- comment, and is no `<`.
pub addr_spec_parse-append :
    (platform : Platform) (fuel x : ℕ) (xs : Bytes) (c : ℕ) (s : Bytes)
    → platform.malloc (length xs + 2) ≡ true
    → is_plain x ≡ true
    → (x == b'<') ≡ false
    → All is_inner (x ∷ xs)
    → is_final c ≡ true
    → addr_spec_parse platform (suc fuel) (x ∷ (xs ++ c ∷ s))
      ≡ ok (some (c_string (remove_blanks (x ∷ xs)))) (c ∷ s)
unfolding addr_spec_parse
addr_spec_parse-append platform fuel x xs c s memory plain angle h final =
    rw (cfws-plain x (xs ++ c ∷ s) plain fuel)
      (addr_text-append platform x xs c s memory angle h final)

-- A byte of an address as it is written: no white space, quote, bracket or final byte, and no NUL.
unfoldable pub is_addr : ℕ → Bool
is_addr c = is_atext c && not (c == b'(' || c == b')' || c == 0)

-- One that is not empty.
abbrev pub IsAddr : Bytes → Type 0
IsAddr [] = ⊥
IsAddr (x ∷ xs) = All is_addr (x ∷ xs)

addr-inner : (c : ℕ) → is_addr c ≡ true → is_inner c ≡ true
unfolding is_addr is_atext is_final
addr-inner c h = ground arith

addr-plain : (c : ℕ) → is_addr c ≡ true → is_plain c ≡ true
unfolding is_addr is_atext is_plain
addr-plain c h = ground arith

addr-no_angle : (c : ℕ) → is_addr c ≡ true → (c == b'<') ≡ false
unfolding is_addr is_atext
addr-no_angle c h = ground arith

All-inner : (xs : Bytes) → All is_addr xs → All is_inner xs
All-inner [] h = tt
All-inner (x ∷ xs) (hx, h) = (addr-inner x hx, All-inner xs h)

addr-no_blank : (c : ℕ) → is_addr c ≡ true → (not (c == b' ') && not (c == b'\t')) ≡ true
unfolding is_addr is_atext
addr-no_blank c h = ground arith

addr-not_nul : (c : ℕ) → is_addr c ≡ true → (c == 0) ≡ false
unfolding is_addr
addr-not_nul c h = ground arith

addr-atext : (c : ℕ) → is_addr c ≡ true → is_atext c ≡ true
unfolding is_addr
addr-atext c h = ground arith

pub remove_blanks-addr : (xs : Bytes) → All is_addr xs → remove_blanks xs ≡ xs
unfolding remove_blanks
remove_blanks-addr [] h = refl
remove_blanks-addr (x ∷ xs) (hx, h) = rw (addr-no_blank x hx, remove_blanks-addr xs h)

pub c_string-addr : (xs : Bytes) → All is_addr xs → c_string xs ≡ xs
unfolding c_string
c_string-addr [] h = refl
c_string-addr (x ∷ xs) (hx, h) = rw (addr-not_nul x hx, c_string-addr xs h)

pub c_string-IsAddr : (xs : Bytes) → IsAddr xs → c_string xs ≡ xs
c_string-IsAddr [] h = absurd h
c_string-IsAddr (x ∷ xs) h = c_string-addr (x ∷ xs) h

all_atext : (xs : Bytes) → All is_addr xs → all is_atext xs ≡ true
all_atext [] h = refl
all_atext (x ∷ xs) (hx, h) = rw (addr-atext x hx) (all_atext xs h)

-- It is an atom, too, so that smtp_phrase_parse takes it for a name.
pub addr-is_atom : (xs : Bytes) → IsAddr xs → is_atom xs ≡ true
unfolding is_atom is_addr
addr-is_atom [] h = absurd h
addr-is_atom (x ∷ xs) h = ground (arith, all_atext (x ∷ xs) h)

pub addr-positive : (xs : Bytes) → IsAddr xs → 0 < length xs
addr-positive [] h = absurd h
addr-positive (x ∷ xs) h = omega arith

-- An address before a byte that ends it.
pub addr_spec-print :
    (platform : Platform) (fuel : ℕ) (xs : Bytes) (c : ℕ) (s : Bytes)
    → platform.malloc (length xs + 1) ≡ true
    → IsAddr xs
    → is_final c ≡ true
    → addr_spec_parse platform (suc fuel) (xs ++ c ∷ s) ≡ ok (some xs) (c ∷ s)
addr_spec-print platform fuel [] c s memory h final = absurd h
addr_spec-print platform fuel (x ∷ xs) c s memory h final =
    let size : length xs + 2 ≡ suc (length xs) + 1 = omega arith in
    addr_spec_parse-append platform fuel x xs c s (ap platform.malloc size ∙ memory)
      (addr-plain x h.0) (addr-no_angle x h.0) (All-inner (x ∷ xs) h) final
    ∙ ap (λ a. ok (some a) (c ∷ s))
        (ap c_string (remove_blanks-addr (x ∷ xs) h) ∙ c_string-addr (x ∷ xs) h)

-- The copy of an address.
pub addr_copy-print :
    (platform : Platform) (xs : Bytes) (c : ℕ) (s : Bytes)
    → platform.malloc (length xs + 1) ≡ true
    → IsAddr xs
    → is_final c ≡ true
    → addr_copy platform (addr_end (xs ++ c ∷ s)) ≡ ok (some xs) (c ∷ s)
unfolding addr_copy new_string
addr_copy-print platform [] c s memory h final = absurd h
addr_copy-print platform (x ∷ xs) c s memory h final =
    rw
      (
        addr_end-append (x ∷ xs) c s (All-inner (x ∷ xs) h) final,
        memory,
        remove_blanks-addr (x ∷ xs) h,
        c_string-addr (x ∷ xs) h,
      )
      refl

-- An address in angle brackets, behind whatever smtp_cfws_parse skips.
pub angle_addr-behind :
    (platform : Platform) (fuel : ℕ) (xs s t : Bytes)
    → lenient (cfws_parse (suc fuel) t) t ≡ ok tt (b'<' ∷ (xs ++ b'>' ∷ s))
    → platform.malloc (length xs + 1) ≡ true
    → IsAddr xs
    → angle_addr_parse platform (suc fuel) t ≡ ok (some xs) s
unfolding angle_addr_parse
angle_addr-behind platform fuel xs s t before memory h = rw (
  before,
  unstrict_char-plain fuel b'<' (xs ++ b'>' ∷ s) (unfold is_plain in refl),
  addr_spec-print platform fuel xs b'>' s memory h (unfold is_final in refl),
  unstrict_char-plain fuel b'>' s (unfold is_plain in refl),
)

-- Behind a blank.
pub angle_addr-blank :
    (platform : Platform) (fuel : ℕ) (xs s : Bytes)
    → 0 < fuel
    → platform.malloc (length xs + 1) ≡ true
    → IsAddr xs
    → angle_addr_parse platform fuel (b' ' ∷ b'<' ∷ (xs ++ b'>' ∷ s)) ≡ ok (some xs) s
angle_addr-blank platform zero xs s positive memory h = absurd (omega arith)
angle_addr-blank platform (suc fuel) xs s positive memory h =
    let t = xs ++ b'>' ∷ s in
    angle_addr-behind platform fuel xs s (b' ' ∷ b'<' ∷ t)
      (rw (cfws-blanks b'<' t (unfold is_plain in refl) fuel b' ' [] (unfold is_wsp in refl, tt))
        refl)
      memory h
