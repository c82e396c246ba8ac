-- ===== src/Envelope/Mailboxes.antt =====
-- The mailbox of a path is read back.
use smtp_nel_filter.Prelude.{
  ℕ, zero, suc, ◌+◌, ◌*◌, ◌<◌, true, false, ◌==◌, none, some, [], ◌∷◌, ◌++◌, Bytes, ◌≡◌, refl,
  arith, length,
}
use smtp_nel_filter.Outcome.{ok, error_parse}
use smtp_nel_filter.Platform.{Platform}
use smtp_nel_filter.Mime.Chars.{is_wsp, is_atext}
use smtp_nel_filter.Mime.Scan.{wsp_loop, wsps_parse, char_parse, wsp_unstrict_char_parse}
use smtp_nel_filter.Mime.Space.{unstrict_char_parse}
use smtp_nel_filter.Mime.Space.Plain.{is_plain, unstrict_char-ne}
use smtp_nel_filter.Mime.Words.{new_string, atom_text_parse, atom_copy, atom_loop, phrase_word}
use smtp_nel_filter.Mime.Words.Atom.{atom_text-append}
use smtp_nel_filter.Mime.Words.Phrases.{is_stop}
use smtp_nel_filter.Mime.Lists.Grammar.{last, separated, struct_list_parse-Separated}
use smtp_nel_filter.Address.{Env, new_struct, is_final, optional_name}
use smtp_nel_filter.Address.Spec.{
  is_addr, IsAddr, addr-is_atom, c_string-addr, c_string-IsAddr, addr_copy-print,
}
use smtp_nel_filter.Address.Text.{IsEnv}
use smtp_nel_filter.Envelope.{
  wsp_atom_parse, wsp_phrase_loop, wsp_phrase_parse, wsp_addr_spec_parse, wsp_angle_addr_parse,
  wsp_name_addr_parse, wsp_mailbox_parts, wsp_mailbox_parse, wsp_mailbox_list_parse,
}

wsps-plain : (c : ℕ) (s : Bytes) → is_wsp c ≡ false → wsps_parse (c ∷ s) ≡ ok tt (c ∷ s)
unfolding wsps_parse wsp_loop
wsps-plain c s h = rw h refl

pub wsp_char-here :
    (token : ℕ) (s : Bytes)
    → is_wsp token ≡ false
    → wsp_unstrict_char_parse token (token ∷ s) ≡ ok tt s
unfolding wsp_unstrict_char_parse char_parse
wsp_char-here token s h = rw (wsps-plain token s h) (ground arith)

pub wsp_char-ne :
    (token c : ℕ) (s : Bytes)
    → is_wsp c ≡ false
    → (c == token) ≡ false
    → wsp_unstrict_char_parse token (c ∷ s) ≡ error_parse
unfolding wsp_unstrict_char_parse char_parse
wsp_char-ne token c s h ne = rw (wsps-plain c s h, ne) refl

-- A byte at which the address ends, and no word begins.
abbrev pub Closes : ℕ → Type 0
Closes c = (is_stop c ≡ true) × (is_final c ≡ true) × ((c == b',') ≡ false)

Closes-no_atext : (c : ℕ) → Closes c → is_atext c ≡ false
unfolding is_stop
Closes-no_atext c (stop, final, comma) = ground arith

pub Closes-no_wsp : (c : ℕ) → Closes c → is_wsp c ≡ false
unfolding is_stop is_plain is_wsp
Closes-no_wsp c (stop, final, comma) = ground arith

no_comma :
    (fuel c : ℕ) (s : Bytes)
    → Closes c
    → 0 < fuel
    → unstrict_char_parse fuel b',' (c ∷ s) ≡ error_parse
unfolding is_stop
no_comma zero c s closes positive = absurd (omega arith)
no_comma (suc fuel) c s (stop, final, comma) positive =
    unstrict_char-ne fuel b',' c s (ground arith) comma

pub addr-no_wsp : (c : ℕ) → is_addr c ≡ true → is_wsp c ≡ false
unfolding is_addr is_atext is_wsp
addr-no_wsp c h = ground arith

wsp_atom-print :
    (platform : Platform) (xs : Bytes) (c : ℕ) (s : Bytes)
    → platform.malloc (length xs + 1) ≡ true
    → IsAddr xs
    → is_atext c ≡ false
    → wsp_atom_parse platform (xs ++ c ∷ s) ≡ ok xs (c ∷ s)
unfolding wsp_atom_parse
wsp_atom-print platform [] c s memory h stop = absurd h
wsp_atom-print platform (x ∷ xs) c s memory h stop =
    rw
      (
        wsps-plain x (xs ++ c ∷ s) (addr-no_wsp x h.0),
        atom_text-append platform (x ∷ xs) c s (addr-is_atom (x ∷ xs) h) memory stop,
        c_string-addr (x ∷ xs) h,
      )
      refl

wsp_atom-none :
    (platform : Platform) (c : ℕ) (s : Bytes)
    → is_wsp c ≡ false
    → is_atext c ≡ false
    → wsp_atom_parse platform (c ∷ s) ≡ error_parse
unfolding wsp_atom_parse atom_text_parse atom_loop atom_copy
wsp_atom-none platform c s no_wsp stop = rw (wsps-plain c s no_wsp, stop) refl

wsp_addr_spec-print :
    (platform : Platform) (xs : Bytes) (c : ℕ) (s : Bytes)
    → platform.malloc (length xs + 1) ≡ true
    → IsAddr xs
    → is_final c ≡ true
    → wsp_addr_spec_parse platform (xs ++ c ∷ s) ≡ ok (some xs) (c ∷ s)
unfolding wsp_addr_spec_parse
wsp_addr_spec-print platform [] c s memory h final = absurd h
wsp_addr_spec-print platform (x ∷ xs) c s memory h final =
    addr_copy-print platform (x ∷ xs) c s memory h final

final-no_angle : (c : ℕ) → is_final c ≡ true → (c == b'<') ≡ false
unfolding is_final
final-no_angle c h = ground arith

module _ (env : Env) (law : IsEnv env) (addr : Bytes) (h : IsAddr addr) (c : ℕ) (s : Bytes)
    (closes : Closes c) where
  phrase_loop-addr :
      (n : ℕ)
      → 1 < n
      → wsp_phrase_loop env.platform env.mmap_string n true [] (addr ++ c ∷ s) ≡ ok addr (c ∷ s)
  unfolding wsp_phrase_loop phrase_word
  phrase_loop-addr zero size = absurd (omega arith)
  phrase_loop-addr (suc zero) size = absurd (omega arith)
  phrase_loop-addr (suc (suc n)) size =
      rw
        (
          wsp_atom-print env.platform addr c s (law.memory (length addr + 1)) h
              (Closes-no_atext c closes),
          law.growing.append-behind [] addr,
          wsp_atom-none env.platform c s (Closes-no_wsp c closes) (Closes-no_atext c closes),
        )
        refl

  -- The address is taken for a name first.
  wsp_phrase-addr :
      1 < env.fuel
      → wsp_phrase_parse env.platform env.mmap_string env.fuel (addr ++ c ∷ s) ≡ ok addr (c ∷ s)
  unfolding wsp_phrase_parse new_string
  wsp_phrase-addr size = simp law.growing.new-empty (
      rw (phrase_loop-addr env.fuel size, c_string-IsAddr addr h, law.memory (length addr + 1))
        refl)

  wsp_mailbox-print :
      1 < env.fuel
      → wsp_mailbox_parse env (addr ++ c ∷ s)
        ≡ ok (record { mb_display_name = none; mb_addr_spec = some addr }) (c ∷ s)
  unfolding wsp_mailbox_parse wsp_mailbox_parts wsp_name_addr_parse optional_name
      wsp_angle_addr_parse new_struct
  wsp_mailbox-print size =
      rw
        (
          wsp_phrase-addr size,
          wsp_char-ne b'<' c s (Closes-no_wsp c closes) (final-no_angle c closes.1),
          wsp_addr_spec-print env.platform addr c s (law.memory (length addr + 1)) h closes.1,
          law.memory (2 * env.platform.sizeof_ptr),
        )
        refl

  pub wsp_mailbox_list-print :
      1 < env.fuel
      → wsp_mailbox_list_parse env (addr ++ c ∷ s)
        ≡ ok (record { mb_display_name = none; mb_addr_spec = some addr } ∷ []) (c ∷ s)
  unfolding wsp_mailbox_list_parse new_struct
  wsp_mailbox_list-print size =
      rw
        (
          struct_list_parse-Separated env.mailboxes law.mailbox_lists env.fuel b','
              (wsp_mailbox_parse env)
              (separated (wsp_mailbox-print size)
                (last (rw (no_comma env.fuel c s closes (omega arith)) refl) refl))
              (omega arith),
          law.memory (1 * env.platform.sizeof_ptr),
        )
        refl
