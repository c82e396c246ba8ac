-- ===== src/Address/Ends.antt =====
-- Bytes at which a mailbox ends, and no other begins.
use smtp_nel_filter.Prelude.{ℕ, zero, suc, ◌<◌, true, false, ◌==◌, [], ◌∷◌, Bytes, ◌≡◌, refl, arith}
use smtp_nel_filter.Outcome.{error_parse}
use smtp_nel_filter.Platform.{Platform}
use smtp_nel_filter.Mime.Chars.{is_wsp}
use smtp_nel_filter.Mime.Space.{cfws_parse, unstrict_char_parse}
use smtp_nel_filter.Mime.Space.Plain.{cfws-plain, cfws-line_end, unstrict_char-mismatch}
use smtp_nel_filter.Mime.Words.{MmapString, phrase_parse, phrase_loop, phrase_word, fws_word_parse}
use smtp_nel_filter.Mime.Words.Phrases.{is_stop, EndsPhrase, stop-EndsPhrase, crlf-EndsPhrase}
use smtp_nel_filter.Mime.Lists.{list_first, struct_list_parse}
use smtp_nel_filter.Address.{
  Env, is_final, addr_end, addr_copy, addr_text_parse, addr_spec_parse, angle_addr_parse,
  optional_name, name_addr_parse, mailbox_parts, mailbox_parse, mailbox_list_parse,
}
use smtp_nel_filter.Address.Spec.{not_undisclosed}
use smtp_nel_filter.Address.Text.{IsEnv}

-- No word, no white space and no comment, and a byte that ends an address.
abbrev pub EndsMailbox : Env → ℕ → Bytes → Type 0
EndsMailbox env c s =
    EndsPhrase env.platform env.mmap_string env.fuel c s
    × (is_final c ≡ true)
    × (cfws_parse env.fuel (c ∷ s) ≡ error_parse)

final-no_angle : (c : ℕ) → is_final c ≡ true → (c == b'<') ≡ false
unfolding is_final
final-no_angle c h = ground arith

cfws-stop :
    (fuel c : ℕ) (s : Bytes) → is_stop c ≡ true → 0 < fuel → cfws_parse fuel (c ∷ s) ≡ error_parse
unfolding is_stop
cfws-stop zero c s stop h = absurd (omega arith)
cfws-stop (suc fuel) c s stop h = cfws-plain c s (ground arith) fuel

pub cfws-crlf :
    (fuel c : ℕ) (s : Bytes)
    → is_wsp c ≡ false
    → 0 < fuel
    → cfws_parse fuel (b'\r' ∷ b'\n' ∷ c ∷ s) ≡ error_parse
cfws-crlf zero c s stop h = absurd (omega arith)
cfws-crlf (suc fuel) c s stop h = cfws-line_end fuel c s stop

phrase_loop-none :
    (platform : Platform) (m : MmapString) (fuel n : ℕ) (s : Bytes)
    → fws_word_parse platform m fuel s ≡ error_parse
    → 0 < n
    → phrase_loop platform m fuel n true [] s ≡ error_parse
unfolding phrase_loop phrase_word
phrase_loop-none platform m fuel zero s no_word h = absurd (omega arith)
phrase_loop-none platform m fuel (suc n) s no_word h = rw no_word

module _ (env : Env) (law : IsEnv env) (positive : 0 < env.fuel) where
  pub stop-EndsMailbox :
      (c : ℕ) (s : Bytes) → is_stop c ≡ true → is_final c ≡ true → EndsMailbox env c s
  stop-EndsMailbox c s stop final = (
    stop-EndsPhrase env.platform env.mmap_string env.fuel law.growing law.memory c s stop,
    final,
    cfws-stop env.fuel c s stop positive,
  )

  pub crlf-EndsMailbox :
      (c : ℕ) (s : Bytes) → is_wsp c ≡ false → EndsMailbox env b'\r' (b'\n' ∷ c ∷ s)
  unfolding is_final
  crlf-EndsMailbox c s h = (
    crlf-EndsPhrase env.platform env.mmap_string env.fuel law.growing law.memory c s h,
    refl,
    cfws-crlf env.fuel c s h positive,
  )

  module _ (c : ℕ) (s : Bytes) (ends : EndsMailbox env c s) where
    pub phrase-none : phrase_parse env.platform env.mmap_string env.fuel (c ∷ s) ≡ error_parse
    unfolding phrase_parse
    phrase-none = simp law.growing.new-empty (
        rw (
          phrase_loop-none env.platform env.mmap_string env.fuel env.fuel (c ∷ s) ends.0.1
            positive))

    pub symbol-none :
        (token : ℕ)
        → (c == token) ≡ false
        → unstrict_char_parse env.fuel token (c ∷ s) ≡ error_parse
    symbol-none token ne = unstrict_char-mismatch env.fuel token c s ends.2 ne

    pub angle_addr-none : angle_addr_parse env.platform env.fuel (c ∷ s) ≡ error_parse
    unfolding angle_addr_parse
    angle_addr-none = rw (ends.2, symbol-none b'<' (final-no_angle c ends.1))

    addr_spec-none : addr_spec_parse env.platform env.fuel (c ∷ s) ≡ error_parse
    unfolding addr_spec_parse addr_text_parse addr_end addr_copy
    addr_spec-none = rw (ends.2, not_undisclosed c s (final-no_angle c ends.1), ends.1)

    pub mailbox-none : mailbox_parse env (c ∷ s) ≡ error_parse
    unfolding mailbox_parse mailbox_parts name_addr_parse optional_name
    mailbox-none = rw (phrase-none, angle_addr-none, addr_spec-none)

    pub mailbox_list-none : mailbox_list_parse env (c ∷ s) ≡ error_parse
    unfolding mailbox_list_parse struct_list_parse list_first
    mailbox_list-none = rw mailbox-none
