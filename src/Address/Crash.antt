-- ===== src/Address/Crash.antt =====
-- A group without mailboxes that is not closed: smtp_group_parse frees a list that it has not got.
use smtp_nel_filter.Prelude.{ℕ, ◌+◌, ◌<◌, false, ◌==◌, ◌∷◌, Bytes, List, ◌≡◌, refl, arith, length}
use smtp_nel_filter.Outcome.{fault}
use smtp_nel_filter.Mime.Chars.{is_wsp, is_atext}
use smtp_nel_filter.Mime.Space.Plain.{is_plain, unstrict_char-first}
use smtp_nel_filter.Mime.Words.RoundTrip.{print_word}
use smtp_nel_filter.Mime.Words.Phrases.{
  is_stop, Short, print_more, phrase_parse-ends, stop-EndsPhrase,
}
use smtp_nel_filter.Mime.Lists.{list_first, struct_list_parse}
use smtp_nel_filter.Address.{
  Env, group_list, group_close, group_parse, address_parse, address_list_parse,
}
use smtp_nel_filter.Address.Text.{IsEnv}
use smtp_nel_filter.Address.Ends.{EndsMailbox, crlf-EndsMailbox, mailbox_list-none, symbol-none}

module _ (env : Env) (law : IsEnv env) (w : Bytes) (ws : List Bytes) where
  group-fault :
      (c : ℕ) (s : Bytes)
      → Short env.fuel (w ∷ ws)
      → length ws + 1 < env.fuel
      → EndsMailbox env c s
      → (c == b';') ≡ false
      → group_parse env (print_word w (print_more ws (b':' ∷ c ∷ s))) ≡ fault
  unfolding group_parse group_list group_close
  group-fault c s short words ends ne =
      let positive : 0 < env.fuel = omega arith in
      rw
        (
          phrase_parse-ends env.platform env.mmap_string env.fuel law.growing law.memory w ws b':'
              (c ∷ s)
              (stop-EndsPhrase env.platform env.mmap_string env.fuel law.growing law.memory b':'
                (c ∷ s) (unfold is_stop is_plain is_atext in refl))
              short words,
          unstrict_char-first env.fuel b':' (c ∷ s) positive (unfold is_plain in refl),
          mailbox_list-none env law positive c s ends,
          ends.2,
          symbol-none env law positive c s ends b';' ne,
        )
        refl

  -- On a name, a colon and a line end that no white space follows, smtp_address_list_parse
  -- dereferences a null pointer: there is no list of mailboxes, no semicolon, and the list is
  -- freed. Memory lasts, and the fuel is above the number of words and their lengths.
  pub address_list_parse-fault :
      (c : ℕ) (s : Bytes)
      → Short env.fuel (w ∷ ws)
      → length ws + 1 < env.fuel
      → is_wsp c ≡ false
      → address_list_parse env (print_word w (print_more ws (b':' ∷ b'\r' ∷ b'\n' ∷ c ∷ s))) ≡ fault
  unfolding address_list_parse address_parse struct_list_parse list_first
  address_list_parse-fault c s short words end =
      rw
        (group-fault b'\r' (b'\n' ∷ c ∷ s) short words
          (crlf-EndsMailbox env law (omega arith) c s end) refl)
        refl
