-- ===== src/Address/Groups.antt =====
-- Groups, and lists of mailboxes and groups, are read back.
use smtp_nel_filter.Prelude.{
  ℕ, zero, suc, ◌*◌, ◌<◌, false, ◌==◌, [], ◌∷◌, ◌++◌, Bytes, List, ◌≡◌, refl, arith, length,
}
use smtp_nel_filter.Outcome.{ok, error_parse}
use smtp_nel_filter.Mime.Chars.{is_wsp, is_atext}
use smtp_nel_filter.Mime.Scan.{char_parse}
use smtp_nel_filter.Mime.Space.{unstrict_char_parse}
use smtp_nel_filter.Mime.Space.Plain.{is_plain, cfws-blanks, unstrict_char-first}
use smtp_nel_filter.Mime.Words.Phrases.{is_stop, phrase_parse-ends, stop-EndsPhrase}
use smtp_nel_filter.Mime.Lists.Print.{Notation, Each, values, struct_list_parse-print}
use smtp_nel_filter.Address.{
  Env, new_struct, is_final, mailbox_list_parse, group_list, group_new, group_close, group_parse,
  address_parse, address_list_parse,
}
use smtp_nel_filter.Address.Text.{
  MailboxText, AddressText, mailbox_text, group_text, print_name, print_mailboxes, print_group,
  print_address, print_addresses, mailboxes_of, group_of, address_of, IsMailboxText, IsAddressText,
  IsEnv,
}
use smtp_nel_filter.Address.Ends.{
  EndsMailbox, stop-EndsMailbox, crlf-EndsMailbox, mailbox_list-none, symbol-none,
}
use smtp_nel_filter.Address.RoundTrip.{
  phrase-addr, angle-EndsPhrase, mailbox_parse-print, mailbox_list-ends, comma-EndsMailbox,
}

colon-angle :
    (fuel : ℕ) (s : Bytes)
    → 0 < fuel
    → unstrict_char_parse fuel b':' (b' ' ∷ b'<' ∷ s) ≡ error_parse
unfolding unstrict_char_parse char_parse
colon-angle zero s positive = absurd (omega arith)
colon-angle (suc fuel) s positive =
    rw (cfws-blanks b'<' s (unfold is_plain in refl) fuel b' ' [] (unfold is_wsp in refl, tt)) refl

module _ (env : Env) (law : IsEnv env) where
  semi_colon-EndsMailbox : (s : Bytes) → 0 < env.fuel → EndsMailbox env b';' s
  semi_colon-EndsMailbox s positive =
      stop-EndsMailbox env law positive b';' s (unfold is_stop is_plain is_atext in refl)
        (unfold is_final in refl)

  -- The members of a group, if it has any.
  group_list-print :
      (ts : List MailboxText) (s : Bytes)
      → Each (IsMailboxText env.fuel) ts
      → length ts < env.fuel
      → group_list env.fuel
          (print_mailboxes ts (b';' ∷ s))
          (mailbox_list_parse env (print_mailboxes ts (b';' ∷ s)))
        ≡ ok (mailboxes_of ts) (b';' ∷ s)
  unfolding group_list
  group_list-print [] s h size =
      let ends = semi_colon-EndsMailbox s (omega arith) in
      rw (mailbox_list-none env law (omega arith) b';' s ends, ends.2) refl
  group_list-print (t ∷ ts) s h size =
      let ends = semi_colon-EndsMailbox s (omega arith) in
      rw (mailbox_list-ends env law t ts b';' s h (omega arith) ends refl) refl

  pub group_parse-print :
      (w : Bytes) (ws : List Bytes) (ts : List MailboxText) (s : Bytes)
      → IsAddressText env.fuel (group_text w ws ts)
      → group_parse env (print_group w ws ts s) ≡ ok (group_of w ws ts) s
  unfolding group_parse group_close group_new
  group_parse-print w ws ts s (short, words, members, size) =
      let positive : 0 < env.fuel = omega arith in
      let list = print_mailboxes ts (b';' ∷ s) in
      rw
        (
          phrase_parse-ends env.platform env.mmap_string env.fuel law.growing law.memory w ws b':'
              list
              (stop-EndsPhrase env.platform env.mmap_string env.fuel law.growing law.memory b':'
                list (unfold is_stop is_plain is_atext in refl))
              short words,
          unstrict_char-first env.fuel b':' list positive (unfold is_plain in refl),
          group_list-print ts s members size,
          unstrict_char-first env.fuel b';' s positive (unfold is_plain in refl),
          law.memory (2 * env.platform.sizeof_ptr),
        )
        refl

  -- A mailbox is no group: no colon follows its name, or its address.
  mailbox-no_group :
      (name : List Bytes) (addr : Bytes) (c : ℕ) (s : Bytes)
      → IsMailboxText env.fuel (record { name = name; addr = addr })
      → EndsMailbox env c s
      → (c == b':') ≡ false
      → group_parse env (print_name name addr (c ∷ s)) ≡ error_parse
  unfolding group_parse
  mailbox-no_group [] addr c s (h, size, _, _) ends ne =
      rw
        (
          phrase-addr env law addr c s h size ends,
          symbol-none env law (omega arith) c s ends b':' ne,
        )
        refl
  mailbox-no_group (w ∷ ws) addr c s (h, size, short, words) ends ne =
      let rest = addr ++ b'>' ∷ c ∷ s in
      rw
        (
          phrase_parse-ends env.platform env.mmap_string env.fuel law.growing law.memory w ws b' '
              (b'<' ∷ rest) (angle-EndsPhrase env law rest) short (omega arith),
          colon-angle env.fuel rest (omega arith),
        )
        refl

  abbrev pub EndsAddress : ℕ → Bytes → Type 0
  EndsAddress c s = EndsMailbox env c s × ((c == b':') ≡ false)

  pub address_parse-print :
      (t : AddressText) (c : ℕ) (s : Bytes)
      → IsAddressText env.fuel t
      → EndsAddress c s
      → address_parse env (print_address t (c ∷ s)) ≡ ok (address_of t) (c ∷ s)
  unfolding address_parse new_struct
  address_parse-print (mailbox_text t) c s h (ends, ne) =
      rw
        (
          mailbox-no_group t.name t.addr c s h ends ne,
          mailbox_parse-print env law t c s h ends,
          law.memory (2 * env.platform.sizeof_ptr),
        )
        refl
  address_parse-print (group_text w ws ts) c s h ends =
      rw (group_parse-print w ws ts (c ∷ s) h, law.memory (2 * env.platform.sizeof_ptr)) refl

  abbrev pub address_notation : Notation AddressText (address_parse env)
  address_notation = record {
    print = print_address;
    value = address_of;
    Valid = IsAddressText env.fuel;
    Ends = EndsAddress;
    parse-print = address_parse-print;
  }

  -- smtp_address_list_parse reads mailboxes and groups back that are separated by commas, before a
  -- line end that no white space follows: each mailbox with its name, if it has any, and its
  -- address; each group with its name and its mailboxes, of which there may be none. Memory lasts, the fuel is above
  -- the number of addresses and what each of them needs, and the bytes of an address are those of
  -- is_addr.
  pub address_list_parse-print :
      (t : AddressText) (ts : List AddressText) (c : ℕ) (s : Bytes)
      → Each (IsAddressText env.fuel) (t ∷ ts)
      → length ts < env.fuel
      → is_wsp c ≡ false
      → address_list_parse env (print_addresses t ts (b'\r' ∷ b'\n' ∷ c ∷ s))
        ≡ ok (values address_of (t ∷ ts)) (b'\r' ∷ b'\n' ∷ c ∷ s)
  unfolding address_list_parse new_struct
  address_list_parse-print t ts c s h size end =
      let positive : 0 < env.fuel = omega arith in
      let line_end = crlf-EndsMailbox env law positive c s end in
      rw
        (
          struct_list_parse-print env.addresses law.address_lists env.fuel b',' (address_parse env)
              address_notation positive (unfold is_plain in refl)
              (λ r. (comma-EndsMailbox env law r positive, refl)) b'\r' (b'\n' ∷ c ∷ s)
              (line_end, refl)
              (symbol-none env law positive b'\r' (b'\n' ∷ c ∷ s) line_end b',' refl) t ts h size,
          law.memory (1 * env.platform.sizeof_ptr),
        )
        refl
