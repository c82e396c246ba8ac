-- ===== src/Address/RoundTrip.antt =====
-- Mailboxes, alone and in a list, are read back.
use smtp_nel_filter.Prelude.{
  ℕ, zero, suc, ◌+◌, ◌*◌, ◌<◌, true, false, ◌==◌, [], ◌∷◌, ◌++◌, Bytes, List, some, ◌≡◌, refl,
  arith, length,
}
use smtp_nel_filter.Outcome.{ok}
use smtp_nel_filter.Platform.{Platform}
use smtp_nel_filter.Mime.Chars.{is_wsp, is_atext}
use smtp_nel_filter.Mime.Space.Plain.{is_plain}
use smtp_nel_filter.Mime.Words.{phrase_parse, c_string}
use smtp_nel_filter.Mime.Words.Phrases.{is_stop, EndsPhrase, phrase_parse-ends, blank-EndsPhrase}
use smtp_nel_filter.Mime.Lists.Print.{Notation, Each, values, struct_list_parse-print}
use smtp_nel_filter.Address.{
  Env, new_struct, is_final, addr_spec_parse, optional_name, name_addr_parse, mailbox_parts,
  mailbox_parse, mailbox_list_parse,
}
use smtp_nel_filter.Address.Spec.{
  IsAddr, addr-is_atom, addr-positive, addr_spec-print, angle_addr-blank,
}
use smtp_nel_filter.Address.Text.{
  MailboxText, print_name, print_mailbox, print_mailboxes, joined, mailbox_of, IsMailboxText, IsEnv,
}
use smtp_nel_filter.Address.Ends.{
  EndsMailbox, stop-EndsMailbox, crlf-EndsMailbox, angle_addr-none, symbol-none,
}

addr_spec-positive :
    (platform : Platform) (fuel : ℕ) (xs : Bytes) (c : ℕ) (s : Bytes)
    → 0 < fuel
    → platform.malloc (length xs + 1) ≡ true
    → IsAddr xs
    → is_final c ≡ true
    → addr_spec_parse platform fuel (xs ++ c ∷ s) ≡ ok (some xs) (c ∷ s)
addr_spec-positive platform zero xs c s positive = absurd (omega arith)
addr_spec-positive platform (suc fuel) xs c s positive = addr_spec-print platform fuel xs c s

module _ (env : Env) (law : IsEnv env) where
  pub angle-EndsPhrase :
      (s : Bytes) → EndsPhrase env.platform env.mmap_string env.fuel b' ' (b'<' ∷ s)
  angle-EndsPhrase s =
      blank-EndsPhrase env.platform env.mmap_string env.fuel law.growing law.memory b'<' s
        (unfold is_stop is_plain is_atext in refl)

  -- An address without a name is taken for a name first.
  pub phrase-addr :
      (addr : Bytes) (c : ℕ) (s : Bytes)
      → IsAddr addr
      → length addr < env.fuel
      → EndsMailbox env c s
      → phrase_parse env.platform env.mmap_string env.fuel (addr ++ c ∷ s)
        ≡ ok (c_string addr ++ []) (c ∷ s)
  phrase-addr addr c s h size ends = rw (addr-is_atom addr h) at (
      phrase_parse-ends env.platform env.mmap_string env.fuel law.growing law.memory addr [] c s
        ends.0 (size, tt) (omega (arith, addr-positive addr h)))

  mailbox_parts-print :
      (name : List Bytes) (addr : Bytes) (c : ℕ) (s : Bytes)
      → IsMailboxText env.fuel (record { name = name; addr = addr })
      → EndsMailbox env c s
      → mailbox_parts env.platform env.mmap_string env.fuel (print_name name addr (c ∷ s))
        ≡ ok (joined name, some addr) (c ∷ s)
  unfolding mailbox_parts name_addr_parse optional_name
  mailbox_parts-print [] addr c s (h, size, _, words) ends =
      rw
        (
          phrase-addr addr c s h size ends,
          angle_addr-none env law (omega arith) c s ends,
          addr_spec-positive env.platform env.fuel addr c s (omega arith)
              (law.memory (length addr + 1)) h ends.1,
        )
        refl
  mailbox_parts-print (w ∷ ws) addr c s (h, size, short, words) ends =
      rw
        (
          phrase_parse-ends env.platform env.mmap_string env.fuel law.growing law.memory w ws b' '
              (b'<' ∷ (addr ++ b'>' ∷ c ∷ s)) (angle-EndsPhrase (addr ++ b'>' ∷ c ∷ s)) short
              (omega arith),
          angle_addr-blank env.platform env.fuel addr (c ∷ s) (omega arith)
              (law.memory (length addr + 1)) h,
        )
        refl

  pub mailbox_parse-print :
      (t : MailboxText) (c : ℕ) (s : Bytes)
      → IsMailboxText env.fuel t
      → EndsMailbox env c s
      → mailbox_parse env (print_mailbox t (c ∷ s)) ≡ ok (mailbox_of t) (c ∷ s)
  unfolding mailbox_parse new_struct
  mailbox_parse-print t c s h ends =
      rw (mailbox_parts-print t.name t.addr c s h ends, law.memory (2 * env.platform.sizeof_ptr))
        refl

  abbrev pub mailbox_notation : Notation MailboxText (mailbox_parse env)
  mailbox_notation = record {
    print = print_mailbox;
    value = mailbox_of;
    Valid = IsMailboxText env.fuel;
    Ends = EndsMailbox env;
    parse-print = mailbox_parse-print;
  }

  pub comma-EndsMailbox : (s : Bytes) → 0 < env.fuel → EndsMailbox env b',' s
  comma-EndsMailbox s positive =
      stop-EndsMailbox env law positive b',' s (unfold is_stop is_plain is_atext in refl)
        (unfold is_final in refl)

  pub mailbox_list-ends :
      (t : MailboxText) (ts : List MailboxText) (c : ℕ) (s : Bytes)
      → Each (IsMailboxText env.fuel) (t ∷ ts)
      → length ts < env.fuel
      → EndsMailbox env c s
      → (c == b',') ≡ false
      → mailbox_list_parse env (print_mailboxes (t ∷ ts) (c ∷ s))
        ≡ ok (values mailbox_of (t ∷ ts)) (c ∷ s)
  unfolding mailbox_list_parse new_struct
  mailbox_list-ends t ts c s h size ends ne =
      let positive : 0 < env.fuel = omega arith in
      rw
        (
          struct_list_parse-print env.mailboxes law.mailbox_lists env.fuel b',' (mailbox_parse env)
              mailbox_notation positive (unfold is_plain in refl)
              (λ r. comma-EndsMailbox r positive) c s ends
              (symbol-none env law positive c s ends b',' ne) t ts h size,
          law.memory (1 * env.platform.sizeof_ptr),
        )
        refl

  -- smtp_mailbox_list_parse reads mailboxes back that are separated by commas, before a line end
  -- that no white space follows: each with the words of its name, if it has any, joined by blanks,
  -- and its address. Memory lasts, the fuel is above the number of mailboxes, the
  -- lengths and numbers of their words and the lengths of their addresses, and the bytes of an
  -- address are those of is_addr.
  pub mailbox_list_parse-print :
      (t : MailboxText) (ts : List MailboxText) (c : ℕ) (s : Bytes)
      → Each (IsMailboxText env.fuel) (t ∷ ts)
      → length ts < env.fuel
      → is_wsp c ≡ false
      → mailbox_list_parse env (print_mailboxes (t ∷ ts) (b'\r' ∷ b'\n' ∷ c ∷ s))
        ≡ ok (values mailbox_of (t ∷ ts)) (b'\r' ∷ b'\n' ∷ c ∷ s)
  mailbox_list_parse-print t ts c s h size end =
      mailbox_list-ends t ts b'\r' (b'\n' ∷ c ∷ s) h size
        (crlf-EndsMailbox env law (omega arith) c s end) refl
