-- ===== src/Address/Edit.antt =====
-- Making and filling lists of mailboxes and addresses, src/address.c. A string is the memory
-- that it starts, and ends at its first NUL. What is not put in a list is given back; the lists and their cells are `env`'s.
use smtp_nel_filter.Prelude.{ℕ, false, ◌==◌, ◌≡◌, Option, none, some, List, [], ◌∷◌, ◌++◌, Bytes}
use smtp_nel_filter.Outcome.{Outcome, fault, ok, bind}
use smtp_nel_filter.Mime.Words.{c_string}
use smtp_nel_filter.Mime.Lists.{appended}
use smtp_nel_filter.Address.{
  Mailbox, Address, mailbox_address, Env, new_struct, mailbox_parse, address_parse,
}
use smtp_nel_filter.Address.Text.{
  MailboxText, mailbox_text, print_mailbox, mailbox_of, IsMailboxText, IsEnv,
}
use smtp_nel_filter.Address.Ends.{EndsMailbox}
use smtp_nel_filter.Address.RoundTrip.{mailbox_parse-print}
use smtp_nel_filter.Address.Groups.{address_parse-print}

-- The list of the structure.
unfoldable pub mailbox_list_new_empty : Env → Outcome (List Mailbox)
mailbox_list_new_empty env = bind (appended env.mailboxes.new []) (new_struct env 1)

unfoldable pub mailbox_list_add : Env → List Mailbox → Mailbox → Outcome (List Mailbox)
mailbox_list_add env mailbox_list mb = appended (env.mailboxes.append mailbox_list mb) []

unfoldable pub mailbox_list_add_parse : Env → List Mailbox → Bytes → Outcome (List Mailbox)
mailbox_list_add_parse env mailbox_list mb_str =
    bind (mailbox_parse env (c_string mb_str)) λ mb _. mailbox_list_add env mailbox_list mb

unfoldable pub mailbox_new : Env → Option Bytes → Option Bytes → Outcome Mailbox
mailbox_new env display_name address =
    new_struct env 2 (record { mb_display_name = display_name; mb_addr_spec = address }) []

unfoldable pub mailbox_list_add_mb :
    Env → List Mailbox → Option Bytes → Option Bytes → Outcome (List Mailbox)
mailbox_list_add_mb env mailbox_list display_name address =
    bind (mailbox_new env display_name address) λ mb _. mailbox_list_add env mailbox_list mb

unfoldable pub address_list_new_empty : Env → Outcome (List Address)
address_list_new_empty env = bind (appended env.addresses.new []) (new_struct env 1)

unfoldable pub address_list_add : Env → List Address → Address → Outcome (List Address)
address_list_add env address_list addr = appended (env.addresses.append address_list addr) []

unfoldable pub address_list_add_parse : Env → List Address → Bytes → Outcome (List Address)
address_list_add_parse env address_list addr_str =
    bind (address_parse env (c_string addr_str)) λ addr _. address_list_add env address_list addr

-- `free_addr:` smtp_address_free frees the mailbox, and `free_mb:` frees it again.
abbrev pub append_or_free : Option (List Address) → Outcome (List Address)
append_or_free none = fault
append_or_free (some address_list) = ok address_list []

unfoldable pub address_list_add_mb :
    Env → List Address → Option Bytes → Option Bytes → Outcome (List Address)
address_list_add_mb env address_list display_name address =
    bind (mailbox_new env display_name address) λ mb _.
      bind (new_struct env 2 (mailbox_address mb) [])
        λ addr _. append_or_free (env.addresses.append address_list addr)

-- The text of a mailbox is read and put behind the elements of a list of mailboxes, and as an
-- address in a list of addresses, if a byte that ends it and is no colon follows it in the text.
-- Memory lasts, no NUL is in the text, and the fuel is enough for the mailbox.
pub list_add_parse-print :
    (env : Env)
    → IsEnv env
    → (t : MailboxText) (c : ℕ) (s : Bytes) (mailbox_list : List Mailbox)
      (address_list : List Address)
    → IsMailboxText env.fuel t
    → EndsMailbox env c s
    → (c == b':') ≡ false
    → c_string (print_mailbox t (c ∷ s)) ≡ print_mailbox t (c ∷ s)
    → (mailbox_list_add_parse env mailbox_list (print_mailbox t (c ∷ s))
        ≡ ok (mailbox_list ++ mailbox_of t ∷ []) [])
      × (address_list_add_parse env address_list (print_mailbox t (c ∷ s))
          ≡ ok (address_list ++ mailbox_address (mailbox_of t) ∷ []) [])
unfolding mailbox_list_add_parse mailbox_list_add address_list_add_parse address_list_add
list_add_parse-print env law t c s mailbox_list address_list h ends ne text =
    let mb = mailbox_of t in
    (
      rw (
        text,
        mailbox_parse-print env law t c s h ends,
        law.mailbox_lists.append-last mailbox_list mb,
      ),
      rw (
        text,
        address_parse-print env law (mailbox_text t) c s h (ends, ne),
        law.address_lists.append-last address_list (mailbox_address mb),
      ),
    )
