-- ===== src/Address/Text.antt =====
-- How mailboxes, groups and addresses are written.
use smtp_nel_filter.Prelude.{
  ℕ, ◌<◌, ◌+◌, true, Bytes, List, [], ◌∷◌, ◌++◌, Option, none, some, length, ◌≡◌,
}
use smtp_nel_filter.Mime.Words.{c_string}
use smtp_nel_filter.Mime.Words.Quoted.{IsGrowing}
use smtp_nel_filter.Mime.Words.RoundTrip.{print_word}
use smtp_nel_filter.Mime.Words.Phrases.{print_more, join_more, Short}
use smtp_nel_filter.Mime.Lists.Grammar.{IsClist}
use smtp_nel_filter.Mime.Lists.Print.{Each, print_behind, values}
use smtp_nel_filter.Address.{Mailbox, Group, Address, mailbox_address, group_address, Env}
use smtp_nel_filter.Address.Spec.{IsAddr}

-- The words of the name, and the address; without a name there are no angle brackets.
pub record MailboxText : Type 0 where
  pub name : List Bytes
  pub addr : Bytes

abbrev pub print_name : List Bytes → Bytes → Bytes → Bytes
print_name [] addr rest = addr ++ rest
print_name (w ∷ ws) addr rest = print_word w (print_more ws (b' ' ∷ b'<' ∷ (addr ++ b'>' ∷ rest)))

abbrev pub print_mailbox : MailboxText → Bytes → Bytes
print_mailbox t = print_name t.name t.addr

abbrev pub joined : List Bytes → Option Bytes
joined [] = none
joined (w ∷ ws) = some (c_string w ++ join_more ws)

abbrev pub mailbox_of : MailboxText → Mailbox
mailbox_of t = record { mb_display_name = joined t.name; mb_addr_spec = some t.addr }

-- The fuel is enough for it.
abbrev pub IsMailboxText : ℕ → MailboxText → Type 0
IsMailboxText fuel t =
    IsAddr t.addr × (length t.addr < fuel) × Short fuel t.name × (length t.name < fuel)

-- A group has a name of at least one word.
pub data AddressText : Type 0 where
  mailbox_text : MailboxText → AddressText
  group_text : Bytes → List Bytes → List MailboxText → AddressText

abbrev pub print_mailboxes : List MailboxText → Bytes → Bytes
print_mailboxes [] rest = rest
print_mailboxes (t ∷ ts) rest = print_mailbox t (print_behind b',' print_mailbox ts rest)

abbrev pub print_group : Bytes → List Bytes → List MailboxText → Bytes → Bytes
print_group w ws ts rest = print_word w (print_more ws (b':' ∷ print_mailboxes ts (b';' ∷ rest)))

abbrev pub mailboxes_of : List MailboxText → Option (List Mailbox)
mailboxes_of [] = none
mailboxes_of (t ∷ ts) = some (values mailbox_of (t ∷ ts))

abbrev pub group_of : Bytes → List Bytes → List MailboxText → Group
group_of w ws ts = record {
  grp_display_name = c_string w ++ join_more ws;
  grp_mb_list = mailboxes_of ts;
}

abbrev pub print_address : AddressText → Bytes → Bytes
print_address (mailbox_text t) = print_mailbox t
print_address (group_text w ws ts) = print_group w ws ts

abbrev pub print_addresses : AddressText → List AddressText → Bytes → Bytes
print_addresses t ts rest = print_address t (print_behind b',' print_address ts rest)

abbrev pub address_of : AddressText → Address
address_of (mailbox_text t) = mailbox_address (mailbox_of t)
address_of (group_text w ws ts) = group_address (group_of w ws ts)

abbrev pub IsAddressText : ℕ → AddressText → Type 0
IsAddressText fuel (mailbox_text t) = IsMailboxText fuel t
IsAddressText fuel (group_text w ws ts) =
    Short fuel (w ∷ ws) × (length ws + 1 < fuel) × Each (IsMailboxText fuel) ts × (length ts < fuel)

-- Memory lasts, and strings and lists grow as they promise.
pub record IsEnv (env : Env) : Type 0 where
  pub growing : IsGrowing env.mmap_string
  pub mailbox_lists : IsClist env.mailboxes
  pub address_lists : IsClist env.addresses
  pub id_lists : IsClist env.ids
  pub string_lists : IsClist env.strings
  pub memory : (k : ℕ) → env.platform.malloc k ≡ true
