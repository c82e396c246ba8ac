-- ===== src/Address.antt =====
-- src/address.c: mailboxes, groups and lists of them.
pub mod Spec
pub mod Text
pub mod Ends
pub mod RoundTrip
pub mod Groups
pub mod Crash
pub mod Domain
pub mod Edit
use smtp_nel_filter.Prelude.{
  ℕ, ◌+◌, ◌*◌, Bool, true, false, not, ◌&&◌, ◌||◌, ◌==◌, if◌then◌else◌, Option, none, some, List,
  [], ◌∷◌, Bytes, codes, length, take, drop,
}
use smtp_nel_filter.Outcome.{
  Outcome, ok, error_parse, error_continue, error_memory, out_of_fuel, fault, Parser, bind, lenient,
  or_else, ◌>>=◌, ◌>>◌, skip,
}
use smtp_nel_filter.Platform.{Platform}
use smtp_nel_filter.Mime.Space.{
  cfws_parse, colon_parse, semi_colon_parse, lower_parse, greater_parse,
}
use smtp_nel_filter.Mime.Words.{MmapString, new_string, phrase_parse}
use smtp_nel_filter.Mime.Lists.{Clist, struct_list_parse}

-- A null pointer is `none`.
pub record Mailbox : Type 0 where
  pub mb_display_name : Option Bytes
  pub mb_addr_spec : Option Bytes

pub record Group : Type 0 where
  pub grp_display_name : Bytes
  pub grp_mb_list : Option (List Mailbox)

pub data Address : Type 0 where
  mailbox_address : Mailbox → Address
  group_address : Group → Address

-- What all parsers of this file are given: the fuel, and the code that is not the program's own.
pub record Env : Type 0 where
  pub platform : Platform
  pub mmap_string : MmapString
  pub mailboxes : Clist Mailbox
  pub addresses : Clist Address
  pub ids : Clist (Option Bytes)
  pub strings : Clist Bytes
  pub fuel : ℕ

-- A structure of so many pointers, in which the value is kept.
unfoldable pub new_struct : {A : Type 0} → Env → ℕ → A → Parser A
new_struct env pointers a s =
    if env.platform.malloc (pointers * env.platform.sizeof_ptr) then ok a s else error_memory

-- `memcmp (message + cur_token, "<Undisclosed-Recipient:;>", 25) == 0`. It looks behind a message
-- that is cut off, where the NUL stands that process_smtp puts there, which is no such byte.
unfoldable pub starts_with : Bytes → Bytes → Bool
starts_with [] s = true
starts_with (x ∷ xs) [] = false
starts_with (x ∷ xs) (c ∷ s) = x == c && starts_with xs s

abbrev pub undisclosed : Bytes
undisclosed = codes "<Undisclosed-Recipient:;>"

-- The bytes of the `switch` that set `final`.
unfoldable pub is_final : ℕ → Bool
is_final c =
    c == b'>'
    || c == b','
    || c == b'\r'
    || c == b'\n'
    || c == b'('
    || c == b')'
    || c == b':'
    || c == b';'

-- The bytes before `end`, and those from there on.
unfoldable pub addr_end : Bytes → Bytes × Bytes
addr_end [] = ([], [])
addr_end (c ∷ s) =
    let (addr, rest) = addr_end s in if is_final c then ([], c ∷ s) else (c ∷ addr, rest)

-- The copy leaves out blanks.
unfoldable pub remove_blanks : Bytes → Bytes
remove_blanks [] = []
remove_blanks (c ∷ s) =
    let rest = remove_blanks s in if not (c == b' ') && not (c == b'\t') then c ∷ rest else rest

unfoldable pub addr_copy : Platform → Bytes × Bytes → Outcome (Option Bytes)
addr_copy platform ([], rest) = error_parse
addr_copy platform (c ∷ addr, rest) =
    bind (new_string platform (length (c ∷ addr)) (remove_blanks (c ∷ addr)) rest)
      λ addr_spec here. ok (some addr_spec) here

unfoldable pub addr_text_parse : Platform → Parser (Option Bytes)
addr_text_parse platform s =
    if starts_with undisclosed s then ok none (drop 25 s) else addr_copy platform (addr_end s)

unfoldable pub addr_spec_parse : Platform → ℕ → Parser (Option Bytes)
addr_spec_parse platform fuel = skip (cfws_parse fuel) >> addr_text_parse platform

unfoldable pub angle_addr_parse : Platform → ℕ → Parser (Option Bytes)
angle_addr_parse platform fuel = do
  skip (cfws_parse fuel)
  lower_parse fuel
  addr_spec ← addr_spec_parse platform fuel
  greater_parse fuel
  ok addr_spec

abbrev pub display_name_parse : Platform → MmapString → ℕ → Parser Bytes
display_name_parse = phrase_parse

-- A display name, if there is one: `none` where smtp_phrase_parse reports a mismatch.
unfoldable pub optional_name : Bytes → Outcome Bytes → Outcome (Option Bytes)
optional_name here (ok name rest) = ok (some name) rest
optional_name here error_parse = ok none here
optional_name here error_continue = error_continue
optional_name here error_memory = error_memory
optional_name here out_of_fuel = out_of_fuel
optional_name here fault = fault

unfoldable pub name_addr_parse : Platform → MmapString → ℕ → Parser (Option Bytes × Option Bytes)
name_addr_parse platform m fuel s =
    bind (optional_name s (display_name_parse platform m fuel s)) λ display_name here.
      bind (angle_addr_parse platform fuel here)
        λ angle_addr rest. ok (display_name, angle_addr) rest

-- Both pointers, or the address alone.
unfoldable pub mailbox_parts : Platform → MmapString → ℕ → Parser (Option Bytes × Option Bytes)
mailbox_parts platform m fuel s =
    or_else (name_addr_parse platform m fuel s)
      (bind (addr_spec_parse platform fuel s) λ addr_spec rest. ok (none, addr_spec) rest)

unfoldable pub mailbox_parse : Env → Parser Mailbox
mailbox_parse env s =
    bind (mailbox_parts env.platform env.mmap_string env.fuel s) λ (display_name, addr_spec).
      new_struct env 2 (record { mb_display_name = display_name; mb_addr_spec = addr_spec })

unfoldable pub mailbox_list_parse : Env → Parser (List Mailbox)
mailbox_list_parse env s =
    bind (struct_list_parse env.mailboxes b',' (mailbox_parse env) env.fuel s) (new_struct env 1)

-- The `switch` of smtp_group_parse: a list, or none and CFWS.
unfoldable pub group_list : ℕ → Bytes → Outcome (List Mailbox) → Outcome (Option (List Mailbox))
group_list fuel here (ok mailbox_list rest) = ok (some mailbox_list) rest
group_list fuel here error_parse = bind (lenient (cfws_parse fuel here) here) λ _ rest. ok none rest
group_list fuel here error_continue = error_continue
group_list fuel here error_memory = error_memory
group_list fuel here out_of_fuel = out_of_fuel
group_list fuel here fault = fault

-- `free_mailbox_list:` smtp_mailbox_list_free dereferences its argument.
abbrev pub free_mailbox_list : {A : Type 0} → Option (List Mailbox) → Outcome A → Outcome A
free_mailbox_list none res = fault
free_mailbox_list (some mailbox_list) res = res

unfoldable pub group_new : Env → Bytes → Option (List Mailbox) → Parser Group
group_new env display_name mailbox_list s =
    if env.platform.malloc (2 * env.platform.sizeof_ptr)
    then ok (record { grp_display_name = display_name; grp_mb_list = mailbox_list }) s
    else free_mailbox_list mailbox_list error_memory

unfoldable pub group_close :
    Env → Bytes → Option (List Mailbox) → Outcome (Unit {0}) → Outcome Group
group_close env display_name mailbox_list (ok _ rest) = group_new env display_name mailbox_list rest
group_close env display_name mailbox_list error_parse = free_mailbox_list mailbox_list error_parse
group_close env display_name mailbox_list error_continue =
    free_mailbox_list mailbox_list error_continue
group_close env display_name mailbox_list error_memory = free_mailbox_list mailbox_list error_memory
group_close env display_name mailbox_list out_of_fuel = out_of_fuel
group_close env display_name mailbox_list fault = fault

unfoldable pub group_parse : Env → Parser Group
group_parse env s =
    bind (display_name_parse env.platform env.mmap_string env.fuel s) λ display_name colon.
      bind (colon_parse env.fuel colon) λ _ list.
        bind (group_list env.fuel list (mailbox_list_parse env list)) λ mailbox_list rest.
          group_close env display_name mailbox_list (semi_colon_parse env.fuel rest)

unfoldable pub address_parse : Env → Parser Address
address_parse env s =
    bind
      (or_else (bind (group_parse env s) λ group rest. ok (group_address group) rest)
        (bind (mailbox_parse env s) λ mailbox rest. ok (mailbox_address mailbox) rest))
      (new_struct env 2)

unfoldable pub address_list_parse : Env → Parser (List Address)
address_list_parse env s =
    bind (struct_list_parse env.addresses b',' (address_parse env) env.fuel s) (new_struct env 1)
