-- ===== src/Envelope.antt =====
-- Paths of SMTP commands: the parsers that allow only blanks in front (smtp_wsp_* of src/mime.c and
-- src/address.c), and smtp_adl_path_parse of src/path.c.
pub mod Mailboxes
pub mod RoundTrip
use smtp_nel_filter.Prelude.{
  ℕ, zero, suc, ◌+◌, ◌*◌, Bool, true, false, ◌==◌, leb, if◌then◌else◌, Option, none, some, List, [],
  ◌∷◌, Bytes, length,
}
use smtp_nel_filter.Outcome.{
  Outcome, ok, error_parse, error_continue, error_memory, out_of_fuel, fault, Parser, bind, or_else,
  ◌>>=◌, ◌>>◌, skip,
}
use smtp_nel_filter.Platform.{Platform}
use smtp_nel_filter.Mime.Scan.{wsps_parse, wsp_unstrict_char_parse}
use smtp_nel_filter.Mime.Words.{
  MmapString, c_string, new_string, grown, atom_text_parse, phrase_word,
}
use smtp_nel_filter.Mime.Lists.{struct_list_parse}
use smtp_nel_filter.Address.{Mailbox, Env, new_struct, addr_end, addr_copy, optional_name}

abbrev pub wsp_lower_parse : Parser (Unit {0})
wsp_lower_parse = wsp_unstrict_char_parse b'<'

abbrev pub wsp_greater_parse : Parser (Unit {0})
wsp_greater_parse = wsp_unstrict_char_parse b'>'

abbrev pub wsp_at_sign_parse : Parser (Unit {0})
wsp_at_sign_parse = wsp_unstrict_char_parse b'@'

unfoldable pub wsp_atom_parse : Platform → Parser Bytes
wsp_atom_parse platform = skip wsps_parse >> atom_text_parse platform

abbrev pub wsp_word_parse : Platform → Parser Bytes
wsp_word_parse = wsp_atom_parse

-- The first number bounds the words.
unfoldable pub wsp_phrase_loop : Platform → MmapString → ℕ → Bool → Bytes → Parser Bytes
wsp_phrase_loop platform m zero first gphrase s = out_of_fuel
wsp_phrase_loop platform m (suc words) first gphrase s =
    phrase_word m (wsp_phrase_loop platform m words) first gphrase s (wsp_word_parse platform s)

unfoldable pub wsp_phrase_parse : Platform → MmapString → ℕ → Parser Bytes
wsp_phrase_parse platform m fuel s = bind (grown m.new s) λ gphrase here.
    bind (wsp_phrase_loop platform m fuel true gphrase here)
      λ str rest. new_string platform (length (c_string str)) str rest

-- At the end of the buffer it takes the NUL that process_smtp puts there for a byte of the address;
-- the cursor is then one behind the end, where all parsers find what they find at the end.
unfoldable pub wsp_addr_spec_parse : Platform → Parser (Option Bytes)
wsp_addr_spec_parse platform [] = addr_copy platform (0 ∷ [], [])
wsp_addr_spec_parse platform (c ∷ s) = addr_copy platform (addr_end (c ∷ s))

unfoldable pub wsp_angle_addr_parse : Platform → Parser (Option Bytes)
wsp_angle_addr_parse platform = do
  wsp_lower_parse
  addr_spec ← wsp_addr_spec_parse platform
  wsp_greater_parse
  ok addr_spec

abbrev pub wsp_display_name_parse : Platform → MmapString → ℕ → Parser Bytes
wsp_display_name_parse = wsp_phrase_parse

unfoldable pub wsp_name_addr_parse :
    Platform → MmapString → ℕ → Parser (Option Bytes × Option Bytes)
wsp_name_addr_parse platform m fuel s =
    bind (optional_name s (wsp_display_name_parse platform m fuel s)) λ display_name here.
      bind (wsp_angle_addr_parse platform here)
        λ angle_addr rest. ok (display_name, angle_addr) rest

unfoldable pub wsp_mailbox_parts : Platform → MmapString → ℕ → Parser (Option Bytes × Option Bytes)
wsp_mailbox_parts platform m fuel s =
    or_else (wsp_name_addr_parse platform m fuel s)
      (bind (wsp_addr_spec_parse platform s) λ addr_spec rest. ok (none, addr_spec) rest)

unfoldable pub wsp_mailbox_parse : Env → Parser Mailbox
wsp_mailbox_parse env s =
    bind (wsp_mailbox_parts env.platform env.mmap_string env.fuel s) λ (display_name, addr_spec).
      new_struct env 2 (record { mb_display_name = display_name; mb_addr_spec = addr_spec })

unfoldable pub wsp_mailbox_list_parse : Env → Parser (List Mailbox)
wsp_mailbox_list_parse env s =
    bind (struct_list_parse env.mailboxes b',' (wsp_mailbox_parse env) env.fuel s)
      (new_struct env 1)

-- `res = SMTP_ERROR_PARSE;` whatever the code was.
abbrev pub any_mismatch : {A : Type 0} → Outcome A → Outcome A
any_mismatch (ok a rest) = ok a rest
any_mismatch error_parse = error_parse
any_mismatch error_continue = error_parse
any_mismatch error_memory = error_parse
any_mismatch out_of_fuel = out_of_fuel
any_mismatch fault = fault

-- `strchr (message + cur_token, ':')`, behind the colon. A NUL stands behind the buffer.
unfoldable pub behind_colon : Bytes → Outcome (Unit {0})
behind_colon [] = error_parse
behind_colon (c ∷ s) =
    let more = behind_colon s in
    if c == b':' then ok tt s else (if c == 0 then error_parse else more)

-- The source route, if an `@` comes first.
unfoldable pub source_route : Bytes → Outcome (Unit {0}) → Outcome (Unit {0})
source_route here (ok _ rest) = behind_colon rest
source_route here error_parse = ok tt here
source_route here error_continue = ok tt here
source_route here error_memory = ok tt here
source_route here out_of_fuel = out_of_fuel
source_route here fault = fault

-- smtp_mailbox_addr_pool: whether alloc_mem yields a block, and the bytes of one.
pub record AddrPool : Type 0 where
  pub alloc_mem : Bool
  pub block_size : ℕ

-- smtp_mailbox_list_free, on a list that is still allocated or was freed before. What follows is told
-- that the list is freed; mb_list keeps its address.
unfoldable pub list_free : Bool → (Bool → Outcome Bytes) → Outcome Bytes
list_free true go_on = go_on false
list_free false go_on = fault

-- `err:` with a list in mb_list.
unfoldable pub path_err : Outcome Bytes → Bool → Outcome Bytes
path_err res allocated = list_free allocated λ _. res

-- mailbox_addr_dup and what follows it. `none` is a null pointer, which strlen reads; a longer
-- address than the block is written behind it.
unfoldable pub mailbox_addr_dup : AddrPool → Option Bytes → Parser Bytes
mailbox_addr_dup pool none rest = fault
mailbox_addr_dup pool (some addr_spec) rest =
    if pool.alloc_mem
    then (if leb (length addr_spec + 1) pool.block_size
        then (list_free true (λ _. ok addr_spec rest))
        else fault)
    else list_free true (path_err error_memory)

-- Any number of mailboxes but one is a mismatch.
unfoldable pub one_mailbox : AddrPool → List Mailbox → Parser Bytes
one_mailbox pool [] rest = list_free true (path_err error_parse)
one_mailbox pool (mailbox ∷ []) rest = mailbox_addr_dup pool mailbox.mb_addr_spec rest
one_mailbox pool (mailbox ∷ other ∷ more) rest = list_free true (path_err error_parse)

-- Without the closing bracket the code is SMTP_ERROR_PARSE, whatever smtp_wsp_greater_parse says.
unfoldable pub path_close : AddrPool → List Mailbox → Outcome (Unit {0}) → Outcome Bytes
path_close pool mb_list (ok _ rest) = one_mailbox pool mb_list rest
path_close pool mb_list error_parse = list_free true (path_err error_parse)
path_close pool mb_list error_continue = list_free true (path_err error_parse)
path_close pool mb_list error_memory = list_free true (path_err error_parse)
path_close pool mb_list out_of_fuel = out_of_fuel
path_close pool mb_list fault = fault

unfoldable pub adl_path_parse : Env → AddrPool → Parser Bytes
adl_path_parse env pool s = bind (any_mismatch (wsp_lower_parse s)) λ _ here.
    bind (source_route here (wsp_at_sign_parse here)) λ _ mailboxes.
      bind (wsp_mailbox_list_parse env mailboxes)
        λ mb_list greater. path_close pool mb_list (wsp_greater_parse greater)

abbrev pub reverse_path_parse : Env → AddrPool → Parser Bytes
reverse_path_parse = adl_path_parse

abbrev pub forward_path_parse : Env → AddrPool → Parser Bytes
forward_path_parse = adl_path_parse
