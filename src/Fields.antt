-- ===== src/Fields.antt =====
-- Header fields: src/path.c (smtp_path_parse), return.c, message-id.c, in_reply_to.c, reference.c,
-- sender.c, reply-to.c, cc.c, bcc.c, subject.c, comments.c, keywords.c and received.c. Each reads a value and the
-- line end, and keeps the value in a structure; on an error it frees what it has read.
pub mod Resent
pub mod Policy
pub mod RoundTrip
pub mod Mistakes
use smtp_nel_filter.Prelude.{ℕ, ◌*◌, Option, none, some, List, Bytes, if◌then◌else◌}
use smtp_nel_filter.Outcome.{
  Outcome, ok, error_parse, error_continue, error_memory, out_of_fuel, fault, Parser, bind, lenient,
}
use smtp_nel_filter.Mime.Space.{cfws_parse, lower_parse, greater_parse, unstrict_crlf_parse}
use smtp_nel_filter.Mime.Unstructured.{unstructured_parse}
use smtp_nel_filter.Mime.Words.{phrase_parse}
use smtp_nel_filter.Mime.Lists.{struct_multiple_parse, struct_list_parse}
use smtp_nel_filter.Address.{
  Mailbox, Address, Env, new_struct, addr_spec_parse, mailbox_parse, address_list_parse,
}
use smtp_nel_filter.MsgId.{msg_id_parse, unstrict_msg_id_parse}

-- The shape of a field: its value, the line end, and the structure.
abbrev pub field_parse : {A B : Type 0} → Env → Parser A → (A → Parser B) → Parser B
field_parse env value new s =
    bind (value s) λ a here. bind (unstrict_crlf_parse env.fuel here) λ _ rest. new a rest

pub record MailPath : Type 0 where
  pub pt_addr_spec : Option Bytes

-- The `switch` of smtp_path_parse: an address, or none and CFWS.
unfoldable pub path_addr_spec : ℕ → Bytes → Outcome (Option Bytes) → Outcome (Option Bytes)
path_addr_spec fuel here (ok addr_spec rest) = ok addr_spec rest
path_addr_spec fuel here error_parse =
    bind (lenient (cfws_parse fuel here) here) λ _ rest. ok none rest
path_addr_spec fuel here error_continue = error_continue
path_addr_spec fuel here error_memory = error_memory
path_addr_spec fuel here out_of_fuel = out_of_fuel
path_addr_spec fuel here fault = fault

unfoldable pub path_parse : Env → Parser MailPath
path_parse env s = bind (lenient (cfws_parse env.fuel s) s) λ _ lower.
    bind (lower_parse env.fuel lower) λ _ here.
      bind (path_addr_spec env.fuel here (addr_spec_parse env.platform env.fuel here))
        λ addr_spec greater.
          bind (greater_parse env.fuel greater)
            λ _. new_struct env 1 (record { pt_addr_spec = addr_spec })

pub record Return : Type 0 where
  pub ret_path : MailPath

unfoldable pub return_parse : Env → Parser Return
return_parse env =
    field_parse env (path_parse env) λ path. new_struct env 1 (record { ret_path = path })

-- `err_cnt` is set to 0; NEL_REF_DEF and NEL_REF_INIT are of the NEL engine.
pub record MessageId : Type 0 where
  pub mid_value : Option Bytes
  pub err_cnt : ℕ

-- `sizeof_message_id` is what the engine's fields make the structure's size.
unfoldable pub message_id_new : Env → ℕ → Option Bytes → Parser MessageId
message_id_new env sizeof_message_id mid_value s =
    if env.platform.malloc sizeof_message_id
    then ok (record { mid_value = mid_value; err_cnt = 0 }) s
    else error_memory

unfoldable pub message_id_parse : Env → ℕ → Parser MessageId
message_id_parse env sizeof_message_id =
    field_parse env (msg_id_parse env.platform env.fuel) (message_id_new env sizeof_message_id)

unfoldable pub msg_id_list_parse : Env → Parser (List (Option Bytes))
msg_id_list_parse env =
    struct_multiple_parse env.ids (unstrict_msg_id_parse env.platform env.mmap_string env.fuel)
      env.fuel

pub record InReplyTo : Type 0 where
  pub mid_list : List (Option Bytes)

unfoldable pub in_reply_to_parse : Env → Parser InReplyTo
in_reply_to_parse env =
    field_parse env (msg_id_list_parse env)
      λ msg_id_list. new_struct env 1 (record { mid_list = msg_id_list })

pub record References : Type 0 where
  pub ref_mid_list : List (Option Bytes)

unfoldable pub references_parse : Env → Parser References
references_parse env =
    field_parse env (msg_id_list_parse env)
      λ msg_id_list. new_struct env 1 (record { ref_mid_list = msg_id_list })

pub record Sender : Type 0 where
  pub snd_mb : Mailbox

unfoldable pub sender_parse : Env → Parser Sender
sender_parse env =
    field_parse env (mailbox_parse env) λ mb. new_struct env 1 (record { snd_mb = mb })

pub record ReplyTo : Type 0 where
  pub rt_addr_list : List Address

unfoldable pub reply_to_parse : Env → Parser ReplyTo
reply_to_parse env =
    field_parse env (address_list_parse env)
      λ addr_list. new_struct env 1 (record { rt_addr_list = addr_list })

pub record Cc : Type 0 where
  pub cc_addr_list : List Address

unfoldable pub cc_parse : Env → Parser Cc
cc_parse env =
    field_parse env (address_list_parse env)
      λ addr_list. new_struct env 1 (record { cc_addr_list = addr_list })

-- A null pointer is `none`.
pub record Bcc : Type 0 where
  pub bcc_addr_list : Option (List Address)

-- The `switch` of smtp_bcc_parse: a list, or none and CFWS.
unfoldable pub bcc_list : ℕ → Bytes → Outcome (List Address) → Outcome (Option (List Address))
bcc_list fuel here (ok addr_list rest) = ok (some addr_list) rest
bcc_list fuel here error_parse = bind (lenient (cfws_parse fuel here) here) λ _ rest. ok none rest
bcc_list fuel here error_continue = error_continue
bcc_list fuel here error_memory = error_memory
bcc_list fuel here out_of_fuel = out_of_fuel
bcc_list fuel here fault = fault

-- `free_addr_list:` smtp_address_list_free dereferences its argument.
abbrev pub free_addr_list : {A : Type 0} → Option (List Address) → Outcome A → Outcome A
free_addr_list none res = fault
free_addr_list (some addr_list) res = res

unfoldable pub bcc_new : Env → Option (List Address) → Parser Bcc
bcc_new env addr_list s =
    if env.platform.malloc (1 * env.platform.sizeof_ptr)
    then ok (record { bcc_addr_list = addr_list }) s
    else free_addr_list addr_list error_memory

unfoldable pub bcc_end : Env → Option (List Address) → Outcome (Unit {0}) → Outcome Bcc
bcc_end env addr_list (ok _ rest) = bcc_new env addr_list rest
bcc_end env addr_list error_parse = free_addr_list addr_list error_parse
bcc_end env addr_list error_continue = free_addr_list addr_list error_continue
bcc_end env addr_list error_memory = free_addr_list addr_list error_memory
bcc_end env addr_list out_of_fuel = out_of_fuel
bcc_end env addr_list fault = fault

unfoldable pub bcc_parse : Env → Parser Bcc
bcc_parse env s =
    bind (bcc_list env.fuel s (address_list_parse env s))
      λ addr_list rest. bcc_end env addr_list (unstrict_crlf_parse env.fuel rest)

pub record Subject : Type 0 where
  pub sbj_value : Bytes

unfoldable pub subject_parse : Env → Parser Subject
subject_parse env =
    field_parse env (unstructured_parse env.platform)
      λ value. new_struct env 1 (record { sbj_value = value })

pub record Comments : Type 0 where
  pub cm_value : Bytes

unfoldable pub comments_parse : Env → Parser Comments
comments_parse env =
    field_parse env (unstructured_parse env.platform)
      λ value. new_struct env 1 (record { cm_value = value })

pub record Keywords : Type 0 where
  pub kw_list : List Bytes

unfoldable pub keywords_parse : Env → Parser Keywords
keywords_parse env =
    field_parse env
      (struct_list_parse env.strings b',' (phrase_parse env.platform env.mmap_string env.fuel)
        env.fuel)
      λ list. new_struct env 1 (record { kw_list = list })

pub record Received : Type 0 where
  pub pt_server_spec : Bytes

unfoldable pub received_parse : Env → Parser Received
received_parse env =
    field_parse env (unstructured_parse env.platform)
      λ value. new_struct env 1 (record { pt_server_spec = value })
