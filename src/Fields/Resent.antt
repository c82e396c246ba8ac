-- ===== src/Fields/Resent.antt =====
-- The Resent- fields: src/resent-date.c, resent-from.c, resent-sender.c, resent-to.c, resent-cc.c,
-- resent-bcc.c and resent-msg-id.c.
use smtp_nel_filter.Prelude.{ℕ, some, List, [], Bytes}
use smtp_nel_filter.Outcome.{
  Outcome, ok, error_parse, error_continue, error_memory, out_of_fuel, fault, Parser,
}
use smtp_nel_filter.Mime.Space.{unstrict_crlf_parse}
use smtp_nel_filter.DateTime.{date_time_parse}
use smtp_nel_filter.DateTime.Field.{OrigDate, orig_date_new}
use smtp_nel_filter.Address.{
  Address, Env, new_struct, mailbox_parse, mailbox_list_parse, address_list_parse,
}
use smtp_nel_filter.MsgId.{msg_id_parse}
use smtp_nel_filter.Fields.{field_parse, Sender, Cc, Bcc, bcc_end, MessageId, message_id_new}
use smtp_nel_filter.Fields.Policy.{Engine, MsgFrom, msg_from_new, MsgTo, msg_to_new}

unfoldable pub resent_date_parse : Env → Parser OrigDate
resent_date_parse env =
    field_parse env (date_time_parse env.platform env.fuel) (orig_date_new env.platform)

unfoldable pub resent_from_parse : Env → Engine → Parser MsgFrom
resent_from_parse env engine = field_parse env (mailbox_list_parse env) (msg_from_new engine)

-- `cur_token = length;`
unfoldable pub resent_sender_parse : Env → Parser Sender
resent_sender_parse env s =
    field_parse env (mailbox_parse env) (λ mb. new_struct env 1 (record { snd_mb = mb })) []

unfoldable pub resent_to_parse : Env → Engine → Parser MsgTo
resent_to_parse env engine = field_parse env (address_list_parse env) (msg_to_new engine)

unfoldable pub resent_cc_parse : Env → Parser Cc
resent_cc_parse env =
    field_parse env (address_list_parse env)
      λ addr_list. new_struct env 1 (record { cc_addr_list = addr_list })

-- `return TRUE;` is SMTP_ERROR_CONTINUE, with `*result` and `*index` set.
pub data ResentBcc : Type 0 where
  returns_true : Bcc → Bytes → ResentBcc
  returns_code : Outcome Bcc → ResentBcc

unfoldable pub resent_bcc_true : Outcome Bcc → ResentBcc
resent_bcc_true (ok bcc rest) = returns_true bcc rest
resent_bcc_true error_parse = returns_code error_parse
resent_bcc_true error_continue = returns_code error_continue
resent_bcc_true error_memory = returns_code error_memory
resent_bcc_true out_of_fuel = returns_code out_of_fuel
resent_bcc_true fault = returns_code fault

-- Behind a mismatch, `addr_list` has no value; both ways on use it.
unfoldable pub unset_list : Outcome (Unit {0}) → ResentBcc
unset_list (ok _ rest) = returns_code fault
unset_list error_parse = returns_code fault
unset_list error_continue = returns_code fault
unset_list error_memory = returns_code fault
unset_list out_of_fuel = returns_code out_of_fuel
unset_list fault = returns_code fault

unfoldable pub resent_bcc_list : Env → Bytes → Outcome (List Address) → ResentBcc
resent_bcc_list env here (ok addr_list rest) =
    resent_bcc_true (bcc_end env (some addr_list) (unstrict_crlf_parse env.fuel rest))
resent_bcc_list env here error_parse = unset_list (unstrict_crlf_parse env.fuel here)
resent_bcc_list env here error_continue = returns_code error_continue
resent_bcc_list env here error_memory = returns_code error_memory
resent_bcc_list env here out_of_fuel = returns_code out_of_fuel
resent_bcc_list env here fault = returns_code fault

unfoldable pub resent_bcc_parse : Env → Bytes → ResentBcc
resent_bcc_parse env s = resent_bcc_list env s (address_list_parse env s)

unfoldable pub resent_msg_id_parse : Env → ℕ → Parser MessageId
resent_msg_id_parse env sizeof_message_id =
    field_parse env (msg_id_parse env.platform env.fuel) (message_id_new env sizeof_message_id)
