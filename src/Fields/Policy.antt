-- ===== src/Fields/Policy.antt =====
-- The From and To fields of a message (src/from.c, to.c): the NEL engine looks at them, and what it
-- permits decides whether they are accepted.
use smtp_nel_filter.Prelude.{
  ℕ, ◌%◌, ◌/◌, Bool, not, ◌==◌, Option, none, some, List, Bytes, if◌then◌else◌,
}
use smtp_nel_filter.Outcome.{
  Outcome, ok, error_parse, error_continue, error_memory, out_of_fuel, fault, Parser,
}
use smtp_nel_filter.Address.{Mailbox, Address, Env, mailbox_list_parse, address_list_parse}
use smtp_nel_filter.Fields.{field_parse}

-- `err_cnt` is set to 0; `len` is not set.
pub record MsgFrom : Type 0 where
  pub frm_mb_list : List Mailbox
  pub err_cnt : ℕ

pub record MsgTo : Type 0 where
  pub to_addr_list : List Address
  pub err_cnt : ℕ

-- The pools' answers, and nel_env_analysis, which may set `psmtp->permit`: the value that it leaves
-- there, or `none` for a negative result.
pub record Engine : Type 0 where
  pub alloc_from : Bool
  pub alloc_to : Bool
  pub analysis_from : MsgFrom → ℕ → Option ℕ
  pub analysis_to : MsgTo → ℕ → Option ℕ

-- The codes that the fields return besides the parsers' ones.
pub data Verdict (A : Type 0) : Type 0 where
  returns : Outcome A → Verdict A
  error_engine error_policy : Verdict A

-- `permit & SMTP_PERMIT_DENY`, where the enumeration counts up: FORWARD is 0, ALERT 1, DENY 2 and
-- DROP 3.
abbrev pub permit_deny : ℕ → Bool
permit_deny permit = not (permit / 2 % 2 == 0)

-- `permit & SMTP_PERMIT_DROP`
abbrev pub permit_drop : ℕ → Bool
permit_drop permit = not (permit % 4 == 0)

unfoldable pub permitted : {A : Type 0} → ℕ → A → Bytes → Verdict A
permitted permit a rest =
    if permit_deny permit
    then error_policy
    else (if permit_drop permit then error_policy else returns (ok a rest))

-- What follows nel_env_analysis, with `psmtp->permit` as it was before, if the engine fails.
unfoldable pub analysed : {A : Type 0} → ℕ → A → Bytes → Option ℕ → Verdict A × ℕ
analysed old a rest none = (error_engine, old)
analysed old a rest (some permit) = (permitted permit a rest, permit)

-- A field that has been read is shown to the engine.
unfoldable pub shown : {A : Type 0} → (A → ℕ → Option ℕ) → ℕ → Outcome A → Verdict A × ℕ
shown analysis permit (ok a rest) = analysed permit a rest (analysis a permit)
shown analysis permit error_parse = (returns error_parse, permit)
shown analysis permit error_continue = (returns error_continue, permit)
shown analysis permit error_memory = (returns error_memory, permit)
shown analysis permit out_of_fuel = (returns out_of_fuel, permit)
shown analysis permit fault = (returns fault, permit)

unfoldable pub msg_from_new : Engine → List Mailbox → Parser MsgFrom
msg_from_new engine frm_mb_list s =
    if engine.alloc_from
    then ok (record { frm_mb_list = frm_mb_list; err_cnt = 0 }) s
    else error_memory

unfoldable pub msg_from_parse : Env → Engine → ℕ → Bytes → Verdict MsgFrom × ℕ
msg_from_parse env engine permit s =
    shown engine.analysis_from permit
      (field_parse env (mailbox_list_parse env) (msg_from_new engine) s)

unfoldable pub msg_to_new : Engine → List Address → Parser MsgTo
msg_to_new engine to_addr_list s =
    if engine.alloc_to
    then ok (record { to_addr_list = to_addr_list; err_cnt = 0 }) s
    else error_memory

unfoldable pub msg_to_parse : Env → Engine → ℕ → Bytes → Verdict MsgTo × ℕ
msg_to_parse env engine permit s =
    shown engine.analysis_to permit (field_parse env (address_list_parse env) (msg_to_new engine) s)
