-- ===== src/Fields/Mistakes.antt =====
-- Fields that are not accepted as they should be.
use smtp_nel_filter.Prelude.{
  ℕ, zero, suc, ◌%◌, ◌<◌, true, false, ◌==◌, some, List, [], ◌∷◌, Bytes, if◌then◌else◌, ◌≡◌, ◌≢◌,
  refl, arith, length,
}
use smtp_nel_filter.Outcome.{
  Outcome, ok, error_parse, error_continue, error_memory, out_of_fuel, fault,
}
use smtp_nel_filter.Mime.Chars.{is_wsp}
use smtp_nel_filter.Mime.Scan.{wsp_loop}
use smtp_nel_filter.Mime.Space.{fws_parse, unstrict_crlf_parse}
use smtp_nel_filter.Mime.Words.{
  fws_atom_parse, fws_word_parse, phrase_word, phrase_loop, phrase_parse,
}
use smtp_nel_filter.Mime.Lists.Print.{Each, values}
use smtp_nel_filter.Address.{
  Address, Env, optional_name, name_addr_parse, mailbox_parts, mailbox_parse, address_list_parse,
}
use smtp_nel_filter.Address.Text.{MailboxText, print_mailboxes, mailbox_of, IsMailboxText, IsEnv}
use smtp_nel_filter.Address.RoundTrip.{mailbox_list_parse-print}
use smtp_nel_filter.Fields.{Bcc, bcc_end}
use smtp_nel_filter.Fields.RoundTrip.{crlf-at}
use smtp_nel_filter.Fields.Policy.{
  MsgFrom, Engine, Verdict, returns, error_policy, permitted, analysed, shown, msg_from_new,
  msg_from_parse,
}
use smtp_nel_filter.Fields.Resent.{
  resent_sender_parse, returns_code, resent_bcc_true, unset_list, resent_bcc_list, resent_bcc_parse,
}

-- No word begins at the end of the buffer, where the parsers ask for more.
phrase_loop-empty :
    (env : Env) (n : ℕ)
    → 0 < n
    → phrase_loop env.platform env.mmap_string env.fuel n true [] [] ≡ error_continue
unfolding phrase_loop phrase_word fws_word_parse fws_atom_parse fws_parse wsp_loop
phrase_loop-empty env zero positive = absurd (omega arith)
phrase_loop-empty env (suc n) positive = refl

phrase-empty :
    (env : Env)
    → IsEnv env
    → 0 < env.fuel
    → phrase_parse env.platform env.mmap_string env.fuel [] ≡ error_continue
unfolding phrase_parse
phrase-empty env law positive =
    simp law.growing.new-empty (rw (phrase_loop-empty env env.fuel positive) refl)

-- smtp_resent_sender_parse never reads a sender: it starts at the end of the buffer, whatever the
-- field holds, and asks for more. Memory lasts, and there is fuel.
pub resent_sender_parse-continue :
    (env : Env) (s : Bytes) → IsEnv env → 0 < env.fuel → resent_sender_parse env s ≡ error_continue
unfolding resent_sender_parse mailbox_parse mailbox_parts name_addr_parse optional_name
resent_sender_parse-continue env s law positive = rw (phrase-empty env law positive) refl

-- The engine permits it: the remainder says which of FORWARD, ALERT, DENY and DROP.
abbrev pub judged : {A : Type 0} → ℕ → A → Bytes → Verdict A
judged permit a rest = if permit % 4 == 0 then returns (ok a rest) else error_policy

permitted_lem :
    {A : Type 0} (permit : ℕ) (a : A) (rest : Bytes)
    → permitted permit a rest ≡ judged permit a rest
unfolding permitted
permitted_lem permit a rest = ground arith

module _ (env : Env) (law : IsEnv env) (engine : Engine) where
  -- smtp_msg_from_parse reads mailboxes back that are separated by commas, and the line end, which
  -- no white space follows, and shows them to the engine. It accepts them only if neither of the
  -- two low bits of what the engine leaves in `permit` is set, so that ALERT is refused like DENY
  -- and DROP. Memory and the pool last, the engine answers, the fuel is above the number of
  -- mailboxes, the lengths and numbers of their words and the lengths of their addresses, and the
  -- bytes of an address are those of is_addr.
  pub msg_from_parse-judged :
      (t : MailboxText) (ts : List MailboxText) (c : ℕ) (s : Bytes) (old permit : ℕ)
      → Each (IsMailboxText env.fuel) (t ∷ ts)
      → length ts < env.fuel
      → is_wsp c ≡ false
      → engine.alloc_from ≡ true
      → engine.analysis_from (record { frm_mb_list = values mailbox_of (t ∷ ts); err_cnt = 0 }) old
        ≡ some permit
      → msg_from_parse env engine old (print_mailboxes (t ∷ ts) (b'\r' ∷ b'\n' ∷ c ∷ s)) ≡ (
        judged permit (record { frm_mb_list = values mailbox_of (t ∷ ts); err_cnt = 0 }) (c ∷ s),
        permit,
      )
  unfolding msg_from_parse shown analysed msg_from_new
  msg_from_parse-judged t ts c s old permit h size end pool answer =
      rw
        (
          mailbox_list_parse-print env law t ts c s h size end,
          crlf-at env.fuel c s (omega arith) end,
          pool,
          answer,
          permitted_lem {A = MsgFrom} permit
              (record { frm_mb_list = values mailbox_of (t ∷ ts); err_cnt = 0 }) (c ∷ s),
        )
        refl

true-no_code :
    (o : Outcome Bcc) {bcc : Bcc} {rest : Bytes} → resent_bcc_true o ≢ returns_code (ok bcc rest)
unfolding resent_bcc_true
true-no_code (ok bcc rest) e = cc
true-no_code error_parse e = cc
true-no_code error_continue e = cc
true-no_code error_memory e = cc
true-no_code out_of_fuel e = cc
true-no_code fault e = cc

unset-no_code :
    (o : Outcome (Unit {0})) {bcc : Bcc} {rest : Bytes} → unset_list o ≢ returns_code (ok bcc rest)
unfolding unset_list
unset-no_code (ok _ rest) e = cc
unset-no_code error_parse e = cc
unset-no_code error_continue e = cc
unset-no_code error_memory e = cc
unset-no_code out_of_fuel e = cc
unset-no_code fault e = cc

list-no_code :
    (env : Env) (here : Bytes) (o : Outcome (List Address)) {bcc : Bcc} {rest : Bytes}
    → resent_bcc_list env here o ≢ returns_code (ok bcc rest)
unfolding resent_bcc_list
list-no_code env here (ok l rest) e =
    true-no_code (bcc_end env (some l) (unstrict_crlf_parse env.fuel rest)) e
list-no_code env here error_parse e = unset-no_code (unstrict_crlf_parse env.fuel here) e
list-no_code env here error_continue e = cc
list-no_code env here error_memory e = cc
list-no_code env here out_of_fuel e = cc
list-no_code env here fault e = cc

-- smtp_resent_bcc_parse never returns SMTP_NO_ERROR: where it has read the field, it returns TRUE,
-- which is SMTP_ERROR_CONTINUE.
pub resent_bcc_parse-no_success :
    (env : Env) (s : Bytes) {bcc : Bcc} {rest : Bytes}
    → resent_bcc_parse env s ≢ returns_code (ok bcc rest)
unfolding resent_bcc_parse
resent_bcc_parse-no_success env s = list-no_code env s (address_list_parse env s)
