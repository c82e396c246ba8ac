-- ===== src/Tests/Fields.antt =====
-- Header fields on concrete inputs.
use smtp_nel_filter.Prelude.{◌≡◌, refl, arith, true, some, [], ◌∷◌, Bytes, codes}
use smtp_nel_filter.Outcome.{ok, lenient}
use smtp_nel_filter.Platform.{lp64}
use smtp_nel_filter.Mime.Chars.{is_wsp, is_atext, is_qtext}
use smtp_nel_filter.Mime.Space.{cfws_parse}
use smtp_nel_filter.Mime.Words.Atom.{is_atom}
use smtp_nel_filter.Mime.Words.Quoted.{quote}
use smtp_nel_filter.Address.Spec.{is_addr}
use smtp_nel_filter.MsgId.{msg_id_parse}
use smtp_nel_filter.MsgId.RoundTrip.{
  is_quiet, angle-blank, angle-here, unstrict_msg_id-print, unstrict_msg_id_parse-brackets,
}
use smtp_nel_filter.Fields.{in_reply_to_parse}
use smtp_nel_filter.Fields.RoundTrip.{in_reply_to_parse-print}
use smtp_nel_filter.Fields.Policy.{Engine, error_policy, msg_from_parse}
use smtp_nel_filter.Fields.Mistakes.{msg_from_parse-judged}
use smtp_nel_filter.Tests.Words.{growing}
use smtp_nel_filter.Tests.Address.{plenty, plenty-IsEnv, jd, jd-valid, bare, bare-valid}

in_reply_to_parse-print_example :
    in_reply_to_parse plenty (codes "<a@b> <c>\r\nX")
    ≡ ok (record { mid_list = some (codes "a@b") ∷ some (codes "c") ∷ [] }) (codes "X")
unfolding is_addr is_atext
in_reply_to_parse-print_example =
    in_reply_to_parse-print plenty plenty-IsEnv (omega arith) b'X' [] (unfold is_wsp in refl)
      (codes "a@b") (codes "c" ∷ []) ((refl, (refl, (refl, tt))), ((refl, tt), tt)) (omega arith)

-- An engine that permits nothing but answers ALERT.
abbrev alert : Engine
alert = record {
  alloc_from = true;
  alloc_to = true;
  analysis_from = λ from permit. some 1;
  analysis_to = λ to permit. some 1;
}

msg_from_parse-judged_example :
    msg_from_parse plenty alert 0 (codes "J D <j@x>,k@y\r\nX") ≡ (error_policy, 1)
unfolding is_atext is_qtext quote is_atom
msg_from_parse-judged_example =
    msg_from_parse-judged plenty plenty-IsEnv alert jd (bare ∷ []) b'X' [] 0 1
      (jd-valid, (bare-valid, tt)) (omega arith) (unfold is_wsp in refl) refl refl

-- " <c>" before a bracket.
unstrict_msg_id_parse-brackets_example :
    (here : Bytes) × (lenient (cfws_parse 20 (codes " <c><")) (codes " <c><") ≡ ok tt here)
    × (msg_id_parse lp64 20 here ≡ ok (some (codes "c")) (codes "<"))
unfolding is_addr is_atext is_quiet
unstrict_msg_id_parse-brackets_example =
    unstrict_msg_id_parse-brackets lp64 growing 20 (codes " <c><") (
      unstrict_msg_id-print lp64 growing 20 (codes "c") (codes " <c><") (codes "<")
        (angle-blank 20 (codes "c><") (omega arith)) refl (refl, tt)
        (b'<', [], angle-here 20 [] (omega arith), refl) (omega arith))
