-- ===== src/Tests/Envelope.antt =====
-- Paths of commands on concrete inputs.
use smtp_nel_filter.Prelude.{◌≡◌, refl, arith, true, none, some, codes}
use smtp_nel_filter.Outcome.{ok, fault}
use smtp_nel_filter.Mime.Chars.{is_atext}
use smtp_nel_filter.Mime.Space.Plain.{is_plain}
use smtp_nel_filter.Mime.Words.Phrases.{is_stop}
use smtp_nel_filter.Address.{is_final}
use smtp_nel_filter.Address.Spec.{is_addr}
use smtp_nel_filter.Envelope.{AddrPool, adl_path_parse}
use smtp_nel_filter.Envelope.RoundTrip.{is_route, adl_path_parse-print, adl_path_parse-fault}
use smtp_nel_filter.Tests.Address.{plenty, plenty-IsEnv}

abbrev small : AddrPool
small = record { alloc_mem = true; block_size = 4 }

adl_path_parse-print_example :
    adl_path_parse plenty small (codes "<@h:a@b>\r\n") ≡ ok (codes "a@b") (codes "\r\n")
unfolding is_addr is_atext is_route
adl_path_parse-print_example =
    adl_path_parse-print plenty plenty-IsEnv small (some (codes "h")) (codes "a@b")
      (refl, (refl, (refl, tt))) (refl, tt) (omega arith) (codes "\r\n") refl

adl_path_parse-fault_example : adl_path_parse plenty small (codes "<a@b;\r\n") ≡ fault
unfolding is_addr is_atext is_stop is_plain is_final
adl_path_parse-fault_example =
    adl_path_parse-fault plenty plenty-IsEnv small none (codes "a@b") (refl, (refl, (refl, tt)))
      refl (omega arith) b';' (codes "\r\n") (refl, refl, refl) refl
