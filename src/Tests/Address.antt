-- ===== src/Tests/Address.antt =====
-- Addresses and the fields that hold them, on concrete inputs.
use smtp_nel_filter.Prelude.{◌≡◌, refl, arith, none, some, [], ◌∷◌, ◌++◌, codes}
use smtp_nel_filter.Outcome.{ok, fault}
use smtp_nel_filter.Platform.{lp64}
use smtp_nel_filter.Mime.Chars.{is_wsp, is_digit, is_atext, is_qtext}
use smtp_nel_filter.Mime.Scan.{digit_parse, wsp_loop, char_parse, crlf_parse}
use smtp_nel_filter.Mime.Space.{
  fws_end, fws_crlf, fws_parse, comment_parse, repeat, repeat_next, cfws_fws_comment_parse,
  cfws_parse, unstrict_char_parse,
}
use smtp_nel_filter.Mime.Words.{c_string}
use smtp_nel_filter.Mime.Words.Atom.{is_atom}
use smtp_nel_filter.Mime.Words.Quoted.{quote}
use smtp_nel_filter.Mime.Lists.{Clist}
use smtp_nel_filter.Mime.Lists.Grammar.{
  IsClist, last, next, Separated, separated, struct_list_parse-Separated, struct_list_parse-sound,
}
use smtp_nel_filter.Address.{mailbox_address, group_address, Env, address_list_parse}
use smtp_nel_filter.Address.Spec.{is_addr}
use smtp_nel_filter.Address.Text.{MailboxText, mailbox_text, group_text, IsMailboxText, IsEnv}
use smtp_nel_filter.Address.Groups.{address_list_parse-print}
use smtp_nel_filter.Address.Crash.{address_list_parse-fault}
use smtp_nel_filter.Tests.Words.{growing, growing-IsGrowing}

-- Digits with commas between them.
digits : Separated 5 b',' digit_parse (codes ";") (1 ∷ 2 ∷ []) (codes "1,2;")
unfolding digit_parse unstrict_char_parse char_parse cfws_parse cfws_fws_comment_parse repeat
    repeat_next comment_parse fws_parse fws_crlf fws_end wsp_loop crlf_parse is_digit
digits = separated refl (next refl (last refl refl))

-- Lists that always grow.
abbrev pub endless : {A : Type 0} → Clist A
endless = record { new = some []; append = λ l a. some (l ++ a ∷ []) }

pub endless-IsClist : {A : Type 0} → IsClist {A = A} endless
endless-IsClist = record { new-empty = refl; append-last = λ l a. refl }

abbrev pub plenty : Env
plenty = record {
  platform = lp64;
  mmap_string = growing;
  mailboxes = endless;
  addresses = endless;
  ids = endless;
  strings = endless;
  fuel = 20;
}

pub plenty-IsEnv : IsEnv plenty
plenty-IsEnv = record {
  growing = growing-IsGrowing;
  mailbox_lists = endless-IsClist;
  address_lists = endless-IsClist;
  id_lists = endless-IsClist;
  string_lists = endless-IsClist;
  memory = λ k. refl;
}

-- "J D <j@x>" and a bare address, in a group and outside of it.
abbrev pub jd : MailboxText
jd = record { name = codes "J" ∷ codes "D" ∷ []; addr = codes "j@x" }

abbrev pub bare : MailboxText
bare = record { name = []; addr = codes "k@y" }

pub jd-valid : IsMailboxText 20 jd
unfolding is_addr is_atext
jd-valid = ((refl, (refl, (refl, tt))), omega arith, (omega arith, (omega arith, tt)), omega arith)

pub bare-valid : IsMailboxText 20 bare
unfolding is_addr is_atext
bare-valid = ((refl, (refl, (refl, tt))), omega arith, tt, omega arith)

address_list_parse-print_example :
    address_list_parse plenty (codes "J D <j@x>,us:k@y,J D <j@x>;,k@y\r\nX")
    ≡ ok
        (mailbox_address
            (record { mb_display_name = some (codes "J D"); mb_addr_spec = some (codes "j@x") })
          ∷ group_address (record {
            grp_display_name = codes "us";
            grp_mb_list = some (
                record { mb_display_name = none; mb_addr_spec = some (codes "k@y") }
                ∷ record { mb_display_name = some (codes "J D"); mb_addr_spec = some (codes "j@x") }
                ∷ []);
          })
          ∷ mailbox_address (record { mb_display_name = none; mb_addr_spec = some (codes "k@y") })
          ∷ [])
        (codes "\r\nX")
unfolding is_atext is_qtext quote is_atom c_string is_addr is_wsp
address_list_parse-print_example =
    address_list_parse-print plenty plenty-IsEnv (mailbox_text jd)
      (group_text (codes "us") [] (bare ∷ jd ∷ []) ∷ mailbox_text bare ∷ []) b'X' []
      (
        jd-valid,
        (
          ((omega arith, tt), omega arith, (bare-valid, (jd-valid, tt)), omega arith),
          (bare-valid, tt),
        ),
      )
      (omega arith) refl

address_list_parse-fault_example : address_list_parse plenty (codes "us:\r\nX") ≡ fault
unfolding is_atext is_qtext quote is_atom is_wsp
address_list_parse-fault_example =
    address_list_parse-fault plenty plenty-IsEnv (codes "us") [] b'X' [] (omega arith, tt)
      (omega arith) refl

struct_list_parse-sound_example :
    Separated 5 b',' digit_parse (codes ";") (1 ∷ 2 ∷ []) (codes "1,2;")
struct_list_parse-sound_example =
    struct_list_parse-sound endless endless-IsClist 5 b',' digit_parse (codes "1,2;")
      (struct_list_parse-Separated endless endless-IsClist 5 b',' digit_parse digits (omega arith))
