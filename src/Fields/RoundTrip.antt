-- ===== src/Fields/RoundTrip.antt =====
-- Fields of identifiers, mailboxes and addresses are read back.
use smtp_nel_filter.Prelude.{
  ℕ, zero, suc, ◌+◌, ◌*◌, ◌<◌, false, some, List, [], ◌∷◌, ◌++◌, Bytes, ◌≡◌, refl, arith, length,
}
use smtp_nel_filter.Outcome.{ok, error_parse, Parser, lenient}
use smtp_nel_filter.Mime.Chars.{is_wsp, is_atext}
use smtp_nel_filter.Mime.Space.{cfws_parse, unstrict_crlf_parse}
use smtp_nel_filter.Mime.Space.Plain.{unstrict_char-mismatch}
use smtp_nel_filter.Mime.Lists.Grammar.{Elements, last, next, struct_multiple_parse-Elements}
use smtp_nel_filter.Mime.Lists.Print.{Each, values, length-values}
use smtp_nel_filter.DateTime.Field.{unstrict_crlf-end}
use smtp_nel_filter.Address.{Env, new_struct}
use smtp_nel_filter.Address.Spec.{IsAddr}
use smtp_nel_filter.Address.Text.{IsEnv}
use smtp_nel_filter.Address.Ends.{cfws-crlf}
use smtp_nel_filter.MsgId.{msg_id_parse, unstrict_msg_id_parse}
use smtp_nel_filter.MsgId.RoundTrip.{
  is_quiet, Quiet, Quiet-unwanted, angle-here, angle-blank, unstrict_msg_id-print,
}
use smtp_nel_filter.Fields.{field_parse, msg_id_list_parse, in_reply_to_parse}

-- The identifiers behind the first one, a blank before each.
abbrev pub print_more_ids : List Bytes → Bytes → Bytes
print_more_ids [] rest = rest
print_more_ids (id ∷ ids) rest = b' ' ∷ b'<' ∷ (id ++ b'>' ∷ print_more_ids ids rest)

abbrev pub print_ids : Bytes → List Bytes → Bytes → Bytes
print_ids id ids rest = b'<' ∷ (id ++ b'>' ∷ print_more_ids ids rest)

pub crlf-at :
    (fuel c : ℕ) (s : Bytes)
    → 0 < fuel
    → is_wsp c ≡ false
    → unstrict_crlf_parse fuel (b'\r' ∷ b'\n' ∷ c ∷ s) ≡ ok tt (c ∷ s)
crlf-at zero c s positive h = absurd (omega arith)
crlf-at (suc fuel) c s positive h = unstrict_crlf-end fuel (c ∷ s) h

module _ (env : Env) (law : IsEnv env) (positive : 0 < env.fuel) (c : ℕ) (s : Bytes)
    (end : is_wsp c ≡ false) where
  -- A value before a line end that no white space follows.
  pub field-print :
      {A B : Type 0} (value : Parser A) (new : A → Parser B) {a : A} {t : Bytes}
      → value t ≡ ok a (b'\r' ∷ b'\n' ∷ c ∷ s)
      → field_parse env value new t ≡ new a (c ∷ s)
  field-print value new read = rw (read, crlf-at env.fuel c s positive end) refl

  crlf-here :
      lenient (cfws_parse env.fuel (b'\r' ∷ b'\n' ∷ c ∷ s)) (b'\r' ∷ b'\n' ∷ c ∷ s)
      ≡ ok tt (b'\r' ∷ b'\n' ∷ c ∷ s)
  crlf-here = rw (cfws-crlf env.fuel c s end positive) refl

  abbrev line_end : Bytes
  line_end = b'\r' ∷ b'\n' ∷ c ∷ s

  crlf-Quiet : Quiet env.platform env.mmap_string env.fuel line_end
  crlf-Quiet = (b'\r', b'\n' ∷ c ∷ s, crlf-here, unfold is_quiet is_atext in refl)

  more-Quiet :
      (ids : List Bytes) → Quiet env.platform env.mmap_string env.fuel (print_more_ids ids line_end)
  more-Quiet [] = crlf-Quiet
  more-Quiet (id ∷ ids) =
      let rest = id ++ b'>' ∷ print_more_ids ids line_end in
      (b'<', rest, angle-blank env.fuel rest positive, unfold is_quiet is_atext in refl)

  ids-end : unstrict_msg_id_parse env.platform env.mmap_string env.fuel line_end ≡ error_parse
  unfolding unstrict_msg_id_parse msg_id_parse
  ids-end =
      rw
        (
          cfws-crlf env.fuel c s end positive,
          Quiet-unwanted env.platform env.mmap_string env.fuel line_end crlf-Quiet positive,
          cfws-crlf env.fuel c s end positive,
          unstrict_char-mismatch env.fuel b'<' b'\r' (b'\n' ∷ c ∷ s)
              (cfws-crlf env.fuel c s end positive) refl,
        )
        refl

  more-Elements :
      (ids : List Bytes)
      → Each IsAddr ids
      → Elements
          (unstrict_msg_id_parse env.platform env.mmap_string env.fuel)
          line_end
          (values some ids)
          (print_more_ids ids line_end)
  more-Elements [] h = last ids-end refl
  more-Elements (id ∷ ids) (h, hs) =
      let rest = print_more_ids ids line_end in
      next
        (unstrict_msg_id-print env.platform env.mmap_string env.fuel id
          (b' ' ∷ b'<' ∷ (id ++ b'>' ∷ rest)) rest
          (angle-blank env.fuel (id ++ b'>' ∷ rest) positive) (law.memory (length id + 1)) h
          (more-Quiet ids) positive)
        (more-Elements ids hs)

  msg_id_list-print :
      (id : Bytes) (ids : List Bytes)
      → Each IsAddr (id ∷ ids)
      → length ids < env.fuel
      → msg_id_list_parse env (print_ids id ids line_end) ≡ ok (values some (id ∷ ids)) line_end
  unfolding msg_id_list_parse
  msg_id_list-print id ids (h, hs) size =
      let rest = print_more_ids ids line_end in
      struct_multiple_parse-Elements env.ids law.id_lists
        (unstrict_msg_id_parse env.platform env.mmap_string env.fuel) env.fuel
        (unstrict_msg_id-print env.platform env.mmap_string env.fuel id (b'<' ∷ (id ++ b'>' ∷ rest))
          rest (angle-here env.fuel (id ++ b'>' ∷ rest) positive) (law.memory (length id + 1)) h
          (more-Quiet ids) positive)
        (more-Elements ids hs) (omega (arith, length-values some ids))

  -- smtp_in_reply_to_parse reads identifiers back, each in angle brackets, a blank between them,
  -- and the line end, which no white space follows. Memory lasts, the fuel is above the
  -- number of identifiers, and their bytes are those of is_addr.
  pub in_reply_to_parse-print :
      (id : Bytes) (ids : List Bytes)
      → Each IsAddr (id ∷ ids)
      → length ids < env.fuel
      → in_reply_to_parse env (print_ids id ids (b'\r' ∷ b'\n' ∷ c ∷ s))
        ≡ ok (record { mid_list = values some (id ∷ ids) }) (c ∷ s)
  unfolding in_reply_to_parse new_struct
  in_reply_to_parse-print id ids h size =
      rw
        (
          msg_id_list-print id ids h size,
          crlf-at env.fuel c s positive end,
          law.memory (1 * env.platform.sizeof_ptr),
        )
        refl
