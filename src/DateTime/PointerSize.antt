-- ===== src/DateTime/PointerSize.antt =====
-- Where a pointer has eight bytes, the names of days and months are compared over seven bytes, and
-- no date is read from a text without a NUL.
use smtp_nel_filter.Prelude.{ℕ, ◌+◌, ◌-◌, ◌≡◌, ap, [], ◌∷◌, ◌++◌, Bytes, Option, none, some}
use smtp_nel_filter.Outcome.{ok, lenient}
use smtp_nel_filter.Outcome.Inversion.{bind-eq-ok}
use smtp_nel_filter.Outcome.Suffix.{Suffix, here, later, Leaves-ok, Leaves-lenient}
use smtp_nel_filter.Platform.{Platform}
use smtp_nel_filter.Mime.Scan.{token_case_insensitive_len_parse}
use smtp_nel_filter.Mime.Scan.Keyword.{token_overlong}
use smtp_nel_filter.Mime.Space.{cfws_parse}
use smtp_nel_filter.Mime.Space.Bounds.{cfws-Advances}
use smtp_nel_filter.DateTime.Names.{name_parse, month_name, month_name_parse, guess_month}
use smtp_nel_filter.DateTime.Names.Table.{IsName, month_name-IsName}
use smtp_nel_filter.DateTime.Bounds.{day_of_week-Leaves, day-Advances}
use smtp_nel_filter.DateTime.{
  DateTime, Date, date_time_parse, weekday_comma, day_of_week_parse, date_parse, day_parse,
  month_parse,
}

-- The text holds a NUL.
abbrev pub HasNul : Bytes → Type 0
HasNul s = (pre post : Bytes) × (s ≡ pre ++ 0 ∷ post)

HasNul-Suffix : {r s : Bytes} → Suffix r s → HasNul r → HasNul s
HasNul-Suffix here h = h
HasNul-Suffix (later {c} q) h =
    let (pre, post, e) = HasNul-Suffix q h in (c ∷ pre, post, ap (◌∷◌ c) e)

module _ (platform : Platform) (eight : platform.sizeof_ptr ≡ 8) where
  name_parse-HasNul :
      (str : ℕ → Bytes) (o : Option ℕ) (s : Bytes) {n : ℕ} {rest : Bytes}
      → ((k : ℕ) → IsName (str k))
      → name_parse platform str o s ≡ ok n rest
      → HasNul s
  unfolding name_parse
  name_parse-HasNul str none s names e = cc
  name_parse-HasNul str (some k) s names e =
      let (_, r, found, _) =
        bind-eq-ok (token_case_insensitive_len_parse (str k) (platform.sizeof_ptr - 1) s)
          (λ _ t. ok k t) e in
      let name = names k in
      let size : platform.sizeof_ptr - 1 ≡ 4 + 3 = rw eight in
      let (a, b, c, t, split) =
        token_overlong name.x name.y name.z 3 s (rw (size, name.letters) at found) name.letter_x
          name.letter_y name.letter_z in
      (a ∷ b ∷ c ∷ [], t, split)

  month_parse-HasNul :
      (fuel : ℕ) (s : Bytes) {m : ℕ} {rest : Bytes}
      → month_parse platform fuel s ≡ ok m rest
      → HasNul s
  unfolding month_parse month_name_parse
  month_parse-HasNul fuel s e =
      let (_, u, blank, name) =
        bind-eq-ok (lenient (cfws_parse fuel s) s) (λ _. month_name_parse platform) e in
      HasNul-Suffix (Leaves-ok (Leaves-lenient (cfws-Advances fuel s) here) blank)
        (name_parse-HasNul month_name (guess_month u) u month_name-IsName name)

  date_parse-HasNul :
      (fuel : ℕ) (s : Bytes) {d : Date} {rest : Bytes}
      → date_parse platform fuel s ≡ ok d rest
      → HasNul s
  unfolding date_parse
  date_parse-HasNul fuel s e =
      let (_, r, day, e') = bind-eq-ok (day_parse fuel s) _ e in
      let (_, t, month, _) = bind-eq-ok (month_parse platform fuel r) _ e' in
      HasNul-Suffix (Leaves-ok (day-Advances fuel s) day) (month_parse-HasNul fuel r month)

-- Where a pointer has eight bytes, every text from which smtp_date_time_parse reads a date holds a
-- NUL byte.
pub date_time_parse-HasNul :
    (platform : Platform) (fuel : ℕ) (s : Bytes) {d : DateTime} {rest : Bytes}
    → platform.sizeof_ptr ≡ 8
    → date_time_parse platform fuel s ≡ ok d rest
    → HasNul s
unfolding date_time_parse
date_time_parse-HasNul platform fuel s eight e =
    let (_, r, weekday, e') =
      bind-eq-ok (weekday_comma fuel s (day_of_week_parse platform fuel s)) _ e in
    let (_, t, date, _) = bind-eq-ok (date_parse platform fuel r) _ e' in
    HasNul-Suffix (Leaves-ok (day_of_week-Leaves platform fuel s) weekday)
      (date_parse-HasNul platform eight fuel r date)
