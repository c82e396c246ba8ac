-- ===== src/DateTime/Names.antt =====
-- Day and month names of src/_time.c: the guess from the first letters, and the keyword that is
-- then required.
pub mod Table
use smtp_nel_filter.Prelude.{ℕ, ◌-◌, [], ◌∷◌, Bytes, ◌==◌, if◌then◌else◌, codes, Option, none, some}
use smtp_nel_filter.Outcome.{ok, error_parse, Parser, bind}
use smtp_nel_filter.Platform.{Platform}
use smtp_nel_filter.Mime.Scan.{toupper, token_case_insensitive_len_parse}

-- `none` is -1. The states of the source are the functions below: each reads the next byte.
guess_day_name_t : Bytes → Option ℕ
unfolding toupper
guess_day_name_t [] = none
guess_day_name_t (c ∷ s) =
    if toupper c == b'U' then some 2 else if toupper c == b'H' then some 4 else none

guess_day_name_s : Bytes → Option ℕ
unfolding toupper
guess_day_name_s [] = none
guess_day_name_s (c ∷ s) =
    if toupper c == b'A' then some 6 else if toupper c == b'U' then some 7 else none

unfoldable pub guess_day_name : Bytes → Option ℕ
unfolding toupper guess_day_name_t guess_day_name_s
guess_day_name [] = none
guess_day_name (c ∷ s) =
    if toupper c == b'M'
    then some 1
    else if toupper c == b'T'
    then guess_day_name_t s
    else if toupper c == b'W'
    then some 3
    else if toupper c == b'F'
    then some 5
    else if toupper c == b'S'
    then guess_day_name_s s
    else none

-- `day_names[guessed - 1].str`
unfoldable pub day_name : ℕ → Bytes
day_name n =
    if n == 1
    then codes "Mon"
    else if n == 2
    then codes "Tue"
    else if n == 3
    then codes "Wed"
    else if n == 4
    then codes "Thu"
    else if n == 5
    then codes "Fri"
    else if n == 6
    then codes "Sat"
    else codes "Sun"

-- smtp_token_case_insensitive_parse passes `sizeof(token) - 1`, and `token` is a `char *` here.
unfoldable pub name_parse : Platform → (ℕ → Bytes) → Option ℕ → Parser ℕ
name_parse platform str none s = error_parse
name_parse platform str (some guessed) s =
    bind (token_case_insensitive_len_parse (str guessed) (platform.sizeof_ptr - 1) s)
      λ _ rest. ok guessed rest

unfoldable pub day_name_parse : Platform → Parser ℕ
day_name_parse platform s = name_parse platform day_name (guess_day_name s) s

guess_month_ju : Bytes → Option ℕ
unfolding toupper
guess_month_ju [] = none
guess_month_ju (c ∷ s) =
    if toupper c == b'N' then some 6 else if toupper c == b'L' then some 7 else none

guess_month_j : Bytes → Option ℕ
unfolding toupper guess_month_ju
guess_month_j [] = none
guess_month_j (c ∷ s) =
    if toupper c == b'A' then some 1 else if toupper c == b'U' then guess_month_ju s else none

guess_month_ma : Bytes → Option ℕ
unfolding toupper
guess_month_ma [] = none
guess_month_ma (c ∷ s) =
    if toupper c == b'Y' then some 5 else if toupper c == b'R' then some 3 else none

guess_month_m : Bytes → Option ℕ
unfolding toupper guess_month_ma
guess_month_m [] = none
guess_month_m (c ∷ s) = if toupper c == b'A' then guess_month_ma s else none

guess_month_a : Bytes → Option ℕ
unfolding toupper
guess_month_a [] = none
guess_month_a (c ∷ s) =
    if toupper c == b'P' then some 4 else if toupper c == b'U' then some 8 else none

unfoldable pub guess_month : Bytes → Option ℕ
unfolding toupper guess_month_j guess_month_m guess_month_a
guess_month [] = none
guess_month (c ∷ s) =
    if toupper c == b'J'
    then guess_month_j s
    else if toupper c == b'F'
    then some 2
    else if toupper c == b'M'
    then guess_month_m s
    else if toupper c == b'A'
    then guess_month_a s
    else if toupper c == b'S'
    then some 9
    else if toupper c == b'O'
    then some 10
    else if toupper c == b'N'
    then some 11
    else if toupper c == b'D'
    then some 12
    else none

-- `month_names[guessed - 1].str`
unfoldable pub month_name : ℕ → Bytes
month_name n =
    if n == 1
    then codes "Jan"
    else if n == 2
    then codes "Feb"
    else if n == 3
    then codes "Mar"
    else if n == 4
    then codes "Apr"
    else if n == 5
    then codes "May"
    else if n == 6
    then codes "Jun"
    else if n == 7
    then codes "Jul"
    else if n == 8
    then codes "Aug"
    else if n == 9
    then codes "Sep"
    else if n == 10
    then codes "Oct"
    else if n == 11
    then codes "Nov"
    else codes "Dec"

unfoldable pub month_name_parse : Platform → Parser ℕ
month_name_parse platform s = name_parse platform month_name (guess_month s) s
