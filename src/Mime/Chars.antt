-- ===== src/Mime/Chars.antt =====
-- The character classes of src/mime.c. A `char` is the value of its byte: a byte above 127 is a
-- negative `char` there, and every test below answers for it as the signed test does.
use smtp_nel_filter.Prelude.{ℕ, Bool, true, false, not, ◌&&◌, ◌||◌, leb, ltb, ◌==◌, if◌then◌else◌}

unfoldable pub is_wsp : ℕ → Bool
is_wsp ch = ch == b' ' || ch == b'\t'

unfoldable pub is_atext : ℕ → Bool
is_atext ch = not (
    ch == b' '
    || ch == b'\t'
    || ch == b'\n'
    || ch == b'\r'
    || ch == b'<'
    || ch == b'>'
    || ch == b','
    || ch == b'"'
    || ch == b':'
    || ch == b';')

unfoldable pub is_digit : ℕ → Bool
is_digit ch = leb b'0' ch && leb ch b'9'

unfoldable pub is_no_ws_ctl : ℕ → Bool
is_no_ws_ctl ch =
    if ch == 9 || ch == 10 || ch == 13
    then false
    else if ch == 127
    then true
    else leb 1 ch && leb ch 31

unfoldable pub is_ctext : ℕ → Bool
unfolding is_no_ws_ctl
is_ctext ch =
    if is_no_ws_ctl ch
    then true
    else if ltb ch 33
    then false
    else if ch == 40 || ch == 41
    then false
    else if ch == 92
    then false
    else if ch == 127
    then false
    else true

unfoldable pub is_qtext : ℕ → Bool
unfolding is_no_ws_ctl
is_qtext ch =
    if is_no_ws_ctl ch
    then true
    else if ltb ch 33
    then false
    else if ch == 34
    then false
    else if ch == 92
    then false
    else if ch == 127
    then false
    else true

unfoldable pub is_dtext : ℕ → Bool
unfolding is_no_ws_ctl
is_dtext ch =
    if is_no_ws_ctl ch
    then true
    else if ltb ch 33
    then false
    else if leb 91 ch && leb ch 93
    then false
    else if ch == 127
    then false
    else true

unfoldable pub is_ftext : ℕ → Bool
is_ftext ch = if ltb ch 33 then false else if ch == 58 then false else true

unfoldable pub is_tspecials : ℕ → Bool
is_tspecials ch =
    ch == b'('
    || ch == b')'
    || ch == b'<'
    || ch == b'>'
    || ch == b'@'
    || ch == b','
    || ch == b';'
    || ch == b':'
    || ch == b'\\'
    || ch == b'"'
    || ch == b'/'
    || ch == b'['
    || ch == b']'
    || ch == b'?'
    || ch == b'='
    || ch == b'\r'

unfoldable pub is_token : ℕ → Bool
unfolding is_tspecials
is_token ch =
    if ltb 0x7f ch
    then false
    else if ch == b' '
    then false
    else if is_tspecials ch
    then false
    else true
