-- ===== src/DateTime/Names/Table.antt =====
-- The guessers name the right entry of the tables, and the keyword is then read where the size
-- passed is the length of the name.
use smtp_nel_filter.Prelude.{
  ℕ, ◌-◌, ◌≤◌, ◌<◌, ◌≡◌, refl, Bool, true, [], ◌∷◌, ◌++◌, Bytes, arith, some, length, false, ltb,
  ◌&&◌, ◌==◌, if◌then◌else◌,
}
use smtp_nel_filter.Outcome.{ok}
use smtp_nel_filter.Platform.{Platform}
use smtp_nel_filter.Mime.Scan.Keyword.{token-append}
use smtp_nel_filter.Mime.Space.Plain.{is_plain}
use smtp_nel_filter.DateTime.Names.{
  guess_day_name, day_name, name_parse, day_name_parse, guess_month, month_name, month_name_parse,
}

-- A name of the tables: three letters.
pub record IsName (t : Bytes) : Type 0 where
  pub x : ℕ
  pub y : ℕ
  pub z : ℕ
  pub letters : t ≡ x ∷ y ∷ z ∷ []
  pub letter_x : 64 < x
  pub letter_y : 64 < y
  pub letter_z : 64 < z

letters-IsName : (x y z : ℕ) → 64 < x → 64 < y → 64 < z → IsName (x ∷ y ∷ z ∷ [])
letters-IsName x y z p q r = record {
  x = x;
  y = y;
  z = z;
  letters = refl;
  letter_x = p;
  letter_y = q;
  letter_z = r;
}

IsName-if : (b : Bool) {t u : Bytes} → IsName t → IsName u → IsName (if b then t else u)
IsName-if true p q = p
IsName-if false p q = q

three : (x y z : ℕ) → ltb 64 x && ltb 64 y && ltb 64 z ≡ true → IsName (x ∷ y ∷ z ∷ [])
three x y z h = letters-IsName x y z (ground arith) (ground arith) (ground arith)

pub day_name-IsName : (w : ℕ) → IsName (day_name w)
unfolding day_name
day_name-IsName w = IsName-if (w == 1) (three _ _ _ refl) (
    IsName-if (w == 2) (three _ _ _ refl) (
      IsName-if (w == 3) (three _ _ _ refl) (
        IsName-if (w == 4) (three _ _ _ refl) (
          IsName-if (w == 5) (three _ _ _ refl)
            (IsName-if (w == 6) (three _ _ _ refl) (three _ _ _ refl))))))

pub month_name-IsName : (m : ℕ) → IsName (month_name m)
unfolding month_name
month_name-IsName m = IsName-if (m == 1) (three _ _ _ refl) (
    IsName-if (m == 2) (three _ _ _ refl) (
      IsName-if (m == 3) (three _ _ _ refl) (
        IsName-if (m == 4) (three _ _ _ refl) (
          IsName-if (m == 5) (three _ _ _ refl) (
            IsName-if (m == 6) (three _ _ _ refl) (
              IsName-if (m == 7) (three _ _ _ refl) (
                IsName-if (m == 8) (three _ _ _ refl) (
                  IsName-if (m == 9) (three _ _ _ refl) (
                    IsName-if (m == 10) (three _ _ _ refl)
                      (IsName-if (m == 11) (three _ _ _ refl) (three _ _ _ refl)))))))))))

guess_day_name-day_name :
    (w : ℕ) (s : Bytes) → 1 ≤ w → w ≤ 7 → guess_day_name (day_name w ++ s) ≡ some w
unfolding guess_day_name day_name
guess_day_name-day_name w s p q = ground arith

guess_month-month_name :
    (m : ℕ) (s : Bytes) → 1 ≤ m → m ≤ 12 → guess_month (month_name m ++ s) ≡ some m
unfolding guess_month month_name
guess_month-month_name m s p q = ground arith

-- A name starts with no white space and no comment.
letter-plain : (c : ℕ) → 64 < c → is_plain c ≡ true
unfolding is_plain
letter-plain c h = ground arith

name_parse-some :
    (platform : Platform) (str : ℕ → Bytes) (n : ℕ) (s : Bytes)
    → platform.sizeof_ptr ≡ 4
    → IsName (str n)
    → name_parse platform str (some n) (str n ++ s) ≡ ok n s
unfolding name_parse
name_parse-some platform str n s four name =
    let size : platform.sizeof_ptr - 1 ≡ length (str n) = rw (four, name.letters) in
    rw (size, token-append (str n) s)

-- Where a pointer has four bytes, the day names of the table are read, in front of any input.
pub day_name_parse-day_name :
    (platform : Platform) (w : ℕ) (s : Bytes)
    → platform.sizeof_ptr ≡ 4
    → 1 ≤ w
    → w ≤ 7
    → day_name_parse platform (day_name w ++ s) ≡ ok w s
unfolding day_name_parse
day_name_parse-day_name platform w s four p q =
    rw (guess_day_name-day_name w s p q)
      (name_parse-some platform day_name w s four (day_name-IsName w))

-- So are the month names.
pub month_name_parse-month_name :
    (platform : Platform) (m : ℕ) (s : Bytes)
    → platform.sizeof_ptr ≡ 4
    → 1 ≤ m
    → m ≤ 12
    → month_name_parse platform (month_name m ++ s) ≡ ok m s
unfolding month_name_parse
month_name_parse-month_name platform m s four p q =
    rw (guess_month-month_name m s p q)
      (name_parse-some platform month_name m s four (month_name-IsName m))

-- The first letter of a name, for the white space in front of it.
pub IsName-plain :
    {t : Bytes} (s : Bytes)
    → IsName t
    → (c : ℕ) × (r : Bytes) × (t ++ s ≡ c ∷ r) × (is_plain c ≡ true)
IsName-plain s name =
    (name.x, name.y ∷ name.z ∷ s, rw name.letters, letter-plain name.x name.letter_x)
