-- ===== src/Stamp.antt =====
-- Package time, as far as the names of backups use it: the layout "20060102-150405". A moment is
-- its civil date and time.
pub mod Printed
use Prim.Native.Char.{Char, code}
use Prim.Native.String.{String, ◌++◌, [], ◌∷◌}
use sing_box_helper.Prelude.{
  ℕ, zero, suc, ◌+◌, ◌-◌, ◌*◌, ◌/◌, ◌%◌, Bool, true, ◌&&◌, ◌||◌, Option, none, some, leb, ltb,
  nat_eq, if◌then◌else◌,
}

pub record Moment : Type 0 where
  pub year : ℕ
  pub month : ℕ
  pub day : ℕ
  pub hour : ℕ
  pub minute : ℕ
  pub second : ℕ
  pub nanos : ℕ

-- The order of moments, as one number.
abbrev pub rank : Moment → ℕ
rank m =
    (((((m.year * 100 + m.month) * 100 + m.day) * 100 + m.hour) * 100 + m.minute) * 100 + m.second)
      * 1_000_000_000
    + m.nanos

-- `t.After(u)`
abbrev pub after : Moment → Moment → Bool
after t u = ltb (rank u) (rank t)

unfoldable pub digit_char : ℕ → String
digit_char n =
    if nat_eq n 0
    then "0"
    else if nat_eq n 1
    then "1"
    else if nat_eq n 2
    then "2"
    else if nat_eq n 3
    then "3"
    else if nat_eq n 4
    then "4"
    else if nat_eq n 5
    then "5"
    else if nat_eq n 6
    then "6"
    else if nat_eq n 7
    then "7"
    else if nat_eq n 8
    then "8"
    else "9"

unfoldable pub two : ℕ → String
unfolding digit_char
two n = digit_char (n / 10 % 10) ++ digit_char (n % 10)

-- `t.Format(nameLayout)`, for a year of four digits.
unfoldable pub format_stamp : Moment → String
unfolding two
format_stamp m =
    two (m.year / 100)
    ++ (two (m.year % 100)
        ++ (two m.month ++ (two m.day ++ ("-" ++ (two m.hour ++ (two m.minute ++ two m.second))))))

abbrev pub is_digit : Char → Bool
is_digit c = leb b'0' (code c) && leb (code c) b'9'

-- Exactly `n` digits, with the value read so far, and the text behind them.
pub number : ℕ → ℕ → String → Option (ℕ × String)
number zero acc s = some (acc, s)
number (suc n) acc [] = none
number (suc n) acc (c ∷ s) =
    let rest = number n (10 * acc + (code c - b'0')) s in if is_digit c then rest else none

pub hyphen : String → Option String
hyphen [] = none
hyphen (c ∷ s) = if nat_eq (code c) b'-' then some s else none

is_leap : ℕ → Bool
is_leap y = nat_eq (y % 4) 0 && (if nat_eq (y % 100) 0 then nat_eq (y % 400) 0 else true)

unfoldable pub days_in : ℕ → ℕ → ℕ
unfolding is_leap
days_in month year =
    if nat_eq month 2
    then (if is_leap year then 29 else 28)
    else if nat_eq month 4 || nat_eq month 6 || nat_eq month 9 || nat_eq month 11
    then 30
    else 31

-- The digits of a fraction, each at its weight in nanoseconds; a tenth and later ones count nothing.
fraction : ℕ → ℕ → String → Option ℕ
fraction weight acc [] = some acc
fraction weight acc (c ∷ s) =
    let rest = fraction (weight / 10) (acc + weight * (code c - b'0')) s in
    if is_digit c then rest else none

-- A fraction of a second is accepted behind the seconds, although the layout has none.
pub fraction_or_end : String → Option ℕ
unfolding fraction
fraction_or_end [] = some 0
fraction_or_end (c ∷ []) = none
fraction_or_end (c ∷ d ∷ s) =
    if nat_eq (code c) b'.' || nat_eq (code c) b',' then fraction 100_000_000 0 (d ∷ s) else none

unfoldable pub in_range : Moment → Bool
unfolding days_in
in_range m =
    leb 1 m.month
    && leb m.month 12
    && leb 1 m.day
    && leb m.day (days_in m.month m.year)
    && ltb m.hour 24
    && ltb m.minute 60
    && ltb m.second 60

infixl 5 ◌>>=◌
abbrev ◌>>=◌ {ℓ κ} : {A : Type ℓ} {B : Type κ} → Option A → (A → Option B) → Option B
none >>= f = none
some a >>= f = f a

-- `time.Parse(nameLayout, s)`, with `none` for its errors.
unfoldable pub parse_stamp : String → Option Moment
unfolding number hyphen fraction_or_end in_range
parse_stamp s = do
  (year, s1) ← number 4 0 s
  (month, s2) ← number 2 0 s1
  (day, s3) ← number 2 0 s2
  s4 ← hyphen s3
  (hour, s5) ← number 2 0 s4
  (minute, s6) ← number 2 0 s5
  (second, s7) ← number 2 0 s6
  nanos ← fraction_or_end s7
  let m : Moment = record {
    year = year;
    month = month;
    day = day;
    hour = hour;
    minute = minute;
    second = second;
    nanos = nanos;
  }
  if in_range m then some m else none
