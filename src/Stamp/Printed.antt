-- ===== src/Stamp/Printed.antt =====
-- A moment that is printed with the layout of the backups' names is parsed back, up to its second.
use Prim.Native.Char.{Char, code}
use Prim.Native.String.{String, ◌++◌, [], ◌∷◌}
use text.Mathlib.TextLemmas.{nil-append, cons-append, append_assoc, append-nil}
use sing_box_helper.Prelude.{
  ℕ, zero, suc, ◌+◌, ◌-◌, ◌*◌, ◌/◌, ◌%◌, ◌<◌, true, some, ◌≡◌, refl, sym, ap, ◌∙◌, arith,
}
use sing_box_helper.Stamp.{
  Moment, fraction_or_end, digit_char, is_digit, two, number, hyphen, days_in, in_range,
  format_stamp, parse_stamp,
}

digit_char_lem :
    (d : ℕ)
    → d < 10
    → (c : Char) × (digit_char d ≡ c ∷ []) × (is_digit c ≡ true) × (code c - b'0' ≡ d)
unfolding digit_char
digit_char_lem zero h = ("0", refl, refl, refl)
digit_char_lem (suc zero) h = ("1", refl, refl, refl)
digit_char_lem (suc (suc zero)) h = ("2", refl, refl, refl)
digit_char_lem (suc (suc (suc zero))) h = ("3", refl, refl, refl)
digit_char_lem (suc (suc (suc (suc zero)))) h = ("4", refl, refl, refl)
digit_char_lem (suc (suc (suc (suc (suc zero))))) h = ("5", refl, refl, refl)
digit_char_lem (suc (suc (suc (suc (suc (suc zero)))))) h = ("6", refl, refl, refl)
digit_char_lem (suc (suc (suc (suc (suc (suc (suc zero))))))) h = ("7", refl, refl, refl)
digit_char_lem (suc (suc (suc (suc (suc (suc (suc (suc zero)))))))) h = ("8", refl, refl, refl)
digit_char_lem (suc (suc (suc (suc (suc (suc (suc (suc (suc zero))))))))) h =
    ("9", refl, refl, refl)
digit_char_lem (suc (suc (suc (suc (suc (suc (suc (suc (suc (suc d)))))))))) h =
    absurd (omega arith)

number-digit :
    (n acc d : ℕ) (s : String)
    → d < 10
    → number (suc n) acc (digit_char d ++ s) ≡ number n (10 * acc + d) s
unfolding number
number-digit n acc d s h =
    let (c, e, is, value) = digit_char_lem d h in
    rw (e, cons-append c [] s, nil-append s, is, value)

pub number-two :
    (n acc v : ℕ) (s : String)
    → v < 100
    → number (suc (suc n)) acc (two v ++ s) ≡ number n (100 * acc + v) s
number-two n acc v s h =
    let e : 10 * (10 * acc + v / 10 % 10) + v % 10 ≡ 100 * acc + v = omega arith in
    unfold two in
    rw (
      append_assoc (digit_char (v / 10 % 10)) (digit_char (v % 10)) s,
      number-digit (suc n) acc (v / 10 % 10) (digit_char (v % 10) ++ s) (omega arith),
      number-digit n (10 * acc + v / 10 % 10) (v % 10) s (omega arith),
      e,
    )

-- Two digits that end a field.
number-field : (v : ℕ) (s : String) → v < 100 → number 2 0 (two v ++ s) ≡ some (v, s)
number-field v s h =
    rw (number-two 0 0 v s h)
      (let e : 100 * 0 + v ≡ v = omega arith in rw e (unfold number in refl))

number-year :
    (y : ℕ) (s : String)
    → y < 10000
    → number 4 0 (two (y / 100) ++ (two (y % 100) ++ s)) ≡ some (y, s)
number-year y s h =
    let e : 100 * (100 * 0 + y / 100) + y % 100 ≡ y = omega arith in
    rw
      (
        number-two 2 0 (y / 100) (two (y % 100) ++ s) (omega arith),
        number-two 0 (100 * 0 + y / 100) (y % 100) s (omega arith),
        e,
      )
      (unfold number in refl)

-- A moment of the calendar, with a year of four digits.
pub record IsCivil (m : Moment) : Type 0 where
  pub four_digits : m.year < 10000
  pub valid : in_range m ≡ true

-- The moment, without the fraction of its second.
abbrev pub whole : Moment → Moment
whole m = record m { nanos = 0 }

number-end : (v : ℕ) → v < 100 → number 2 0 (two v) ≡ some (v, "")
number-end v h = ap (number 2 0) (sym (append-nil (two v))) ∙ number-field v "" h

hyphen_lem : (s : String) → hyphen ("-" ++ s) ≡ some s
hyphen_lem s = rw (cons-append "-" [] s, nil-append s) (unfold hyphen in refl)

in_range_bounds :
    (m : Moment)
    → in_range m ≡ true
    → (m.month < 100) × (m.day < 100) × (m.hour < 100) × (m.minute < 100) × (m.second < 100)
unfolding in_range days_in
in_range_bounds m h = ground arith

in_range-whole : (m : Moment) → in_range (whole m) ≡ in_range m
unfolding in_range
in_range-whole m = refl

-- A moment that was printed is parsed back, without the fraction of its second.
pub parse_stamp-format_stamp :
    (m : Moment) → IsCivil m → parse_stamp (format_stamp m) ≡ some (whole m)
unfolding parse_stamp format_stamp
parse_stamp-format_stamp m v =
    let (mo, d, h, mi, sec) = in_range_bounds m v.valid in
    rw
      (
        number-year m.year
            (two m.month ++ (two m.day ++ ("-" ++ (two m.hour ++ (two m.minute ++ two m.second)))))
            v.four_digits,
        number-field m.month (two m.day ++ ("-" ++ (two m.hour ++ (two m.minute ++ two m.second))))
            mo,
        number-field m.day ("-" ++ (two m.hour ++ (two m.minute ++ two m.second))) d,
        hyphen_lem (two m.hour ++ (two m.minute ++ two m.second)),
        number-field m.hour (two m.minute ++ two m.second) h,
        number-field m.minute (two m.second) mi,
      )
      (rw (number-end m.second sec) (unfold fraction_or_end in rw (in_range-whole m ∙ v.valid)))
