-- ===== src/Text.antt =====
-- Go's package strings (and `strconv.Atoi`), as far as the program uses it. A text is a sequence of
-- code points: invalid UTF-8 is left out.
pub mod Trim
use Prim.Native.Char.{Char, code}
use Prim.Native.String.{String, [], ◌∷◌}
use Prim.Native.String
use mathlib.Core.List.{List, [], ◌∷◌, map}
use mathlib.Core.Option
use sing_box_helper.Prelude.{
  ℕ, zero, suc, ◌+◌, ◌-◌, ◌*◌, ◌/◌, ◌%◌, ◌^◌, Bool, true, false, ◌&&◌, ◌||◌, not, Option, none,
  some, leb, ltb, nat_eq, ◌==◌, if◌then◌else◌, ℤ, pos, negsuc,
}

abbrev within : ℕ → ℕ → ℕ → Bool
within lo hi n = leb lo n && leb n hi

-- `unicode.IsSpace`
unfoldable pub is_space : Char → Bool
is_space c =
    let n = code c in
    within 9 13 n
    || nat_eq n 32
    || nat_eq n 0x85
    || nat_eq n 0xa0
    || nat_eq n 0x1680
    || within 0x2000 0x200a n
    || nat_eq n 0x2028
    || nat_eq n 0x2029
    || nat_eq n 0x202f
    || nat_eq n 0x205f
    || nat_eq n 0x3000

unfoldable pub is_empty : String → Bool
is_empty [] = true
is_empty (c ∷ s) = false

unfoldable pub trim_left : String → String
trim_left [] = []
trim_left (c ∷ s) = let rest = trim_left s in if is_space c then rest else c ∷ s

unfoldable pub trim_right : String → String
unfolding is_empty
trim_right [] = []
trim_right (c ∷ s) = let rest = trim_right s in if is_space c && is_empty rest then [] else c ∷ rest

-- `strings.TrimSpace`
unfoldable pub trim_space : String → String
unfolding trim_left trim_right is_space
trim_space s = trim_right (trim_left s)

nth_char : String → ℕ → Char → Char
nth_char [] n d = d
nth_char (c ∷ s) zero d = c
nth_char (c ∷ s) (suc n) d = nth_char s n d

-- `strings.ToLower`; outside ASCII the case table is an argument.
lower_char : (Char → Char) → Char → Char
unfolding nth_char
lower_char wide c =
    if within b'A' b'Z' (code c)
    then nth_char "abcdefghijklmnopqrstuvwxyz" (code c - b'A') c
    else if ltb (code c) 128
    then c
    else wide c

unfoldable pub to_lower : (Char → Char) → String → String
unfolding lower_char
to_lower wide [] = []
to_lower wide (c ∷ s) = lower_char wide c ∷ to_lower wide s

-- `strings.EqualFold(s, t)` for a `t` of ASCII letters: outside ASCII, only the long s and the
-- Kelvin sign fold to a letter.
fold_char : Char → Char
unfolding lower_char
fold_char c =
    if nat_eq (code c) 0x17f
    then "s"
    else if nat_eq (code c) 0x212a
    then "k"
    else lower_char (λ d. d) c

fold : String → String
unfolding fold_char
fold [] = []
fold (c ∷ s) = fold_char c ∷ fold s

unfoldable pub equal_fold : String → String → Bool
unfolding fold
equal_fold s t = fold s == fold t

abbrev pub prepend : Char → List String → List String
prepend c [] = []
prepend c (s ∷ ss) = (c ∷ s) ∷ ss

-- `strings.Split` at one character, given by its code.
unfoldable pub split : ℕ → String → List String
split sep [] = "" ∷ []
split sep (c ∷ s) =
    let rest = split sep s in if nat_eq (code c) sep then "" ∷ rest else prepend c rest

abbrev is_some : Option String → Bool
is_some none = false
is_some (some _) = true

-- What follows the prefix, if there is one: `strings.HasPrefix` with `strings.TrimPrefix`.
unfoldable pub strip_prefix : String → String → Option String
strip_prefix [] s = some s
strip_prefix (p ∷ ps) [] = none
strip_prefix (p ∷ ps) (c ∷ s) =
    let rest = strip_prefix ps s in if nat_eq (code p) (code c) then rest else none

-- `strings.Contains`, with the text to find first.
unfoldable pub contains : String → String → Bool
contains pat [] = is_some (strip_prefix pat [])
contains pat (c ∷ s) =
    let rest = contains pat s in if is_some (strip_prefix pat (c ∷ s)) then true else rest

abbrev digit : Char → Option ℕ
digit c = if within b'0' b'9' (code c) then some (code c - b'0') else none

-- The value of a text of decimal digits behind the digits read so far.
digits_from : ℕ → String → Option ℕ
digits_from acc [] = some acc
digits_from acc (c ∷ s) = elim (digit c) [ none ↦ none | some d ↦ digits_from (10 * acc + d) s ]

digits : String → Option ℕ
unfolding digits_from
digits [] = none
digits (c ∷ s) = digits_from 0 (c ∷ s)

-- Within the range of a 64-bit `int`.
abbrev positive_int : ℕ → Option ℤ
positive_int n = if ltb n (2 ^ 63) then some (pos n) else none

abbrev negative_int : ℕ → Option ℤ
negative_int zero = some (pos 0)
negative_int (suc n) = if ltb n (2 ^ 63) then some (negsuc n) else none

-- `strconv.Atoi`, with `none` for its errors.
unfoldable pub atoi : String → Option ℤ
unfolding digits Option.bind
atoi [] = none
atoi (c ∷ s) =
    if nat_eq (code c) b'-'
    then Option.bind (digits s) negative_int
    else if nat_eq (code c) b'+'
    then Option.bind (digits s) positive_int
    else Option.bind (digits (c ∷ s)) positive_int

-- The text in front of the first character of that code, if there is one: `s[:IndexByte(s, sep)]`.
unfoldable pub before : ℕ → String → Option String
before sep [] = none
before sep (c ∷ s) =
    let rest = Option.map (◌∷◌ c) (before sep s) in if nat_eq (code c) sep then some "" else rest

-- `strings.Fields`: the texts between the runs of white space. The flag says that the head of the
-- list is a field which has begun.
abbrev add_char : Char → Bool × List String → Bool × List String
add_char c (true, f ∷ fs) = (true, (c ∷ f) ∷ fs)
add_char c (_, fs) = (true, (c ∷ "") ∷ fs)

fields_from : String → Bool × List String
fields_from [] = (false, [])
fields_from (c ∷ s) =
    let rest = fields_from s in if is_space c then (false, rest.1) else add_char c rest

unfoldable pub fields : String → List String
unfolding fields_from is_space
fields s = (fields_from s).1

digit_text : ℕ → String
unfolding nth_char
digit_text n = nth_char "0123456789" n "0" ∷ ""

digits_text : ℕ → ℕ → String
unfolding digit_text
digits_text zero n = ""
digits_text (suc fuel) n = elim (ltb n 10) [
  | true ↦ digit_text n
  | false ↦ String.◌++◌ (digits_text fuel (n / 10)) (digit_text (n % 10))
]

-- `strconv.Itoa`; a number has fewer digits than its value plus two.
unfoldable pub itoa : ℤ → String
unfolding digits_text
itoa (pos n) = digits_text (suc n) n
itoa (negsuc n) = "-" ∷ digits_text (suc (suc n)) (suc n)
