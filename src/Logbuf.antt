-- ===== src/Logbuf.antt =====
-- internal/logbuf/buf.go: the ring of recent log lines. The mutex makes every method one step, so
-- a method is a function on the state; the wall clock is an argument of `write`.
use sing_box_helper.Prelude.{
  ℕ, zero, suc, ◌-◌, Bool, ◌&&◌, ◌||◌, List, [], ◌∷◌, ◌++◌, Option, none, some, ltb, leb, nat_eq,
  if◌then◌else◌, length, drop, set, copy, ℤ, pos, leb_ℤ, pos_part,
}
use mathlib.Core.Option
pub mod Stream
pub mod Ring
pub mod Writes
pub mod Ended

abbrev pub Bytes : Type 0
Bytes = List ℕ

pub record Line : Type 0 where
  pub when : ℕ
  pub text : Bytes

-- `pending` is the field `pendng`.
pub record Buffer : Type 0 where
  pub lines : List Line
  pub max : ℕ
  pub pending : Bytes

unfoldable pub new : ℤ → Buffer
new max = record { lines = []; max = if leb_ℤ max (pos 0) then 500 else pos_part max; pending = [] }

unfoldable pub append_locked : Buffer → Line → Buffer
append_locked b l =
    if ltb (length b.lines) b.max
    then record b { lines = b.lines ++ l ∷ [] }
    else record b { lines = set (copy b.lines (drop 1 b.lines)) (length b.lines - 1) l }

-- `bytes.IndexByte(p, '\n')`, as the bytes in front of the newline and those behind it.
unfoldable pub break_line : Bytes → Option (Bytes × Bytes)
break_line [] = none
break_line (c ∷ cs) =
    if nat_eq c b'\n'
    then some ([], cs)
    else Option.map (λ (line, rest). (c ∷ line, rest)) (break_line cs)

-- `bytes.TrimRight(line, "\r")`
abbrev is_empty : Bytes → Bool
is_empty [] = Bool.true
is_empty (_ ∷ _) = Bool.false

unfoldable pub trim_cr : Bytes → Bytes
trim_cr [] = []
trim_cr (c ∷ cs) = let rest = trim_cr cs in if nat_eq c b'\r' && is_empty rest then [] else c ∷ rest

-- One line found by the loop: stored unless nothing is left of it.
unfoldable pub store_line : ℕ → Bytes → Buffer → Buffer
store_line now line b =
    if is_empty (trim_cr line)
    then b
    else append_locked b (record { when = now; text = trim_cr line })

-- The loop of `Write`; each round takes at least one byte off `pending`.
unfoldable pub drain : ℕ → ℕ → Buffer → Buffer
drain zero now b = b
drain (suc fuel) now b = elim (break_line b.pending) [
  | none ↦ b
  | some (line, rest) ↦ drain fuel now (record (store_line now line b) { pending = rest })
]

unfoldable pub write : ℕ → Bytes → Buffer → Buffer
write now p b =
    let all = b.pending ++ p in drain (suc (length all)) now (record b { pending = all })

unfoldable pub tail : ℤ → Buffer → List Line
tail n b =
    if leb_ℤ n (pos 0) || leb (length b.lines) (pos_part n)
    then b.lines
    else drop (length b.lines - pos_part n) b.lines
