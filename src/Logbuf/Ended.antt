-- ===== src/Logbuf/Ended.antt =====
-- The loop of `Write` in internal/logbuf/buf.go: it ends, and its fuel is enough.
use sing_box_helper.Prelude.{
  ℕ, zero, suc, ◌<◌, ◌++◌, ◌≡◌, refl, arith, length, none, Option-cases, inl, inr,
}
use sing_box_helper.Logbuf.{Bytes, Buffer, break_line, store_line, drain, write}
use sing_box_helper.Logbuf.Stream.{break_line-some}

-- The loop stands still: no newline is left.
drain-none :
    (fuel now : ℕ) (b : Buffer)
    → length b.pending < fuel
    → break_line (drain fuel now b).pending ≡ none
unfolding drain
drain-none zero now b h = absurd (omega arith)
drain-none (suc fuel) now b h = elim (Option-cases (break_line b.pending)) [
  | inl e ↦ rw (e, drain) e
  | inr ((line, rest), e) ↦
      let (_, _, s) = break_line-some b.pending line rest e in
      rw (e, drain)
        (drain-none fuel now (record (store_line now line b) { pending = rest }) (omega arith))
]

drain-drain :
    (m n now : ℕ) (b : Buffer)
    → length b.pending < m
    → length b.pending < n
    → drain m now b ≡ drain n now b
unfolding drain
drain-drain zero n now b h i = absurd (omega arith)
drain-drain (suc m) zero now b h i = absurd (omega arith)
drain-drain (suc m) (suc n) now b h i = elim (Option-cases (break_line b.pending)) [
  | inl e ↦ rw (e, drain) refl
  | inr ((line, rest), e) ↦
      let (_, _, s) = break_line-some b.pending line rest e in
      rw (e, drain)
        (drain-drain m n now (record (store_line now line b) { pending = rest }) (omega arith)
          (omega arith))
]

-- The loop of a write ends: it stops where no newline is left in what is pending, and to allow it
-- any number of rounds above the number of pending bytes gives the same buffer.
pub write-drain :
    (fuel now : ℕ) (p : Bytes) (b : Buffer)
    → length (b.pending ++ p) < fuel
    → (drain fuel now (record b { pending = b.pending ++ p }) ≡ write now p b)
      × (break_line (write now p b).pending ≡ none)
unfolding write
write-drain fuel now p b h =
    let start : Buffer = record b { pending = b.pending ++ p } in
    (
      drain-drain fuel (suc (length (b.pending ++ p))) now start h (omega arith),
      drain-none (suc (length (b.pending ++ p))) now start (omega arith),
    )
