-- ===== src/Logbuf/Ring.antt =====
-- One append to the ring, and one round of the loop of `Write`, against the list of all lines.
use sing_box_helper.Prelude.{
  ℕ, suc, ◌+◌, ◌-◌, ◌<◌, ◌≤◌, List, [], ◌∷◌, ◌++◌, ◌≡◌, refl, ap, sym, arith, ltb, ltb→lt, true,
  false, length, drop, set, copy, keep_last, length-append, length-drop, drop-drop, drop-append_le,
  Bool-cases, inl, inr,
}
use sing_box_helper.Logbuf.{Bytes, Line, Buffer, append_locked}

abbrev pub text_of : Line → Bytes
text_of l = l.text

-- The in-place shift drops the first element and puts the new one at the end.
shift_lem {ℓ} :
    {A : Type ℓ} (x : A) (xs : List A) (v : A) → set (copy (x ∷ xs) xs) (length xs) v ≡ xs ++ v ∷ []
shift_lem x [] v = refl
shift_lem x (y ∷ xs) v = ap (◌∷◌ y) (shift_lem y xs v)

keep_last-concat_lt {ℓ} :
    {A : Type ℓ} (n : ℕ) (xs : List A) (v : A)
    → length xs < n
    → keep_last n (xs ++ v ∷ []) ≡ keep_last n xs ++ v ∷ []
keep_last-concat_lt n xs v h =
    let e : length (xs ++ v ∷ []) - n ≡ 0 = omega (arith, length-append xs (v ∷ [])) in
    let e' : length xs - n ≡ 0 = omega arith in rw (e, e')

keep_last-concat_le {ℓ} :
    {A : Type ℓ} (n : ℕ) (xs : List A) (v : A)
    → 0 < n
    → n ≤ length xs
    → keep_last n (xs ++ v ∷ []) ≡ drop 1 (keep_last n xs) ++ v ∷ []
keep_last-concat_le n xs v p h =
    let e : length (xs ++ v ∷ []) - n ≡ length xs - n + 1 =
      omega (arith, length-append xs (v ∷ [])) in
    rw (e, drop-append_le (length xs - n + 1) xs (v ∷ []) (omega arith), drop-drop)

append_room :
    (b : Buffer) (l : Line)
    → ltb (length b.lines) b.max ≡ true
    → (append_locked b l).lines ≡ b.lines ++ l ∷ []
unfolding append_locked
append_room b l room = rw room

append_full :
    (b : Buffer) (l : Line)
    → ltb (length b.lines) b.max ≡ false
    → 0 < length b.lines
    → (append_locked b l).lines ≡ drop 1 b.lines ++ l ∷ []
unfolding append_locked
append_full b l full p = rw full (go b.lines p)
  where
    go :
        (ls : List Line)
        → 0 < length ls
        → set (copy ls (drop 1 ls)) (length ls - 1) l ≡ drop 1 ls ++ l ∷ []
    go [] q = absurd (omega arith)
    go (x ∷ xs) q = let e : suc (length xs) - 1 ≡ length xs = omega arith in rw e (shift_lem x xs l)

-- If the buffer holds the last `max` of `all`, it holds the last `max` of `all` and the new line.
pub append_locked-keep_last :
    (b : Buffer) (l : Line) (all : List Line)
    → 0 < b.max
    → b.lines ≡ keep_last b.max all
    → (append_locked b l).lines ≡ keep_last b.max (all ++ l ∷ [])
append_locked-keep_last b l all p h =
    let n : length b.lines ≡ length all - (length all - b.max) =
      omega (arith, ap length h, length-drop (length all - b.max) all) in
    elim (Bool-cases (ltb (length b.lines) b.max)) [
      | inl room ↦
          let small : length b.lines < b.max = ltb→lt _ _ room in
          rw (append_room b l room, h) (sym (keep_last-concat_lt b.max all l (omega arith)))
      | inr full ↦
          let large : b.max ≤ length b.lines = ground arith in
          rw (append_full b l full (omega arith), h)
            (sym (keep_last-concat_le b.max all l p (omega arith)))
    ]

pub append_locked-max : (b : Buffer) (l : Line) → (append_locked b l).max ≡ b.max
unfolding append_locked
append_locked-max b l = ground arith
