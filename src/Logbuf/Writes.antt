-- ===== src/Logbuf/Writes.antt =====
-- Any sequence of writes against the stream of the bytes written.
use sing_box_helper.Prelude.{
  map-append, ℕ, zero, suc, ◌+◌, ◌<◌, List, [], ◌∷◌, ◌++◌, ◌≡◌, refl, sym, ap, subst, ◌∙◌, arith,
  length, keep_last, map, append_assoc, map-keep_last, length-drop, drop-drop, drop-nil, ◌-◌, min,
  leb, leb→le, ℤ, pos, Option-cases, Bool-cases, inl, inr, append-nil,
}
use sing_box_helper.Logbuf.{
  Line, Bytes, Buffer, is_empty, break_line, trim_cr, store_line, drain, write, tail, new,
}
use sing_box_helper.Logbuf.Stream.{
  complete, remainder, stored, stored-append, complete-append, remainder-append, break_line-none,
  break_line-some,
}
use sing_box_helper.Logbuf.Ring.{text_of, append_locked-keep_last, append_locked-max}

-- The lines of `b` are the last `max` of `all`.
record Shows (b : Buffer) (max : ℕ) (all : List Line) : Type 0 where
  pub positive : 0 < max
  pub max_is : b.max ≡ max
  pub shown : b.lines ≡ keep_last max all

abbrev pub line_at : ℕ → Bytes → Line
line_at now text = record { when = now; text = text }

store_line-Shows :
    (now : ℕ) (line : Bytes) (b : Buffer) {max : ℕ} {all : List Line}
    → Shows b max all
    → Shows (store_line now line b) max (all ++ map (line_at now) (stored (line ∷ [])))
unfolding store_line stored
store_line-Shows now line b {max} {all} v = elim (Bool-cases (is_empty (trim_cr line))) [
  | inl e ↦ rw (e, append-nil) v
  | inr e ↦ rw e (record {
    positive = v.positive;
    max_is = append_locked-max b _ ∙ v.max_is;
    shown =
        rw (← v.max_is)
          (append_locked-keep_last b _ all (rw v.max_is v.positive) (rw v.max_is v.shown));
  })
]

-- With more fuel than pending bytes the loop takes every complete line and leaves the rest.
drain-Shows :
    (fuel now : ℕ) (b : Buffer) {max : ℕ} {all : List Line}
    → length b.pending < fuel
    → Shows b max all
    → Shows (drain fuel now b) max (all ++ map (line_at now) (stored (complete b.pending)))
      × ((drain fuel now b).pending ≡ remainder b.pending)
unfolding drain stored
drain-Shows zero now b h v = absurd (omega arith)
drain-Shows (suc fuel) now b {max} {all} h v = elim (Option-cases (break_line b.pending)) [
  | inl e ↦ let (c, r) = break_line-none b.pending e in rw (e, drain) (rw (c, append-nil) v, sym r)
  | inr ((line, rest), e) ↦
      let (c, r, s) = break_line-some b.pending line rest e in
      let w = store_line-Shows now line b v in
      let b' : Buffer = record (store_line now line b) { pending = rest } in
      let (x, y) =
        drain-Shows fuel now b' (omega arith)
          (record { positive = w.positive; max_is = w.max_is; shown = w.shown }) in
      rw (e, drain)
        (
          subst (Shows (drain fuel now b') max)
              (append_assoc all _ _
                ∙ ap (◌++◌ all) (
                    sym (map-append (line_at now) (stored (line ∷ [])) (stored (complete rest)))
                    ∙ ap (map (line_at now))
                        (sym (stored-append (line ∷ []) (complete rest)) ∙ ap stored (sym c))))
              x,
          y ∙ sym r,
        )
]

-- One write stores the lines that it completes, at its time.
write-Shows :
    (now : ℕ) (p : Bytes) (b : Buffer) {max : ℕ} {all : List Line}
    → Shows b max all
    → Shows (write now p b) max (all ++ map (line_at now) (stored (complete (b.pending ++ p))))
      × ((write now p b).pending ≡ remainder (b.pending ++ p))
unfolding write
write-Shows now p b v =
    let all = b.pending ++ p in
    drain-Shows (suc (length all)) now (record b { pending = all }) (omega arith)
      (record { positive = v.positive; max_is = v.max_is; shown = v.shown })

-- A sequence of calls of `Write`, each with its time.
abbrev pub write_all : List (ℕ × Bytes) → Buffer → Buffer
write_all [] b = b
write_all ((now, p) ∷ ps) b = write_all ps (write now p b)

abbrev pub stream : List (ℕ × Bytes) → Bytes
stream [] = []
stream ((now, p) ∷ ps) = p ++ stream ps

-- The lines that a sequence of writes completes behind unfinished bytes, each with the time of the
-- write that brings its newline. Independent of the buffer.
unfoldable pub arrivals : Bytes → List (ℕ × Bytes) → List Line
arrivals rest [] = []
arrivals rest ((now, p) ∷ ps) =
    map (line_at now) (stored (complete (rest ++ p))) ++ arrivals (remainder (rest ++ p)) ps

write_all-Shows :
    (ps : List (ℕ × Bytes)) (b : Buffer) {max : ℕ} {all : List Line}
    → Shows b max all
    → Shows (write_all ps b) max (all ++ arrivals b.pending ps)
unfolding arrivals
write_all-Shows [] b v = rw append-nil v
write_all-Shows ((now, p) ∷ ps) b {max} {all} v =
    let (w, rest) = write-Shows now p b v in
    subst (Shows (write_all ps (write now p b)) max)
      (append_assoc all _ _
        ∙ ap (λ x. all ++ (map (line_at now) (stored (complete (b.pending ++ p))) ++ arrivals x ps))
            rest)
      (write_all-Shows ps (write now p b) w)

remainder_idem : (s : Bytes) → remainder (remainder s) ≡ remainder s
remainder_idem s =
    ap remainder (sym (append-nil (remainder s)))
    ∙ sym (remainder-append s [])
    ∙ ap remainder (append-nil s)

write_all-pending :
    (ps : List (ℕ × Bytes)) (b : Buffer) {max : ℕ} {all : List Line}
    → Shows b max all
    → remainder b.pending ≡ b.pending
    → (write_all ps b).pending ≡ remainder (b.pending ++ stream ps)
write_all-pending [] b v h = rw append-nil (sym h)
write_all-pending ((now, p) ∷ ps) b v h =
    let (w, rest) = write-Shows now p b v in
    let settled : remainder (write now p b).pending ≡ (write now p b).pending =
      ap remainder rest ∙ remainder_idem (b.pending ++ p) ∙ sym rest in
    write_all-pending ps (write now p b) w settled
    ∙ ap (λ x. remainder (x ++ stream ps)) rest
    ∙ sym (remainder-append (b.pending ++ p) (stream ps))
    ∙ ap remainder (append_assoc b.pending p (stream ps))

complete-remainder : (s : Bytes) → complete (remainder s) ≡ []
unfolding complete remainder
complete-remainder [] = refl
complete-remainder (c ∷ cs) = ground (arith, complete-remainder cs)

text_of-line_at : (now : ℕ) (xs : List Bytes) → map text_of (map (line_at now) xs) ≡ xs
text_of-line_at now [] = refl
text_of-line_at now (x ∷ xs) = ap (◌∷◌ x) (text_of-line_at now xs)

text_of-arrivals :
    (rest : Bytes) (ps : List (ℕ × Bytes))
    → complete rest ≡ []
    → map text_of (arrivals rest ps) ≡ stored (complete (rest ++ stream ps))
unfolding arrivals stored
text_of-arrivals rest [] h = rw (append-nil, h) refl
text_of-arrivals rest ((now, p) ∷ ps) h =
    let xs = stored (complete (rest ++ p)) in
    map-append text_of (map (line_at now) xs) (arrivals (remainder (rest ++ p)) ps)
    ∙ ap (λ z. z ++ map text_of (arrivals (remainder (rest ++ p)) ps)) (text_of-line_at now xs)
    ∙ ap (◌++◌ xs) (text_of-arrivals (remainder (rest ++ p)) ps (complete-remainder (rest ++ p)))
    ∙ sym (stored-append (complete (rest ++ p)) (complete (remainder (rest ++ p) ++ stream ps)))
    ∙ ap stored (sym (complete-append (rest ++ p) (stream ps)))
    ∙ ap (λ z. stored (complete z)) (append_assoc rest p (stream ps))

new-Shows : (m : ℤ) → Shows (new m) (new m).max []
unfolding new
new-Shows m = record { positive = ground arith; max_is = refl; shown = rw drop-nil }

-- The lines of a buffer that was new are the last of those that have arrived.
write_all-arrivals :
    (m : ℤ) (ps : List (ℕ × Bytes))
    → (write_all ps (new m)).lines ≡ keep_last (new m).max (arrivals [] ps)
unfolding new
write_all-arrivals m ps = (write_all-Shows ps (new m) (new-Shows m)).shown

-- After any sequence of writes to a new buffer, however the bytes are cut into writes, the texts of
-- the lines are the last `max` of the non-empty complete lines of all the bytes, and what is
-- pending is what follows the last newline.
pub write_all-new :
    (m : ℤ) (ps : List (ℕ × Bytes))
    → (map text_of (write_all ps (new m)).lines
        ≡ keep_last (new m).max (stored (complete (stream ps))))
      × ((write_all ps (new m)).pending ≡ remainder (stream ps))
unfolding new complete remainder
write_all-new m ps = (
  ap (map text_of) (write_all-arrivals m ps)
      ∙ map-keep_last text_of (new m).max (arrivals [] ps)
      ∙ ap (keep_last (new m).max) (text_of-arrivals [] ps refl),
  write_all-pending ps (new m) (new-Shows m) refl,
)

keep_last-keep_last {ℓ} :
    {A : Type ℓ} (m n : ℕ) (xs : List A) → keep_last n (keep_last m xs) ≡ keep_last (min n m) xs
keep_last-keep_last m n xs =
    let e : length (keep_last m xs) ≡ length xs - (length xs - m) = length-drop _ xs in
    let i : length xs - m + (length (keep_last m xs) - n) ≡ length xs - min n m =
      omega (arith, e) in
    drop-drop _ _ xs ∙ rw i

tail-keep_last : (n : ℕ) (b : Buffer) → 0 < n → tail (pos n) b ≡ keep_last n b.lines
unfolding tail
tail-keep_last n b h = elim (Bool-cases (leb (length b.lines) n)) [
  | inl e ↦ let i : length b.lines - n ≡ 0 = omega (arith, leb→le _ _ e) in rw (e, i) (ground arith)
  | inr e ↦ rw e (ground arith)
]

-- `Tail(n)` for a positive `n` shows the last `n` of the lines that have arrived, and the last `max`
-- if `n` is larger, oldest first; their texts are those of the complete lines of all the bytes.
pub tail-write_all :
    (m : ℤ) (n : ℕ) (ps : List (ℕ × Bytes))
    → 0 < n
    → (tail (pos n) (write_all ps (new m)) ≡ keep_last (min n (new m).max) (arrivals [] ps))
      × (map text_of (arrivals [] ps) ≡ stored (complete (stream ps)))
unfolding complete
tail-write_all m n ps h = (
  tail-keep_last n (write_all ps (new m)) h
      ∙ ap (keep_last n) (write_all-arrivals m ps)
      ∙ keep_last-keep_last (new m).max n (arrivals [] ps),
  text_of-arrivals [] ps refl,
)
