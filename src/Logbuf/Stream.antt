-- ===== src/Logbuf/Stream.antt =====
-- What a stream of bytes holds, however it is cut into writes: its complete lines and the
-- unfinished rest. Independent of the buffer, and met by the search loop of `Write`.
use sing_box_helper.Prelude.{
  ℕ, ◌<◌, List, [], ◌∷◌, ◌++◌, ◌≡◌, refl, arith, some, none, nat_eq, if◌then◌else◌, length,
  Option-cases, inl, inr,
}
use sing_box_helper.Logbuf.{Bytes, is_empty, break_line, trim_cr}

-- A byte in front of the first line; with no line complete it belongs to the rest.
abbrev pub prepend : ℕ → List Bytes → List Bytes
prepend c [] = []
prepend c (l ∷ ls) = (c ∷ l) ∷ ls

abbrev pub prepend_rest : ℕ → List Bytes → Bytes → Bytes
prepend_rest c [] rest = c ∷ rest
prepend_rest c (l ∷ ls) rest = rest

-- The complete lines of a stream, without their newlines.
unfoldable pub complete : Bytes → List Bytes
complete [] = []
complete (c ∷ cs) = let ls = complete cs in if nat_eq c b'\n' then [] ∷ ls else prepend c ls

-- What follows the last newline.
unfoldable pub remainder : Bytes → Bytes
unfolding complete
remainder [] = []
remainder (c ∷ cs) =
    let rest = remainder cs in if nat_eq c b'\n' then rest else prepend_rest c (complete cs) rest

-- The lines as they are stored: trailing `\r` cut, empty ones left out.
unfoldable pub stored : List Bytes → List Bytes
stored [] = []
stored (l ∷ ls) = if is_empty (trim_cr l) then stored ls else trim_cr l ∷ stored ls

pub stored-append : (ls ms : List Bytes) → stored (ls ++ ms) ≡ stored ls ++ stored ms
unfolding stored
stored-append [] ms = refl
stored-append (l ∷ ls) ms = ground (arith, stored-append ls ms)

pub complete-append : (s t : Bytes) → complete (s ++ t) ≡ complete s ++ complete (remainder s ++ t)
unfolding complete remainder
complete-append [] t = refl
complete-append (c ∷ cs) t = ground (arith, complete-append cs t)

pub remainder-append : (s t : Bytes) → remainder (s ++ t) ≡ remainder (remainder s ++ t)
unfolding complete remainder
remainder-append [] t = refl
remainder-append (c ∷ cs) t = ground (arith, complete-append cs t, remainder-append cs t)

pub break_line-none : (s : Bytes) → break_line s ≡ none → (complete s ≡ []) × (remainder s ≡ s)
unfolding complete remainder break_line
break_line-none [] h = (refl, refl)
break_line-none (c ∷ cs) h = ground (arith, break_line-none cs)

pub break_line-some :
    (s line rest : Bytes)
    → break_line s ≡ some (line, rest)
    → (complete s ≡ line ∷ complete rest)
      × (remainder s ≡ remainder rest)
      × (length rest < length s)
unfolding complete remainder break_line
break_line-some [] line rest h = cc
break_line-some (c ∷ cs) line rest h = elim (Option-cases (break_line cs)) [
  | inl e ↦ ground (arith, break_line-none cs e)
  | inr ((l, r), e) ↦ ground (arith, break_line-some cs l r e)
]
