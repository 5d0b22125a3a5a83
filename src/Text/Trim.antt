-- ===== src/Text/Trim.antt =====
-- Trimming a trimmed text changes nothing.
use Prim.Native.String.{String, [], ◌∷◌}
use sing_box_helper.Prelude.{◌≡◌, refl, Bool-cases, false, ◌&&◌, inl, inr}
use sing_box_helper.Text.{is_space, is_empty, trim_left, trim_right, trim_space}

abbrev NotSpaceFirst : String → Type 0
NotSpaceFirst [] = Unit
NotSpaceFirst (c ∷ s) = is_space c ≡ false

trim_left-NotSpaceFirst : (s : String) → NotSpaceFirst (trim_left s)
unfolding trim_left
trim_left-NotSpaceFirst [] = tt
trim_left-NotSpaceFirst (c ∷ s) = elim (Bool-cases (is_space c)) [
  | inl e ↦ rw e (trim_left-NotSpaceFirst s)
  | inr e ↦ rw e e
]

trim_left_of_NotSpaceFirst : (s : String) → NotSpaceFirst s → trim_left s ≡ s
unfolding trim_left
trim_left_of_NotSpaceFirst [] h = refl
trim_left_of_NotSpaceFirst (c ∷ s) h = rw h

trim_right-NotSpaceFirst : (s : String) → NotSpaceFirst s → NotSpaceFirst (trim_right s)
unfolding trim_right
trim_right-NotSpaceFirst [] h = tt
trim_right-NotSpaceFirst (c ∷ s) h = rw h h

trim_right_idem : (s : String) → trim_right (trim_right s) ≡ trim_right s
unfolding trim_right
trim_right_idem [] = refl
trim_right_idem (c ∷ s) = elim (Bool-cases (is_space c && is_empty (trim_right s))) [
  | inl e ↦ rw e
  | inr e ↦ rw (e, trim_right, trim_right_idem s, e)
]

pub trim_space_idem : (s : String) → trim_space (trim_space s) ≡ trim_space s
unfolding trim_space
trim_space_idem s =
    rw (trim_left_of_NotSpaceFirst _ (trim_right-NotSpaceFirst _ (trim_left-NotSpaceFirst s)))
      (trim_right_idem (trim_left s))
