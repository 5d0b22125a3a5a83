-- ===== src/Paths/Names.antt =====
-- The last segment of a path, and what filepath.Clean makes of it.
use Prim.Native.Char.{Char, code}
use Prim.Native.String.{String, ◌++◌, [], ◌∷◌}
use text.Mathlib.TextLemmas.{nil-append, cons-append, append_assoc, cons-ne-nil}
use mathlib.Core.List
use sing_box_helper.Prelude.{
  ℕ, All, subst, Bool, true, false, List, [], ◌∷◌, ◌==◌, nat_eq, if◌then◌else◌, ◌≡◌, refl, sym, ap,
  ◌⊎◌, inl, inr, eq_iff, Bool-cases,
}
use sing_box_helper.Text.{split, prepend}
use sing_box_helper.Paths.{is_rooted, step, steps, joined, rendered, clean, last_or, base_of}

abbrev pub NoSlash : String → Type 0
NoSlash [] = Unit
NoSlash (c ∷ s) = (nat_eq (code c) b'/' ≡ false) × NoSlash s

-- A segment that Clean keeps.
pub record IsPlain (name : String) : Type 0 where
  pub not_empty : (name == "") ≡ false
  pub not_dot : (name == ".") ≡ false
  pub not_dots : (name == "..") ≡ false
  pub no_slash : NoSlash name

-- The path is the name, or ends in a slash and the name.
abbrev pub EndsIn : String → String → Type 0
EndsIn path name = (path ≡ name) ⊎ ((front : String) × (path ≡ front ++ ("/" ++ name)))

pub split_of_NoSlash : (s : String) → NoSlash s → split b'/' s ≡ s ∷ []
unfolding split
split_of_NoSlash [] h = refl
split_of_NoSlash (c ∷ s) (h, hs) = rw (h, split_of_NoSlash s hs)

pub split-slash : (t : String) → split b'/' ("/" ++ t) ≡ "" ∷ split b'/' t
unfolding split
split-slash t = rw (cons-append "/" "" t, nil-append t)

pub split_cons :
    (sep : ℕ) (s : String) → (head : String) × (tail : List String) × (split sep s ≡ head ∷ tail)
unfolding split
split_cons sep [] = ("", [], refl)
split_cons sep (c ∷ s) =
    let (head, tail, e) = split_cons sep s in
    elim (Bool-cases (nat_eq (code c) sep)) [
      | inl t ↦ ("", split sep s, rw t)
      | inr t ↦ (c ∷ head, tail, rw (t, e))
    ]

pub split-next :
    (c : Char) (s : String)
    → split b'/' (c ∷ s)
      ≡ (if nat_eq (code c) b'/' then "" ∷ split b'/' s else prepend c (split b'/' s))
unfolding split
split-next c s = refl

pub split-append :
    (s t : String) → split b'/' (s ++ ("/" ++ t)) ≡ List.◌++◌ (split b'/' s) (split b'/' t)
split-append [] t = rw (nil-append ("/" ++ t), split-slash t) (unfold split in refl)
split-append (c ∷ s) t =
    let (head, tail, e) = split_cons b'/' s in
    rw
      (cons-append c s ("/" ++ t), split-next c (s ++ ("/" ++ t)), split-append s t, split-next c s)
      (elim (Bool-cases (nat_eq (code c) b'/')) [ inl u ↦ rw u | inr u ↦ rw (u, e) ])

-- The segments of a path have no slash.
pub split-NoSlash : (s : String) → All NoSlash (split b'/' s)
split-NoSlash [] = unfold split in (tt, tt)
split-NoSlash (c ∷ s) =
    let (head, tail, e) = split_cons b'/' s in
    let (first, others) = subst (All NoSlash) e (split-NoSlash s) in
    elim (Bool-cases (nat_eq (code c) b'/')) [
      | inl u ↦ rw (split-next c s, u) (tt, split-NoSlash s)
      | inr u ↦ rw (split-next c s, u, e) ((u, first), others)
    ]

pub split_last :
    (front name : String)
    → NoSlash name
    → split b'/' (front ++ ("/" ++ name)) ≡ List.◌++◌ (split b'/' front) (name ∷ [])
split_last front name h = rw (split-append front name, split_of_NoSlash name h)

last_or-append :
    (d name : String) (segs : List String)
    → (name == "") ≡ false
    → last_or d (List.◌++◌ segs (name ∷ [])) ≡ name
last_or-append d name [] e = rw e
last_or-append d name (s ∷ segs) e = elim (Bool-cases (s == "")) [
  | inl t ↦ rw t (last_or-append d name segs e)
  | inr t ↦ rw t (last_or-append s name segs e)
]

cons-not-empty : (c : Char) (s : String) → ((c ∷ s) == "") ≡ false
cons-not-empty c s = elim (Bool-cases ((c ∷ s) == "")) [
  | inl t ↦ absurd (cons-ne-nil c s ((eq_iff (c ∷ s) "").0 t))
  | inr t ↦ t
]

pub not-empty-append : (front name : String) → ((front ++ ("/" ++ name)) == "") ≡ false
not-empty-append [] name =
    rw (nil-append ("/" ++ name), cons-append "/" "" name) (cons-not-empty "/" ("" ++ name))
not-empty-append (c ∷ s) name =
    rw (cons-append c s ("/" ++ name)) (cons-not-empty c (s ++ ("/" ++ name)))

pub base_of-EndsIn : (path name : String) → IsPlain name → EndsIn path name → base_of path ≡ name
unfolding base_of
base_of-EndsIn path name p (inl e) =
    rw (e, p.not_empty, split_of_NoSlash name p.no_slash, p.not_empty)
base_of-EndsIn path name p (inr (front, e)) =
    rw (e, not-empty-append front name, split_last front name p.no_slash)
      (last_or-append "/" name (split b'/' front) p.not_empty)

pub steps-append :
    (rooted : Bool) (stack xs ys : List String)
    → steps rooted stack (List.◌++◌ xs ys) ≡ steps rooted (steps rooted stack xs) ys
unfolding steps
steps-append rooted stack [] ys = refl
steps-append rooted stack (x ∷ xs) ys = steps-append rooted (step rooted stack x) xs ys

pub step-plain :
    (rooted : Bool) (stack : List String) (name : String)
    → IsPlain name
    → step rooted stack name ≡ name ∷ stack
unfolding step
step-plain rooted [] name p = rw (p.not_empty, p.not_dot, p.not_dots)
step-plain rooted (s ∷ stack) name p = rw (p.not_empty, p.not_dot, p.not_dots)

pub steps-plain :
    (rooted : Bool) (segs : List String) (name : String)
    → IsPlain name
    → steps rooted [] (List.◌++◌ segs (name ∷ [])) ≡ name ∷ steps rooted [] segs
steps-plain rooted segs name p =
    rw (steps-append rooted [] segs (name ∷ []))
      (unfold steps in step-plain rooted (steps rooted [] segs) name p)

-- A path whose stack has the name on top ends in it.
rendered-EndsIn :
    (rooted : Bool) (stack : List String) (name : String)
    → IsPlain name
    → EndsIn (rendered rooted (name ∷ stack)) name
unfolding rendered joined
rendered-EndsIn true [] name p = inr ("", sym (nil-append ("/" ++ name)))
rendered-EndsIn false [] name p = rw p.not_empty (inl refl)
rendered-EndsIn true (s ∷ stack) name p =
    inr ("/" ++ joined (s ∷ stack), sym (append_assoc "/" (joined (s ∷ stack)) ("/" ++ name)))
rendered-EndsIn false (s ∷ stack) name p =
    rw (not-empty-append (joined (s ∷ stack)) name) (inr (joined (s ∷ stack), refl))

pub clean_of_split :
    (path : String) (segs : List String)
    → split b'/' path ≡ segs
    → clean path ≡ rendered (is_rooted segs) (steps (is_rooted segs) [] segs)
unfolding clean
clean_of_split path segs e = ap (λ xs. rendered (is_rooted xs) (steps (is_rooted xs) [] xs)) e

clean_of_last :
    (path : String) (segs : List String) (name : String)
    → IsPlain name
    → split b'/' path ≡ List.◌++◌ segs (name ∷ [])
    → EndsIn (clean path) name
clean_of_last path segs name p e =
    let rooted = is_rooted (List.◌++◌ segs (name ∷ [])) in
    rw (clean_of_split path (List.◌++◌ segs (name ∷ [])) e, steps-plain rooted segs name p)
      (rendered-EndsIn rooted (steps rooted [] segs) name p)

-- Clean keeps a plain last segment.
pub clean-EndsIn : (path name : String) → IsPlain name → EndsIn path name → EndsIn (clean path) name
clean-EndsIn path name p (inl e) =
    clean_of_last path [] name p (rw e (split_of_NoSlash name p.no_slash))
clean-EndsIn path name p (inr (front, e)) =
    clean_of_last path (split b'/' front) name p (rw e (split_last front name p.no_slash))
