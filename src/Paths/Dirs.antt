-- ===== src/Paths/Dirs.antt =====
-- The directory of a path, and what filepath.Clean makes of it.
use Prim.Native.Char.{Char, code}
use Prim.Native.String.{String, ◌++◌, [], ◌∷◌}
use text.Mathlib.TextLemmas.{nil-append, cons-append, append_assoc}
use text.Mathlib.TextEquality.{Char-path}
use mathlib.Core.List
use sing_box_helper.Prelude.{
  Bool, true, false, List, [], ◌∷◌, ◌==◌, nat_eq, if◌then◌else◌, All, ◌≡◌, refl, sym, ap, subst,
  ◌∙◌, inl, inr, arith, Bool-cases,
}
use sing_box_helper.Text.{split, prepend}
use sing_box_helper.Paths.{is_rooted, step, steps, joined, rendered, clean, front, dir_of}
use sing_box_helper.Paths.Names.{
  NoSlash, IsPlain, EndsIn, split-slash, split_cons, split-next, split-NoSlash, split_of_NoSlash,
  split_last, step-plain, steps-append, steps-plain, clean_of_split, not-empty-append,
}

-- A segment that the next step puts on the stack.
abbrev Kept : Bool → List String → String → Type 0
Kept rooted stack seg = (step rooted stack seg ≡ seg ∷ stack) × NoSlash seg × ((seg == "") ≡ false)

abbrev Normal : Bool → List String → Type 0
Normal rooted [] = Unit
Normal rooted (seg ∷ stack) = Kept rooted stack seg × Normal rooted stack

-- The segment "..".
dots-NoSlash : NoSlash ".."
dots-NoSlash = (refl, (refl, tt))

step_nil-Normal : (rooted : Bool) (seg : String) → NoSlash seg → Normal rooted (step rooted [] seg)
unfolding step
step_nil-Normal rooted seg h = elim (Bool-cases (seg == "")) [
  | inl t ↦ rw t tt
  | inr a ↦ elim (Bool-cases (seg == ".")) [
    | inl t ↦ rw (a, t) tt
    | inr b ↦ elim (Bool-cases (seg == "..")) [
      | inl t ↦ rw (a, b, t) (up rooted)
      | inr c ↦
          let kept : step rooted [] seg ≡ seg ∷ [] = rw (a, b, c) in rw kept ((kept, h, a), tt)
    ]
  ]
]
  where
    up : (r : Bool) → Normal r (if r then [] else ".." ∷ [])
    up true = tt
    up false = ((refl, dots-NoSlash, refl), tt)

step_cons-Normal :
    (rooted : Bool) (top : String) (stack : List String) (seg : String)
    → NoSlash seg
    → Normal rooted (top ∷ stack)
    → Normal rooted (step rooted (top ∷ stack) seg)
unfolding step
step_cons-Normal rooted top stack seg h n = elim (Bool-cases (seg == "")) [
  | inl t ↦ rw t n
  | inr a ↦ elim (Bool-cases (seg == ".")) [
    | inl t ↦ rw (a, t) n
    | inr b ↦ elim (Bool-cases (seg == "..")) [
      | inl t ↦ elim (Bool-cases (top == "..")) [
        | inl u ↦ rw (a, b, t, u) ((rw u, dots-NoSlash, refl), n)
        | inr u ↦ rw (a, b, t, u) n.1
      ]
      | inr c ↦
          let kept : step rooted (top ∷ stack) seg ≡ seg ∷ top ∷ stack = rw (a, b, c) in
          rw kept ((kept, h, a), n)
    ]
  ]
]

step-Normal :
    (rooted : Bool) (stack : List String) (seg : String)
    → NoSlash seg
    → Normal rooted stack
    → Normal rooted (step rooted stack seg)
step-Normal rooted [] seg h n = step_nil-Normal rooted seg h
step-Normal rooted (top ∷ stack) seg h n = step_cons-Normal rooted top stack seg h n

steps-Normal :
    (rooted : Bool) (stack segs : List String)
    → All NoSlash segs
    → Normal rooted stack
    → Normal rooted (steps rooted stack segs)
unfolding steps
steps-Normal rooted stack [] hs n = n
steps-Normal rooted stack (seg ∷ segs) (h, hs) n =
    steps-Normal rooted (step rooted stack seg) segs hs (step-Normal rooted stack seg h n)

-- The segments of a stack that is not empty give the stack again.
steps-joined :
    (rooted : Bool) (seg : String) (stack : List String)
    → Normal rooted (seg ∷ stack)
    → steps rooted [] (split b'/' (joined (seg ∷ stack))) ≡ seg ∷ stack
unfolding joined
steps-joined rooted seg [] ((kept, clear, _), n) =
    rw (split_of_NoSlash seg clear) (unfold steps in kept)
steps-joined rooted seg (next ∷ stack) ((kept, clear, _), n) =
    rw
      (
        split_last (joined (next ∷ stack)) seg clear,
        steps-append rooted [] (split b'/' (joined (next ∷ stack))) (seg ∷ []),
        steps-joined rooted next stack n,
      )
      (unfold steps in kept)

-- The first segment of such a stack is not empty.
joined-first :
    (rooted : Bool) (seg : String) (stack : List String)
    → Normal rooted (seg ∷ stack)
    → (head : String) × (tail : List String) × (split b'/' (joined (seg ∷ stack)) ≡ head ∷ tail)
      × ((head == "") ≡ false)
unfolding joined
joined-first rooted seg [] ((_, clear, full), n) = (seg, [], split_of_NoSlash seg clear, full)
joined-first rooted seg (next ∷ stack) ((_, clear, _), n) =
    let (head, tail, e, full) = joined-first rooted next stack n in
    (head, List.◌++◌ tail (seg ∷ []), rw (split_last (joined (next ∷ stack)) seg clear, e), full)

front-prepend :
    (c : Char) (head : String) (tail : List String) (name : String)
    → front (List.◌++◌ (prepend c (head ∷ tail)) (name ∷ []))
      ≡ c ∷ front (List.◌++◌ (head ∷ tail) (name ∷ []))
front-prepend c head [] name = cons-append c head ("/" ++ front (name ∷ []))
front-prepend c head (next ∷ tail) name =
    cons-append c head ("/" ++ front (List.◌++◌ (next ∷ tail) (name ∷ [])))

front-cons :
    (head : String) (tail : List String) (name : String)
    → front (head ∷ List.◌++◌ tail (name ∷ []))
      ≡ head ++ ("/" ++ front (List.◌++◌ tail (name ∷ [])))
front-cons head [] name = refl
front-cons head (next ∷ tail) name = refl

pub front-split : (s name : String) → front (List.◌++◌ (split b'/' s) (name ∷ [])) ≡ s ++ "/"
front-split [] name = unfold split in refl
front-split (c ∷ s) name =
    let (head, tail, e) = split_cons b'/' s in
    let rest : front (head ∷ List.◌++◌ tail (name ∷ [])) ≡ s ++ "/" =
      subst (λ xs. front (List.◌++◌ xs (name ∷ [])) ≡ s ++ "/") e (front-split s name) in
    elim (Bool-cases (nat_eq (code c) b'/')) [
      | inl u ↦
          rw (split-next c s, u, front-cons "" (split b'/' s) name, front-split s name)
            (let same : c ≡ "/" = Char-path c "/" (ground arith) in
              rw (
                same,
                nil-append ("/" ++ (s ++ "/")),
                cons-append "/" s "/",
                cons-append "/" [] (s ++ "/"),
                nil-append (s ++ "/"),
              ))
      | inr u ↦ rw (split-next c s, u, e, front-prepend c head tail name, rest, cons-append c s "/")
    ]

-- Whether the path that a segment is added to starts with a slash.
is_rooted-next :
    (head : String) (tail : List String) (name : String)
    → is_rooted (List.◌++◌ (head ∷ tail) (name ∷ [])) ≡ (head == "")
is_rooted-next head [] name = refl
is_rooted-next head (next ∷ tail) name = refl

abbrev rooted_of : String → Bool
rooted_of dir = is_rooted (List.◌++◌ (split b'/' dir) ("" ∷ []))

rooted_of-name :
    (dir name : String) → is_rooted (List.◌++◌ (split b'/' dir) (name ∷ [])) ≡ rooted_of dir
rooted_of-name dir name =
    let (head, tail, e) = split_cons b'/' dir in
    rw (e, is_rooted-next head tail name, is_rooted-next head tail "")

step-empty : (rooted : Bool) (stack : List String) → step rooted stack "" ≡ stack
unfolding step
step-empty rooted [] = refl
step-empty rooted (top ∷ stack) = refl

-- A directory with the slash behind it.
clean_dir :
    (dir : String)
    → clean (dir ++ "/") ≡ rendered (rooted_of dir) (steps (rooted_of dir) [] (split b'/' dir))
clean_dir dir =
    let segs = split b'/' dir in
    let rooted = rooted_of dir in
    rw
      (
        clean_of_split (dir ++ "/") (List.◌++◌ segs ("" ∷ [])) (split_last dir "" tt),
        steps-append rooted [] segs ("" ∷ []),
      )
      (unfold steps in ap (rendered rooted) (step-empty rooted (steps rooted [] segs)))

pub dir_of_last :
    (dir name : String) → NoSlash name → dir_of (dir ++ ("/" ++ name)) ≡ clean (dir ++ "/")
unfolding dir_of
dir_of_last dir name h = rw (split_last dir name h, front-split dir name)

pub dir_of_name : (name : String) → NoSlash name → dir_of name ≡ clean ""
unfolding dir_of
dir_of_name name h = rw (split_of_NoSlash name h)

dir_of-rendered :
    (rooted : Bool) (stack : List String) (name : String)
    → IsPlain name
    → Normal rooted stack
    → dir_of (rendered rooted (name ∷ stack)) ≡ rendered rooted stack
dir_of-rendered true [] name p n =
    let e : rendered true (name ∷ []) ≡ "" ++ ("/" ++ name) =
      unfold rendered joined in sym (nil-append ("/" ++ name)) in
    rw (e, dir_of_last "" name p.no_slash, clean_dir "")
      (unfold rendered joined steps step split in refl)
dir_of-rendered false [] name p n =
    let e : rendered false (name ∷ []) ≡ name = unfold rendered joined in rw p.not_empty in
    rw (e, dir_of_name name p.no_slash) (unfold clean rendered joined steps step split in refl)
dir_of-rendered true (seg ∷ stack) name p n =
    let dir = "/" ++ joined (seg ∷ stack) in
    let e : rendered true (name ∷ seg ∷ stack) ≡ dir ++ ("/" ++ name) =
      unfold rendered joined in sym (append_assoc "/" (joined (seg ∷ stack)) ("/" ++ name)) in
    let segs : split b'/' dir ≡ "" ∷ split b'/' (joined (seg ∷ stack)) =
      split-slash (joined (seg ∷ stack)) in
    rw
      (
        e,
        dir_of_last dir name p.no_slash,
        clean_dir dir,
        segs,
        is_rooted-next "" (split b'/' (joined (seg ∷ stack))) "",
      )
      (unfold steps step in ap (rendered true) (steps-joined true seg stack n))
dir_of-rendered false (seg ∷ stack) name p n =
    let dir = joined (seg ∷ stack) in
    let (head, tail, first, full) = joined-first false seg stack n in
    let e : rendered false (name ∷ seg ∷ stack) ≡ dir ++ ("/" ++ name) =
      unfold rendered joined in rw (not-empty-append dir name) in
    let r : rooted_of dir ≡ false = rw (first, is_rooted-next head tail "", full) in
    rw (e, dir_of_last dir name p.no_slash, clean_dir dir, r)
      (ap (rendered false) (steps-joined false seg stack n))

-- Clean keeps the directory of a path that ends in a plain segment.
pub dir_of-clean :
    (path name : String) → IsPlain name → EndsIn path name → dir_of (clean path) ≡ dir_of path
dir_of-clean path name p (inl e) =
    let same : clean name ≡ rendered false (name ∷ []) =
      clean_of_split name (name ∷ []) (split_of_NoSlash name p.no_slash)
      ∙ (unfold steps in ap (rendered false) (step-plain false [] name p)) in
    rw (e, same, dir_of-rendered false [] name p tt, dir_of_name name p.no_slash)
      (unfold clean rendered joined steps step split in refl)
dir_of-clean path name p (inr (dir, e)) =
    let segs = split b'/' dir in
    let rooted = rooted_of dir in
    let cleaned : clean (dir ++ ("/" ++ name)) ≡ rendered rooted (name ∷ steps rooted [] segs) =
      rw (
        clean_of_split (dir ++ ("/" ++ name)) (List.◌++◌ segs (name ∷ []))
            (split_last dir name p.no_slash),
        rooted_of-name dir name,
        steps-plain rooted segs name p,
      ) in
    rw (
      e,
      cleaned,
      dir_of-rendered rooted (steps rooted [] segs) name p
          (steps-Normal rooted [] segs (split-NoSlash dir) tt),
      dir_of_last dir name p.no_slash,
      clean_dir dir,
    )

-- Two names in one place have the same directory.
pub dir_of-sibling :
    (path name suffix : String)
    → NoSlash name
    → NoSlash (name ++ suffix)
    → EndsIn path name
    → dir_of (path ++ suffix) ≡ dir_of path
dir_of-sibling path name suffix h h' (inl e) =
    rw (e, dir_of_name name h, dir_of_name (name ++ suffix) h')
dir_of-sibling path name suffix h h' (inr (dir, e)) = rw (
  e,
  append_assoc dir ("/" ++ name) suffix,
  append_assoc "/" name suffix,
  dir_of_last dir name h,
  dir_of_last dir (name ++ suffix) h',
)
