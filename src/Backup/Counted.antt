-- ===== src/Backup/Counted.antt =====
-- Lists of paths and entries: what is left of them, and how many.
use mathlib.Core.List.{map}
use sing_box_helper.Prelude.{
  suc, ◌≤◌, Bool, true, not, List, [], ◌∷◌, ◌++◌, length, kept, All, String, one_of, ◌≡◌, refl, ◌∙◌,
  ap, arith, eq_refl, length-append,
}
use sing_box_helper.Backup.{Entry, insert_entry, sort_entries}

-- The paths that are in none of the files.
abbrev pub spared_by : List String → String → Bool
spared_by files s = not (one_of s files)

kept-append :
    {A : Type 0} (p : A → Bool) (xs ys : List A) → kept p (xs ++ ys) ≡ kept p xs ++ kept p ys
kept-append p [] ys = refl
kept-append p (x ∷ xs) ys = ground (arith, kept-append p xs ys)

length-kept : {A : Type 0} (p : A → Bool) (xs : List A) → length (kept p xs) ≤ length xs
length-kept p [] = omega arith
length-kept p (x ∷ xs) = ground (arith, length-kept p xs)

kept_none :
    (files xs : List String) → All (λ x. one_of x files ≡ true) xs → kept (spared_by files) xs ≡ []
kept_none files [] h = refl
kept_none files (x ∷ xs) (p, h) = rw p (kept_none files xs h)

one_of_each :
    (t : String) (files xs : List String)
    → All (λ x. one_of x files ≡ true) xs
    → All (λ x. one_of x (t ∷ files) ≡ true) xs
one_of_each t files [] h = tt
one_of_each t files (x ∷ xs) (p, h) = (ground arith, one_of_each t files xs h)

one_of_self : (xs : List String) → All (λ x. one_of x xs ≡ true) xs
one_of_self [] = tt
one_of_self (x ∷ xs) = (rw (eq_refl x) refl, one_of_each x xs xs (one_of_self xs))

pub kept-spared_by :
    (t : String) (files xs : List String)
    → kept (spared_by files) (kept (spared_by (t ∷ [])) xs) ≡ kept (spared_by (t ∷ files)) xs
kept-spared_by t files [] = refl
kept-spared_by t files (x ∷ xs) = ground (arith, kept-spared_by t files xs)

pub kept_every : (xs : List String) → kept (spared_by []) xs ≡ xs
kept_every [] = refl
kept_every (x ∷ xs) = ap (◌∷◌ x) (kept_every xs)

-- Of any list, the part that is named is not spared, so that what is left is the other part at most.
pub length-spared :
    (front back : List String) → length (kept (spared_by back) (front ++ back)) ≤ length front
length-spared front back =
    rw
      (
        kept-append (spared_by back) front back,
        kept_none back back (one_of_self back),
        length-append,
      )
      (omega (arith, length-kept (spared_by back) front))

insert_entry-kept :
    (p : String → Bool) (path : Entry → String) (e : Entry) (es : List Entry)
    → length (kept p (map path (insert_entry e es))) ≡ length (kept p (path e ∷ map path es))
unfolding insert_entry
insert_entry-kept p path e [] = refl
insert_entry-kept p path e (x ∷ xs) = ground (arith, insert_entry-kept p path e xs)

pub sort_entries-kept :
    (p : String → Bool) (path : Entry → String) (es : List Entry)
    → length (kept p (map path (sort_entries es))) ≡ length (kept p (map path es))
unfolding sort_entries
sort_entries-kept p path [] = refl
sort_entries-kept p path (e ∷ es) =
    insert_entry-kept p path e (sort_entries es) ∙ ground (arith, sort_entries-kept p path es)

length-insert_entry : (e : Entry) (es : List Entry) → length (insert_entry e es) ≡ suc (length es)
unfolding insert_entry
length-insert_entry e [] = refl
length-insert_entry e (x ∷ xs) = ground (arith, length-insert_entry e xs)

pub length-sort_entries : (es : List Entry) → length (sort_entries es) ≡ length es
unfolding sort_entries
length-sort_entries [] = refl
length-sort_entries (e ∷ es) =
    length-insert_entry e (sort_entries es) ∙ omega (arith, length-sort_entries es)
