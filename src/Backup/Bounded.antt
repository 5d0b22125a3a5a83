-- ===== src/Backup/Bounded.antt =====
-- internal/backup/backup.go: how many backups Trim leaves.
use mathlib.Core.List.{map}
use sing_box_helper.Prelude.{
  ℕ, zero, suc, ◌≤◌, ◌<◌, true, false, List, [], ◌∷◌, ◌++◌, length, take, drop, kept, All, none,
  String, ok, ◌≡◌, refl, sym, ◌∙◌, ap, inl, inr, arith, leb, leb→le, pos, Bool-cases, Option-cases,
  map-append, take-append-drop, length-map, length-take,
}
use sing_box_helper.Paths.{clean, base_of, dir_of, join_path}
use sing_box_helper.Files.{
  Faults, readable, files_in, read_dir, read_at, remove_file, erase, lookup, Disk,
}
use sing_box_helper.Codec.{Codec}
use sing_box_helper.Backup.{
  Entry, entries_of, sort_entries, list_backups, listed, remove_all, trim_list, trim, is_backup_key,
}
use sing_box_helper.Backup.Sorted.{summary, expected, is_listed, entries_of-kept}
use sing_box_helper.Backup.Counted.{
  spared_by, kept-spared_by, kept_every, length-spared, sort_entries-kept, length-sort_entries,
}

path_of : Entry → String
path_of e = clean e.file

erase-absent : {C : Type 0} (key : String) (d : Disk C) → lookup key d ≡ none → erase key d ≡ d
unfolding erase lookup
erase-absent key [] gone = refl
erase-absent key ((p, b) ∷ d) gone = ground (arith, erase-absent key d)

-- The paths of the files that List is to list.
module _ (k : Codec) (f : Faults k.Content) (config : String) where
  keys : Disk k.Content → List String
  keys d = map (λ x. x.0) (kept (is_listed k f config) d)

  keys-erase :
      (key : String) (d : Disk k.Content)
      → keys (erase key d) ≡ kept (spared_by (key ∷ [])) (keys d)
  unfolding keys erase
  keys-erase key [] = refl
  keys-erase key ((p, b) ∷ d) = ground (arith, keys-erase key d)

  -- A disk whose backups stand under the paths that are made of their names.
  abbrev pub IsPathed : Disk k.Content → Type 0
  IsPathed d =
      All
        (λ x.
          is_backup_key config x.0 ≡ true → clean (join_path (dir_of config) (base_of x.0)) ≡ x.0)
        d

  expected-keys :
      (d : Disk k.Content)
      → IsPathed d
      → map (λ s. clean s.0) (map (expected k f config) (kept (is_listed k f config) d)) ≡ keys d
  unfolding keys
  expected-keys [] h = refl
  expected-keys ((p, c) ∷ d) (here, others) = elim (Bool-cases (is_listed k f config (p, c))) [
    | inl t ↦
        let known : is_backup_key config p ≡ true = ground arith in
        rw t (
          ap (◌∷◌ (clean (join_path (dir_of config) (base_of p)))) (expected-keys d others)
          ∙ ap (λ s. s ∷ keys d) (here known))
    | inr t ↦ rw t (expected-keys d others)
  ]

  map-summary : (es : List Entry) → map path_of es ≡ map (λ s. clean s.0) (map summary es)
  unfolding path_of
  map-summary [] = refl
  map-summary (e ∷ es) = ap (◌∷◌ (clean e.file)) (map-summary es)

  entries_of-keys :
      (whole d : Disk k.Content)
      → IsPathed d
      → map path_of (entries_of k f config whole (files_in (dir_of config) d)) ≡ keys d
  entries_of-keys whole d h =
      map-summary (entries_of k f config whole (files_in (dir_of config) d))
      ∙ ap (map (λ s. clean s.0)) (entries_of-kept k f config whole d)
      ∙ expected-keys d h

  remove_file-keys :
      (path : String) (d : Disk k.Content)
      → f.remove path ≡ false
      → keys (remove_file f path d).1 ≡ kept (spared_by (clean path ∷ [])) (keys d)
  unfolding remove_file
  remove_file-keys path d removes = elim (Option-cases (lookup (clean path) d)) [
    | inl gone ↦
        rw (removes, gone)
          (ap keys (sym (erase-absent (clean path) d gone)) ∙ keys-erase (clean path) d)
    | inr (c, there) ↦ rw (removes, there) (keys-erase (clean path) d)
  ]

  remove_all-keys :
      (es : List Entry) (d : Disk k.Content)
      → ((path : String) → f.remove path ≡ false)
      → keys (remove_all k f es d).1 ≡ kept (spared_by (map path_of es)) (keys d)
  unfolding remove_all path_of
  remove_all-keys [] d removes = sym (kept_every (keys d))
  remove_all-keys (e ∷ es) d removes =
      remove_all-keys es (remove_file f e.file d).1 removes
      ∙ ap (kept (spared_by (map path_of es))) (remove_file-keys e.file d (removes e.file))
      ∙ kept-spared_by (clean e.file) (map path_of es) (keys d)

  -- What List has for a disk.
  entries : Disk k.Content → List Entry
  entries d = sort_entries (entries_of k f config d (files_in (dir_of config) d))

  list_backups-entries :
      (d : Disk k.Content)
      → f.list (dir_of config) ≡ readable
      → list_backups k f config d ≡ ok (entries d)
  unfolding list_backups listed read_dir read_at entries
  list_backups-entries d can = rw can refl

  length-entries : (d : Disk k.Content) → length (entries d) ≡ length (keys d)
  unfolding entries keys
  length-entries d =
      let es = entries_of k f config d (files_in (dir_of config) d) in
      length-sort_entries es
      ∙ sym (length-map summary es)
      ∙ ap length (entries_of-kept k f config d d)
      ∙ length-map (expected k f config) (kept (is_listed k f config) d)
      ∙ sym (length-map (λ x. x.0) (kept (is_listed k f config) d))

  -- What is left of the entries when all behind the first `n` are removed.
  length-kept-entries :
      (n : ℕ) (d : Disk k.Content)
      → IsPathed d
      → length (kept (spared_by (map path_of (drop n (entries d)))) (keys d)) ≤ n
  unfolding entries
  length-kept-entries n d h =
      let es = entries_of k f config d (files_in (dir_of config) d) in
      let all = sort_entries es in
      let gone = map path_of (drop n all) in
      let same : map path_of all ≡ map path_of (take n all) ++ gone =
        ap (map path_of) (sym (take-append-drop n all))
        ∙ map-append path_of (take n all) (drop n all) in
      let counted : length (kept (spared_by gone) (keys d))
          ≡ length (kept (spared_by gone) (map path_of (take n all) ++ gone)) =
        ap (λ x. length (kept (spared_by gone) x)) (sym (entries_of-keys d d h))
        ∙ sym (sort_entries-kept (spared_by gone) path_of es)
        ∙ ap (λ x. length (kept (spared_by gone) x)) same in
      omega (
        arith,
        counted,
        length-spared (map path_of (take n all)) gone,
        length-map path_of (take n all),
        length-take n all,
      )

  -- Trim leaves at most the number of backups that it is to keep: if that number is positive, the
  -- directory can be read and no removal fails, List succeeds after it and has no more entries. The
  -- paths of the backups are made of the directory of the configuration and their names.
  pub length-trim :
      (n : ℕ) (d : Disk k.Content)
      → 0 < n
      → f.list (dir_of config) ≡ readable
      → ((path : String) → f.remove path ≡ false)
      → IsPathed d
      → (all : List Entry) × (list_backups k f config (trim k f config (pos n) d).1 ≡ ok all)
        × (length all ≤ n)
  unfolding trim trim_list
  length-trim zero d some_kept can removes h = absurd (omega arith)
  length-trim (suc n) d some_kept can removes h =
      let all = entries d in
      let left = (remove_all k f (drop (suc n) all) d).1 in
      elim (Bool-cases (leb (length all) (suc n))) [
        | inl few ↦
            rw (list_backups-entries d can, few)
              (all, list_backups-entries d can, leb→le (length all) (suc n) few)
        | inr many ↦
            rw (list_backups-entries d can, many)
              (
                entries left,
                list_backups-entries left can,
                omega (
                  arith,
                  length-entries left,
                  ap length (remove_all-keys (drop (suc n) all) d removes),
                  length-kept-entries (suc n) d h,
                ),
              )
      ]
