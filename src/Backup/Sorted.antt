-- ===== src/Backup/Sorted.antt =====
-- internal/backup/backup.go: List against the files of the disk, without its loop and its sort.
use mathlib.Core.List.{Perm}
use mathlib.Core.List.Perm
use sing_box_helper.Prelude.{
  ℕ, Bool, not, ◌&&◌, List, [], ◌∷◌, map, kept, Option, some, String, ◌==◌, ok, ◌≡◌, refl, sym, ◌∙◌,
  ap, inl, inr, subst, Bool-cases, Option-cases,
}
use sing_box_helper.Paths.{base_of, dir_of, join_path}
use sing_box_helper.Stamp.{Moment, after}
use sing_box_helper.Files.{Faults, readable, files_in, read_dir, read_at, Disk}
use sing_box_helper.Codec.{Codec}
use sing_box_helper.Backup.{
  Entry, entry_of, entries_of, insert_entry, sort_entries, list_backups, listed, stamp_of_name,
  is_backup_key,
}

insert_entry-Perm : (e : Entry) (es : List Entry) → Perm (insert_entry e es) (e ∷ es)
unfolding insert_entry
insert_entry-Perm e [] = Perm.rfl
insert_entry-Perm e (x ∷ xs) = elim (Bool-cases (after x.created_at e.created_at)) [
  | inl t ↦ rw t (Perm.trans (Perm.cons x (insert_entry-Perm e xs)) (Perm.swap e x xs))
  | inr t ↦ rw t Perm.rfl
]

sort_entries-Perm : (es : List Entry) → Perm (sort_entries es) es
unfolding sort_entries
sort_entries-Perm [] = Perm.rfl
sort_entries-Perm (e ∷ es) =
    Perm.trans (insert_entry-Perm e (sort_entries es)) (Perm.cons e (sort_entries-Perm es))

-- The path of a file, its name, the moment that its name stands for, and its size.
abbrev pub Summary : Type 0
Summary = String × String × Option Moment × ℕ

abbrev pub summary : Entry → Summary
summary e = (e.file, e.name, some e.created_at, e.size)

module _ (k : Codec) (f : Faults k.Content) (config : String) where
  -- What List is to say of a file of the disk.
  abbrev pub expected : String × k.Content → Summary
  expected (key, c) = (
    join_path (dir_of config) (base_of key),
    base_of key,
    stamp_of_name config (base_of key),
    k.size c,
  )

  -- A file is to be listed if it is named as a backup and its information can be read.
  abbrev pub is_listed : String × k.Content → Bool
  is_listed (key, c) =
      is_backup_key config key && not (f.info (join_path (dir_of config) (base_of key)))

  pub entries_of-kept :
      (whole d : Disk k.Content)
      → map summary (entries_of k f config whole (files_in (dir_of config) d))
        ≡ map expected (kept is_listed d)
  unfolding entries_of entry_of files_in is_backup_key
  entries_of-kept whole [] = refl
  entries_of-kept whole ((p, c) ∷ d) = elim (Bool-cases (dir_of p == dir_of config)) [
    | inr t ↦ rw t (entries_of-kept whole d)
    | inl t ↦ elim (Option-cases (stamp_of_name config (base_of p))) [
      | inl e ↦ rw (t, entries_of, entry_of, e) (entries_of-kept whole d)
      | inr (at, e) ↦ elim (Bool-cases (f.info (join_path (dir_of config) (base_of p)))) [
        | inl i ↦ rw (t, entries_of, entry_of, e, i) (entries_of-kept whole d)
        | inr i ↦
            let row : Option Moment → Summary =
              λ stamp. (join_path (dir_of config) (base_of p), base_of p, stamp, k.size c) in
            rw (t, entries_of, entry_of, e, i)
              (ap (◌∷◌ (row (some at))) (entries_of-kept whole d)
                ∙ ap (λ stamp. row stamp ∷ map expected (kept is_listed d)) (sym e))
      ]
    ]
  ]

  -- If the directory can be read, List succeeds, and its entries are a rearrangement of the files
  -- of the disk that are named as backups of the configuration and whose information can be read:
  -- one entry for each, with its path, its name, the moment of its name and its size.
  pub list_backups-Perm :
      (d : Disk k.Content)
      → f.list (dir_of config) ≡ readable
      → (all : List Entry) × (list_backups k f config d ≡ ok all)
        × Perm (map summary all) (map expected (kept is_listed d))
  unfolding list_backups listed read_dir read_at
  list_backups-Perm d can =
      let es = entries_of k f config d (files_in (dir_of config) d) in
      rw can (
        sort_entries es,
        refl,
        subst (Perm (map summary (sort_entries es))) (entries_of-kept d d)
            (Perm.map summary (sort_entries-Perm es)),
      )
