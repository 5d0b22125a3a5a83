-- ===== src/Backup/Complete.antt =====
-- internal/backup/backup.go: List leaves no backup out.
use sing_box_helper.Prelude.{
  true, false, List, [], ◌∷◌, Option, none, some, String, ◌==◌, ok, err, ◌≡◌, refl, sym, ◌∙◌, ap,
  ◌⊎◌, inl, inr, arith, eq_iff, eq_refl, Bool-cases, Any, Any-map, Option-cases,
}
use sing_box_helper.Paths.{base_of, dir_of, join_path}
use sing_box_helper.Stamp.{Moment, after}
use sing_box_helper.Files.{Faults, readable, files_in, read_dir, read_at, read_file, Disk, lookup}
use sing_box_helper.Codec.{Codec}
use sing_box_helper.Readback.{summary_outbound}
use sing_box_helper.Backup.{
  Entry, entry_of, entries_of, insert_entry, sort_entries, list_backups, listed, stamp_of_name,
  is_backup_key,
}

files_in-Any :
    {C : Type 0} (key : String) (c : C) (d : Disk C)
    → lookup key d ≡ some c
    → Any (λ x. x ≡ (base_of key, c)) (files_in (dir_of key) d)
unfolding files_in lookup
files_in-Any key c [] here = cc
files_in-Any key c ((p, b) ∷ d) here = elim (Bool-cases (p == key)) [
  | inl t ↦
      let same : p ≡ key = (eq_iff p key).0 t in
      let content : b ≡ c = ground arith in rw (same, eq_refl (dir_of key)) (inl (rw content))
  | inr t ↦
      let rest = files_in-Any key c d (rw t at here) in
      elim (Bool-cases (dir_of p == dir_of key)) [ inl u ↦ rw u (inr rest) | inr u ↦ rw u rest ]
]

insert_entry-Any :
    (P : Entry → Type 0) (e : Entry) (es : List Entry) → P e ⊎ Any P es → Any P (insert_entry e es)
unfolding insert_entry
insert_entry-Any P e [] h = h
insert_entry-Any P e (x ∷ xs) h = elim (Bool-cases (after x.created_at e.created_at)) [
  | inl t ↦ rw t (behind (insert_entry-Any P e xs) h)
  | inr t ↦ rw t h
]
  where
    behind :
        (P e ⊎ Any P xs → Any P (insert_entry e xs))
        → P e ⊎ (P x ⊎ Any P xs)
        → P x ⊎ Any P (insert_entry e xs)
    behind ih (inl p) = inr (ih (inl p))
    behind ih (inr (inl p)) = inl p
    behind ih (inr (inr ps)) = inr (ih (inr ps))

sort_entries-Any : (P : Entry → Type 0) (es : List Entry) → Any P es → Any P (sort_entries es)
unfolding sort_entries
sort_entries-Any P [] h = h
sort_entries-Any P (e ∷ es) (inl p) = insert_entry-Any P e (sort_entries es) (inl p)
sort_entries-Any P (e ∷ es) (inr ps) =
    insert_entry-Any P e (sort_entries es) (inr (sort_entries-Any P es ps))

module _ (k : Codec) (f : Faults k.Content) where
  entries_of-Any :
      (config : String) (d : Disk k.Content) (x : String × k.Content) (e : Entry)
      (xs : List (String × k.Content))
      → entry_of k f config d x ≡ some e
      → Any (λ y. y ≡ x) xs
      → Any (λ y. y ≡ e) (entries_of k f config d xs)
  unfolding entries_of
  entries_of-Any config d x e [] made h = h
  entries_of-Any config d x e (y ∷ ys) made (inl same) =
      head (entry_of k f config d y) (rw same made)
    where
      head :
          (o : Option Entry)
          → o ≡ some e
          → Any
              (λ z. z ≡ e)
              (elim o [
                | none ↦ entries_of k f config d ys
                | some z ↦ z ∷ entries_of k f config d ys
              ])
      head none h = cc
      head (some z) h = inl (cc)
  entries_of-Any config d x e (y ∷ ys) made (inr h) =
      go (entry_of k f config d y) (entries_of-Any config d x e ys made h)
    where
      go :
          (o : Option Entry)
          → Any (λ y. y ≡ e) (entries_of k f config d ys)
          → Any
              (λ y. y ≡ e)
              (elim o [
                | none ↦ entries_of k f config d ys
                | some z ↦ z ∷ entries_of k f config d ys
              ])
      go none t = t
      go (some z) t = inr t

  abbrev entry_at : String → String → Moment → k.Content → Disk k.Content → Entry
  entry_at config name at c d =
      let file = join_path (dir_of config) name in
      record {
        file = file;
        name = name;
        created_at = at;
        size = k.size c;
        summary =
            summary_outbound
              (elim (read_file f file d) [ err _ ↦ none | ok body ↦ k.parse_json body ]);
      }

  entry_of-named :
      (config name : String) (at : Moment) (c : k.Content) (d : Disk k.Content)
      → stamp_of_name config name ≡ some at
      → f.info (join_path (dir_of config) name) ≡ false
      → entry_of k f config d (name, c) ≡ some (entry_at config name at c d)
  unfolding entry_of
  entry_of-named config name at c d stamp info = rw (entry_of, stamp, info)

  is_backup_key-stamp :
      (config key : String)
      → is_backup_key config key ≡ true
      → (at : Moment) × (dir_of key ≡ dir_of config)
        × (stamp_of_name config (base_of key) ≡ some at)
  unfolding is_backup_key
  is_backup_key-stamp config key h = elim (Bool-cases (dir_of key == dir_of config)) [
    | inl t ↦ elim (Option-cases (stamp_of_name config (base_of key))) [
      | inl e ↦ cc
      | inr (at, e) ↦ (at, (eq_iff (dir_of key) (dir_of config)).0 t, e)
    ]
    | inr t ↦ cc
  ]

  -- List leaves no backup out: if the directory can be read, it succeeds, and a file of the disk
  -- that is named as a backup of the configuration is among its entries, with the moment of its
  -- name and its size, unless the file's own information cannot be read.
  pub list_backups_complete :
      (config key : String) (c : k.Content) (d : Disk k.Content)
      → f.list (dir_of config) ≡ readable
      → is_backup_key config key ≡ true
      → lookup key d ≡ some c
      → f.info (join_path (dir_of config) (base_of key)) ≡ false
      → (all : List Entry) × (list_backups k f config d ≡ ok all)
        × Any
            (λ e.
              (e.name ≡ base_of key)
              × (stamp_of_name config (base_of key) ≡ some e.created_at)
              × (e.size ≡ k.size c))
            all
  unfolding list_backups listed read_dir read_at
  list_backups_complete config key c d can known there info =
      let (at, dir_same, stamp) = is_backup_key-stamp config key known in
      let xs = files_in (dir_of config) d in
      let e = entry_at config (base_of key) at c d in
      let here : Any (λ x. x ≡ (base_of key, c)) xs =
        rw (← dir_same) (files_in-Any key c d there) in
      let listed_in =
        entries_of-Any config d (base_of key, c) e xs
          (entry_of-named config (base_of key) at c d stamp info) here in
      rw can (
        sort_entries (entries_of k f config d xs),
        refl,
        sort_entries-Any _ (entries_of k f config d xs) (
            Any-map (λ y. y ≡ e) _
              (λ y same. (
                ap (λ z. z.name) same,
                stamp ∙ ap (λ z. some z.created_at) (sym same),
                ap (λ z. z.size) same,
              ))
              (entries_of k f config d xs) listed_in),
      )
