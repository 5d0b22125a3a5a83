-- ===== src/Backup/Trim.antt =====
-- internal/backup/backup.go: the order of List, and what Trim removes.
use sing_box_helper.Prelude.{
  sym, ℕ, zero, suc, true, false, List, [], ◌∷◌, Option, none, some, String, ◌==◌, Result, ok, ◌≡◌,
  refl, arith, Bool-cases, inl, inr, drop, All, leb, pos, ok-injective, subst,
}
use sing_box_helper.Stamp.{Moment, rank, after}
use sing_box_helper.Paths.{clean, dir_of, base_of, join_path}
use sing_box_helper.Paths.Names.{IsPlain}
use sing_box_helper.Backup.Names.{stamp_of_name-IsPlain}
use sing_box_helper.Files.{
  Faults, DirFault, readable, missing, unreadable, files_in, read_at, Disk, lookup, read_dir,
  remove_file,
}
use sing_box_helper.Files.Laws.{remove_file-lookup}
use sing_box_helper.Codec.{Codec}
use sing_box_helper.Backup.{
  BackupError, Entry, insert_entry, sort_entries, entry_of, entries_of, listed, list_backups,
  remove_all, trim_list, trim, stamp_of_name,
}

-- No entry is older than one behind it.
abbrev pub NewestFirst : List Entry → Type 0
NewestFirst [] = Unit
NewestFirst (e ∷ es) =
    All (λ x. leb (rank x.created_at) (rank e.created_at) ≡ true) es × NewestFirst es

insert_entry-All :
    (P : Entry → Type 0) (e : Entry) (es : List Entry) → P e → All P es → All P (insert_entry e es)
unfolding insert_entry
insert_entry-All P e [] p ps = (p, tt)
insert_entry-All P e (x ∷ xs) p (px, pxs) = elim (Bool-cases (after x.created_at e.created_at)) [
  | inl t ↦ rw t (px, insert_entry-All P e xs p pxs)
  | inr t ↦ rw t (p, (px, pxs))
]

All-older :
    (m n : Moment) (es : List Entry)
    → leb (rank m) (rank n) ≡ true
    → All (λ y. leb (rank y.created_at) (rank m) ≡ true) es
    → All (λ y. leb (rank y.created_at) (rank n) ≡ true) es
All-older m n [] le h = tt
All-older m n (x ∷ xs) le (p, ps) = (ground arith, All-older m n xs le ps)

insert_entry-NewestFirst :
    (e : Entry) (es : List Entry) → NewestFirst es → NewestFirst (insert_entry e es)
unfolding insert_entry
insert_entry-NewestFirst e [] s = (tt, tt)
insert_entry-NewestFirst e (x ∷ xs) (older, s) =
    elim (Bool-cases (after x.created_at e.created_at)) [
      | inl t ↦ rw t (
        insert_entry-All (λ y. leb (rank y.created_at) (rank x.created_at) ≡ true) e xs
            (ground arith) older,
        insert_entry-NewestFirst e xs s,
      )
      | inr t ↦
          rw t (
            (ground arith, All-older x.created_at e.created_at xs (ground arith) older),
            (older, s),
          )
    ]

sort_entries-NewestFirst : (es : List Entry) → NewestFirst (sort_entries es)
unfolding sort_entries
sort_entries-NewestFirst [] = tt
sort_entries-NewestFirst (e ∷ es) =
    insert_entry-NewestFirst e (sort_entries es) (sort_entries-NewestFirst es)

-- The name of a listed entry is that of a backup, the entry has the moment of its name, and its
-- file ends in the name.
abbrev pub Named : String → Entry → Type 0
Named config e =
    (stamp_of_name config e.name ≡ some e.created_at)
    × IsPlain e.name
    × (e.file ≡ join_path (dir_of config) e.name)

abbrev pub Listed : String → List Entry → Type 0
Listed config all = NewestFirst all × All (Named config) all

module _ (k : Codec) (f : Faults k.Content) where
  pub remove_all-lookup :
      (key : String) (es : List Entry) (d : Disk k.Content)
      → All (λ e. (clean e.file == key) ≡ false) es
      → lookup key (remove_all k f es d).1 ≡ lookup key d
  unfolding remove_all
  remove_all-lookup key [] d others = refl
  remove_all-lookup key (e ∷ es) d (other, others) = rw (
    remove_all-lookup key es (remove_file f e.file d).1 others,
    remove_file-lookup f key e.file d other,
  )

  -- Where List succeeds, Trim leaves every file alone that is not one of the entries behind its
  -- first `keep`.
  pub trim-lookup :
      (config key : String) (keep : ℕ) (d : Disk k.Content) (all : List Entry)
      → list_backups k f config d ≡ ok all
      → All (λ e. (clean e.file == key) ≡ false) (drop keep all)
      → lookup key (trim k f config (pos keep) d).1 ≡ lookup key d
  unfolding trim trim_list
  trim-lookup config key zero d all e others = refl
  trim-lookup config key (suc n) d all e others =
      rw e (ground (arith, remove_all-lookup key (drop (suc n) all) d others))

  entry_of-fields :
      (config : String) (d : Disk k.Content) (name : String) (content : k.Content) (e : Entry)
      → entry_of k f config d (name, content) ≡ some e
      → (stamp_of_name config name ≡ some e.created_at)
        × (e.name ≡ name)
        × (e.file ≡ join_path (dir_of config) name)
  unfolding entry_of
  entry_of-fields config d name content e made = ground arith

  entry_of-Named :
      (config : String) (d : Disk k.Content) (name : String) (content : k.Content) (e : Entry)
      → ((m : Moment) → stamp_of_name config name ≡ some m → IsPlain name)
      → entry_of k f config d (name, content) ≡ some e
      → Named config e
  entry_of-Named config d name content e plain made =
      let (stamp, same, file) = entry_of-fields config d name content e made in
      (rw (same, stamp), rw same (plain e.created_at stamp), rw (same, file))

  -- What read_dir lists are last segments of paths.
  abbrev IsBase : String × k.Content → Type 0
  IsBase x = (path : String) × (x.0 ≡ base_of path)

  entries_of-Named :
      (config : String) (d : Disk k.Content) (xs : List (String × k.Content))
      → All IsBase xs
      → All (Named config) (entries_of k f config d xs)
  unfolding entries_of
  entries_of-Named config d [] bases = tt
  entries_of-Named config d ((name, content) ∷ xs) ((path, base), bases) =
      go (entry_of k f config d (name, content)) refl (entries_of k f config d xs)
        (entries_of-Named config d xs bases)
    where
      plain : (m : Moment) → stamp_of_name config name ≡ some m → IsPlain name
      plain m e = subst IsPlain (sym base) (stamp_of_name-IsPlain config path m (rw (← base) e))

      go :
          (o : Option Entry)
          → entry_of k f config d (name, content) ≡ o
          → (es : List Entry) → All (Named config) es
          → All (Named config) (elim o [ none ↦ es | some y ↦ y ∷ es ])
      go none e es named = named
      go (some y) e es named = (entry_of-Named config d name content y plain e, named)

  sort_entries-All : (P : Entry → Type 0) (es : List Entry) → All P es → All P (sort_entries es)
  unfolding sort_entries
  sort_entries-All P [] ps = tt
  sort_entries-All P (e ∷ es) (p, ps) =
      insert_entry-All P e (sort_entries es) p (sort_entries-All P es ps)

  files_in-IsBase : (dir : String) (d : Disk k.Content) → All IsBase (files_in dir d)
  unfolding files_in
  files_in-IsBase dir [] = tt
  files_in-IsBase dir ((p, c) ∷ d) = elim (Bool-cases (dir_of p == dir)) [
    | inl t ↦ rw t ((p, refl), files_in-IsBase dir d)
    | inr t ↦ rw t (files_in-IsBase dir d)
  ]

  Listed-ok :
      (config : String) (all xs : List Entry)
      → ◌≡◌ {A = Result BackupError (List Entry)} (ok xs) (ok all)
      → Listed config xs
      → Listed config all
  Listed-ok config all xs e h = subst (Listed config) (ok-injective xs all e) h

  -- List returns backups of the configuration only, each with the moment of its name and a path
  -- that ends in the name, and no entry is older than one behind it.
  pub list_backups-Listed :
      (config : String) (d : Disk k.Content) (all : List Entry)
      → list_backups k f config d ≡ ok all
      → Listed config all
  unfolding list_backups listed read_dir read_at
  list_backups-Listed config d all e = go (f.list (dir_of config)) e
    where
      go :
          (r : DirFault)
          → listed k f config d (read_at r (dir_of config) d) ≡ ok all
          → Listed config all
      go missing h = Listed-ok config all [] h (tt, tt)
      go unreadable h = cc
      go readable h =
          let es = entries_of k f config d (files_in (dir_of config) d) in
          Listed-ok config all (sort_entries es) h (
            sort_entries-NewestFirst es,
            sort_entries-All (Named config) es (
                entries_of-Named config d (files_in (dir_of config) d)
                  (files_in-IsBase (dir_of config) d)),
          )
