-- ===== src/Backup/Create.antt =====
-- internal/backup/backup.go: what Create leaves on the disk.
use sing_box_helper.Prelude.{
  Bool, true, false, none, some, String, Result, ok, err, ◌≡◌, refl, ◌⊎◌, inl, inr,
}
use sing_box_helper.Paths.{clean}
use sing_box_helper.Stamp.{Moment}
use sing_box_helper.Files.{
  FileError, not_exist, exists, failed, Faults, Disk, lookup, read_file, create_copy, file_at,
}
use sing_box_helper.Files.Laws.{
  lookup-differs, remove_file-lookup, create_copy-lookup, create_copy-whole, create_copy-part,
  lookup-insert_same, read_file-ok, read_file-not_exist,
}
use sing_box_helper.Codec.{Codec}
use sing_box_helper.Backup.{copied, created, create, backup_path}

module _ (k : Codec) (f : Faults k.Content) where
  pair_eta : (x : Result FileError Bool × Disk k.Content) → x.0 ≡ ok false → x ≡ (ok false, x.1)
  pair_eta (r, d) e = cc

  copied-lookup :
      (key bak : String) (b : k.Content) (r : Result FileError Bool) (d d' : Disk k.Content)
      → lookup key d ≡ some b
      → lookup key d' ≡ some b
      → (r ≡ ok false → lookup (clean bak) d ≡ none)
      → lookup key (copied k f bak (r, d')).1 ≡ some b
  unfolding copied
  copied-lookup key bak b (err e) d d' here there free = there
  copied-lookup key bak b (ok true) d d' here there free = there
  copied-lookup key bak b (ok false) d d' here there free =
      rw (
        remove_file-lookup f key bak d' (lookup-differs key (clean bak) b d here (free refl)),
        there,
      )

  created-lookup :
      (key bak : String) (b : k.Content) (r : Result FileError k.Content) (d : Disk k.Content)
      → lookup key d ≡ some b
      → lookup key (created k f bak r d).1 ≡ some b
  unfolding created
  created-lookup key bak b (err (not_exist _)) d here = here
  created-lookup key bak b (err (exists _)) d here = here
  created-lookup key bak b (err (failed _)) d here = here
  created-lookup key bak b (ok c) d here =
      let x = create_copy f k.empty bak c d in
      copied-lookup key bak b x.0 d x.1 here (create_copy-lookup f key bak b k.empty c d here)
        (λ e. create_copy-part f bak k.empty c d x.1 (pair_eta x e))

  -- Create changes no file that exists, whichever call fails, also when the copy stops halfway.
  pub create-lookup :
      (config key : String) (now : Moment) (d : Disk k.Content) (c : k.Content)
      → lookup key d ≡ some c
      → lookup key (create k f config now d).1 ≡ some c
  unfolding create
  create-lookup config key now d c here =
      created-lookup key (backup_path config now) c (read_file f config d) d here

  -- What a call of Create that succeeds has done.
  abbrev pub Copied : String → Moment → Disk k.Content → String → Disk k.Content → Type 0
  Copied config now d bak d' =
      ((bak ≡ "") × (file_at config d ≡ none) × (d' ≡ d))
      ⊎ ((bak ≡ backup_path config now)
          × (file_at bak d ≡ none)
          × (file_at bak d' ≡ file_at config d))

  copied-Copied :
      (config path bak : String) (c : k.Content) (d d' : Disk k.Content)
      (x : Result FileError Bool × Disk k.Content)
      → create_copy f k.empty path c d ≡ x
      → file_at config d ≡ some c
      → copied k f path x ≡ (ok bak, d')
      → ((bak ≡ "") × (file_at config d ≡ none) × (d' ≡ d))
        ⊎ ((bak ≡ path) × (file_at bak d ≡ none) × (file_at bak d' ≡ file_at config d))
  unfolding copied
  copied-Copied config path bak c d d' (err e, d1) made live done = cc
  copied-Copied config path bak c d d' (ok false, d1) made live done = cc
  copied-Copied config path bak c d d' (ok true, d1) made live done =
      let (free, there) = create_copy-whole f path k.empty c d d1 made in
      let same : bak ≡ path = cc in
      let end : d' ≡ d1 = cc in
      inr (same, rw (same, free), rw (same, end, there, lookup-insert_same (clean path) c d, live))

  created-Copied :
      (config : String) (now : Moment) (r : Result FileError k.Content) (d d' : Disk k.Content)
      (bak : String)
      → read_file f config d ≡ r
      → created k f (backup_path config now) r d ≡ (ok bak, d')
      → Copied config now d bak d'
  unfolding created
  created-Copied config now (err (not_exist _)) d d' bak e done =
      inl (cc, read_file-not_exist f config _ d e, cc)
  created-Copied config now (err (exists _)) d d' bak e done = cc
  created-Copied config now (err (failed _)) d d' bak e done = cc
  created-Copied config now (ok c) d d' bak e done =
      copied-Copied config (backup_path config now) bak c d d'
        (create_copy f k.empty (backup_path config now) c d) refl (read_file-ok f config c d e) done

  -- A Create that succeeds either found no live file and did nothing, or has written the content
  -- of the live file to a path that was free.
  pub create-Copied :
      (config bak : String) (now : Moment) (d d' : Disk k.Content)
      → create k f config now d ≡ (ok bak, d')
      → Copied config now d bak d'
  unfolding create
  create-Copied config bak now d d' done =
      created-Copied config now (read_file f config d) d d' bak refl done
