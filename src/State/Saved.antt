-- ===== src/State/Saved.antt =====
-- internal/state/state.go and internal/config/yaml.go: a file is replaced whole or not at all.
use sing_box_helper.Prelude.{false, some, String, ◌==◌, Result, ok, err, ◌≡◌, refl, subst, ap}
use sing_box_helper.Paths.{clean, dir_of}
use sing_box_helper.Files.{
  FileError, Faults, Disk, file_at, lookup, make_dir, write_file, rename_file,
}
use sing_box_helper.Files.Laws.{
  write_file-lookup, rename_file-err, rename_file-ok, write_file-ok, lookup-insert_same,
  remove_file-lookup, read_file-some,
}
use sing_box_helper.Codec.{Codec, IsLawful}
use sing_box_helper.Config.Settings.{Settings, default_settings}
use sing_box_helper.State.Types.{State}
use sing_box_helper.State.{
  StoreError, tmp_path, save, load, save_settings, load_settings, loaded, loaded_settings,
  wrote_settings, moved_settings, wrote, moved, failed_mkdir,
}

-- What a replacement of the file at `path` by `new` leaves: the new content, or an error and the
-- old file.
abbrev pub Replaced :
    {C : Type 0} → String → C → Disk C → Result StoreError (Unit {0}) × Disk C → Type 0
Replaced path new d (ok _, d') = file_at path d' ≡ some new
Replaced path new d (err _, d') = file_at path d' ≡ file_at path d

module _ {C : Type 0} (f : Faults C) (path : String) (new : C) (d : Disk C)
    (other : (clean (tmp_path path) == clean path) ≡ false) where
  tmp-kept :
      (w : Result FileError (Unit {0})) (d1 : Disk C)
      → write_file f (tmp_path path) new d ≡ (w, d1)
      → file_at path d1 ≡ file_at path d
  tmp-kept w d1 e =
      subst (λ x. lookup (clean path) x ≡ file_at path d) (ap (λ x. x.1) e)
        (write_file-lookup f (clean path) (tmp_path path) new d other)

  renamed-ok :
      (d1 d2 : Disk C)
      → write_file f (tmp_path path) new d ≡ (ok tt, d1)
      → rename_file f (tmp_path path) path d1 ≡ (ok tt, d2)
      → file_at path d2 ≡ some new
  renamed-ok d1 d2 e e' = rw (
    rename_file-ok f (tmp_path path) path d1 d2 e',
    write_file-ok f (tmp_path path) new d d1 e,
    lookup-insert_same (clean (tmp_path path)) new d,
  )

  renamed-err :
      (w : Result FileError (Unit {0})) (d1 d2 : Disk C) (why : FileError)
      → write_file f (tmp_path path) new d ≡ (w, d1)
      → rename_file f (tmp_path path) path d1 ≡ (err why, d2)
      → file_at path d2 ≡ file_at path d
  renamed-err w d1 d2 why e e' =
      rw (rename_file-err f (tmp_path path) path d1 d2 why e', tmp-kept w d1 e)

module _ (k : Codec) (f : Faults k.Content) (path : String) (d : Disk k.Content)
    (other : (clean (tmp_path path) == clean path) ≡ false) where
  moved_settings-Replaced :
      (s : Settings) (d1 : Disk k.Content)
      → write_file f (tmp_path path) (k.yaml s) d ≡ (ok tt, d1)
      → (x : Result FileError (Unit {0}) × Disk k.Content)
      → rename_file f (tmp_path path) path d1 ≡ x
      → Replaced path (k.yaml s) d (moved_settings k f path x)
  unfolding moved_settings
  moved_settings-Replaced s d1 e (ok _, d2) e' = renamed-ok f path (k.yaml s) d other d1 d2 e e'
  moved_settings-Replaced s d1 e (err why, d2) e' = rw (
    remove_file-lookup f (clean path) (tmp_path path) d2 other,
    renamed-err f path (k.yaml s) d other (ok tt) d1 d2 why e e',
  )

  wrote_settings-Replaced :
      (s : Settings) (w : Result FileError (Unit {0}) × Disk k.Content)
      → write_file f (tmp_path path) (k.yaml s) d ≡ w
      → Replaced path (k.yaml s) d (wrote_settings k f path w)
  unfolding wrote_settings
  wrote_settings-Replaced s (err why, d1) e = tmp-kept f path (k.yaml s) d other (err why) d1 e
  wrote_settings-Replaced s (ok _, d1) e =
      moved_settings-Replaced s d1 e (rename_file f (tmp_path path) path d1) refl

  -- SaveSettings replaces the file whole when it succeeds and leaves it as it was when it fails,
  -- where the temporary file is another file.
  pub save_settings-Replaced :
      (s : Settings) → Replaced path (k.yaml s) d (save_settings k f path s d)
  unfolding save_settings
  save_settings-Replaced s =
      go (make_dir f (dir_of path)) _
        (wrote_settings-Replaced s (write_file f (tmp_path path) (k.yaml s) d) refl)
    where
      go :
          (m : Result FileError (Unit {0})) (x : Result StoreError (Unit {0}) × Disk k.Content)
          → Replaced path (k.yaml s) d x
          → Replaced path (k.yaml s) d (elim m [ err e ↦ (err (failed_mkdir e), d) | ok _ ↦ x ])
      go (err e) x r = refl
      go (ok _) x r = r

  moved-Replaced :
      (s : State) (d1 : Disk k.Content)
      → write_file f (tmp_path path) (k.json_state s) d ≡ (ok tt, d1)
      → (x : Result FileError (Unit {0}) × Disk k.Content)
      → rename_file f (tmp_path path) path d1 ≡ x
      → Replaced path (k.json_state s) d (moved k f path x)
  unfolding moved
  moved-Replaced s d1 e (ok _, d2) e' = renamed-ok f path (k.json_state s) d other d1 d2 e e'
  moved-Replaced s d1 e (err why, d2) e' =
      renamed-err f path (k.json_state s) d other (ok tt) d1 d2 why e e'

  wrote-Replaced :
      (s : State) (w : Result FileError (Unit {0}) × Disk k.Content)
      → write_file f (tmp_path path) (k.json_state s) d ≡ w
      → Replaced path (k.json_state s) d (wrote k f path w)
  unfolding wrote
  wrote-Replaced s (err why, d1) e = tmp-kept f path (k.json_state s) d other (err why) d1 e
  wrote-Replaced s (ok _, d1) e = moved-Replaced s d1 e (rename_file f (tmp_path path) path d1) refl

  -- Save replaces the state file whole when it succeeds and leaves it as it was when it fails,
  -- where the temporary file is another file.
  pub save-Replaced : (s : State) → Replaced path (k.json_state s) d (save k f path s d)
  unfolding save
  save-Replaced s =
      go (make_dir f (dir_of path)) _
        (wrote-Replaced s (write_file f (tmp_path path) (k.json_state s) d) refl)
    where
      go :
          (m : Result FileError (Unit {0})) (x : Result StoreError (Unit {0}) × Disk k.Content)
          → Replaced path (k.json_state s) d x
          → Replaced path
              (k.json_state s)
              d
              (elim m [ err e ↦ (err (failed_mkdir e), d) | ok _ ↦ x ])
      go (err e) x r = refl
      go (ok _) x r = r

module _ (k : Codec) (f : Faults k.Content) (path : String) where
  -- The settings that SaveSettings wrote are the settings that LoadSettings reads, where the
  -- encoders keep their documents and the file can be read.
  pub load_settings-save_settings :
      (law : IsLawful k) (s : Settings) (d d' : Disk k.Content)
      → (clean (tmp_path path) == clean path) ≡ false
      → f.read path ≡ false
      → save_settings k f path s d ≡ (ok tt, d')
      → load_settings k f path d' ≡ ok s
  unfolding load_settings loaded_settings
  load_settings-save_settings law s d d' other readable saved =
      let there : Replaced path (k.yaml s) d (ok tt, d') =
        subst (Replaced path (k.yaml s) d) saved (save_settings-Replaced k f path d other s) in
      rw (
        read_file-some f path (k.yaml s) d' readable there,
        loaded_settings,
        law.parse_yaml-yaml default_settings s,
      )

  pub load-some :
      (law : IsLawful k) (s : State) (d : Disk k.Content)
      → f.read path ≡ false
      → file_at path d ≡ some (k.json_state s)
      → load k f path d ≡ ok (some s)
  unfolding load loaded
  load-some law s d readable there = rw (
    read_file-some f path (k.json_state s) d readable there,
    loaded,
    law.parse_state-json_state s,
  )

  -- The state that Save wrote is the state that Load reads, where the encoders keep their
  -- documents and the file can be read.
  pub load-save :
      (law : IsLawful k) (s : State) (d d' : Disk k.Content)
      → (clean (tmp_path path) == clean path) ≡ false
      → f.read path ≡ false
      → save k f path s d ≡ (ok tt, d')
      → load k f path d' ≡ ok (some s)
  load-save law s d d' other readable saved =
      load-some law s d' readable
        (subst (Replaced path (k.json_state s) d) saved (save-Replaced k f path d other s))
