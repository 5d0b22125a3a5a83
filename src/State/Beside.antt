-- ===== src/State/Beside.antt =====
-- internal/state/state.go and internal/config/yaml.go: the files beside the one that is replaced.
use sing_box_helper.Prelude.{false, String, ◌==◌, Result, ok, err, ◌≡◌, refl}
use sing_box_helper.Paths.{clean, dir_of}
use sing_box_helper.Files.{FileError, Faults, Disk, lookup, make_dir, write_file, rename_file}
use sing_box_helper.Files.Laws.{write_file-lookup, rename_file-lookup, remove_file-lookup}
use sing_box_helper.Codec.{Codec}
use sing_box_helper.Config.Settings.{Settings}
use sing_box_helper.State.Types.{State}
use sing_box_helper.State.{
  StoreError, tmp_path, save, save_settings, wrote_settings, moved_settings, wrote, moved,
  failed_mkdir,
}

module _ (k : Codec) (f : Faults k.Content) where
  moved-lookup :
      (key path : String) (x : Result FileError (Unit {0}) × Disk k.Content)
      → lookup key (moved k f path x).1 ≡ lookup key x.1
  unfolding moved
  moved-lookup key path (ok _, d) = refl
  moved-lookup key path (err e, d) = refl

  wrote-lookup :
      (key path : String) (x : Result FileError (Unit {0}) × Disk k.Content)
      → (clean (tmp_path path) == key) ≡ false
      → (clean path == key) ≡ false
      → lookup key (wrote k f path x).1 ≡ lookup key x.1
  unfolding wrote
  wrote-lookup key path (err e, d) tmp other = refl
  wrote-lookup key path (ok _, d) tmp other = rw (
    moved-lookup key path (rename_file f (tmp_path path) path d),
    rename_file-lookup f key (tmp_path path) path d tmp other,
  )

  -- Save touches the state file and its temporary file only.
  pub save-lookup :
      (key path : String) (s : State) (d : Disk k.Content)
      → (clean (tmp_path path) == key) ≡ false
      → (clean path == key) ≡ false
      → lookup key (save k f path s d).1 ≡ lookup key d
  unfolding save
  save-lookup key path s d tmp other = go (make_dir f (dir_of path))
    where
      go :
          (m : Result FileError (Unit {0}))
          → lookup key
              (elim m as (λ _. Result StoreError (Unit {0}) × Disk k.Content) [
                | err e ↦ (err (failed_mkdir e), d)
                | ok _ ↦ wrote k f path (write_file f (tmp_path path) (k.json_state s) d)
              ]).1
            ≡ lookup key d
      go (err e) = refl
      go (ok _) = rw (
        wrote-lookup key path (write_file f (tmp_path path) (k.json_state s) d) tmp other,
        write_file-lookup f key (tmp_path path) (k.json_state s) d tmp,
      )

  moved_settings-lookup :
      (key path : String) (x : Result FileError (Unit {0}) × Disk k.Content)
      → (clean (tmp_path path) == key) ≡ false
      → lookup key (moved_settings k f path x).1 ≡ lookup key x.1
  unfolding moved_settings
  moved_settings-lookup key path (ok _, d) tmp = refl
  moved_settings-lookup key path (err e, d) tmp = remove_file-lookup f key (tmp_path path) d tmp

  wrote_settings-lookup :
      (key path : String) (x : Result FileError (Unit {0}) × Disk k.Content)
      → (clean (tmp_path path) == key) ≡ false
      → (clean path == key) ≡ false
      → lookup key (wrote_settings k f path x).1 ≡ lookup key x.1
  unfolding wrote_settings
  wrote_settings-lookup key path (err e, d) tmp other = refl
  wrote_settings-lookup key path (ok _, d) tmp other = rw (
    moved_settings-lookup key path (rename_file f (tmp_path path) path d) tmp,
    rename_file-lookup f key (tmp_path path) path d tmp other,
  )

  -- SaveSettings touches the settings file and its temporary file only.
  pub save_settings-lookup :
      (key path : String) (s : Settings) (d : Disk k.Content)
      → (clean (tmp_path path) == key) ≡ false
      → (clean path == key) ≡ false
      → lookup key (save_settings k f path s d).1 ≡ lookup key d
  unfolding save_settings
  save_settings-lookup key path s d tmp other = go (make_dir f (dir_of path))
    where
      go :
          (m : Result FileError (Unit {0}))
          → lookup key
              (elim m as (λ _. Result StoreError (Unit {0}) × Disk k.Content) [
                | err e ↦ (err (failed_mkdir e), d)
                | ok _ ↦ wrote_settings k f path (write_file f (tmp_path path) (k.yaml s) d)
              ]).1
            ≡ lookup key d
      go (err e) = refl
      go (ok _) = rw (
        wrote_settings-lookup key path (write_file f (tmp_path path) (k.yaml s) d) tmp other,
        write_file-lookup f key (tmp_path path) (k.yaml s) d tmp,
      )
