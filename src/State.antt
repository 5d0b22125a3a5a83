-- ===== src/State.antt =====
-- internal/state/state.go, and internal/config/yaml.go, which saves its file the same way.
pub mod Types
pub mod Saved
pub mod Beside
use Prim.Native.String
use sing_box_helper.Prelude.{
  Bool, true, false, Option, none, some, String, Result, ok, err, if◌then◌else◌,
}
use sing_box_helper.Files.{
  FileError, not_exist, failed, Faults, Disk, read_file, write_file, rename_file, remove_file,
  make_dir,
}
use sing_box_helper.Paths.{dir_of}
use sing_box_helper.Codec.{Codec}
use sing_box_helper.Config.Settings.{Settings, default_settings}
use sing_box_helper.State.Types.{State}

-- An error is the step that failed, with the error of the file system; `malformed` is a decoder's.
pub data StoreError : Type 0 where
  malformed : String → StoreError
  failed_mkdir failed_read failed_tmp failed_rename : FileError → StoreError

abbrev pub tmp_path : String → String
tmp_path path = String.◌++◌ path ".tmp"

module _ (k : Codec) (f : Faults k.Content) where
  -- `Load`
  unfoldable pub loaded : String → Result FileError k.Content → Result StoreError (Option State)
  loaded path (err (not_exist _)) = ok none
  loaded path (err e) = err (failed_read e)
  loaded path (ok raw) = elim (k.parse_state raw) [
    | none ↦ err (malformed path)
    | some s ↦ ok (some s)
  ]

  unfoldable pub load : String → Disk k.Content → Result StoreError (Option State)
  unfolding loaded
  load path d = loaded path (read_file f path d)

  -- `Save`
  pub moved :
      String
      → Result FileError (Unit {0}) × Disk k.Content
      → Result StoreError (Unit {0}) × Disk k.Content
  moved path (ok _, d) = (ok tt, d)
  moved path (err e, d) = (err (failed_rename e), d)

  pub wrote :
      String
      → Result FileError (Unit {0}) × Disk k.Content
      → Result StoreError (Unit {0}) × Disk k.Content
  unfolding moved
  wrote path (ok _, d) = moved path (rename_file f (tmp_path path) path d)
  wrote path (err e, d) = (err (failed_tmp e), d)

  unfoldable pub save :
      String → State → Disk k.Content → Result StoreError (Unit {0}) × Disk k.Content
  unfolding wrote
  save path s d = elim (make_dir f (dir_of path)) [
    | err e ↦ (err (failed_mkdir e), d)
    | ok _ ↦ wrote path (write_file f (tmp_path path) (k.json_state s) d)
  ]

  -- `LoadSettings`, whose settings are the defaults next to an error.
  unfoldable pub loaded_settings : String → Result FileError k.Content → Result StoreError Settings
  loaded_settings path (err (not_exist _)) = ok default_settings
  loaded_settings path (err e) = err (failed_read e)
  loaded_settings path (ok raw) = elim (k.parse_yaml default_settings raw) [
    | none ↦ err (malformed path)
    | some s ↦ ok s
  ]

  unfoldable pub load_settings : String → Disk k.Content → Result StoreError Settings
  unfolding loaded_settings
  load_settings path d = loaded_settings path (read_file f path d)

  -- `SaveSettings`
  pub moved_settings :
      String
      → Result FileError (Unit {0}) × Disk k.Content
      → Result StoreError (Unit {0}) × Disk k.Content
  moved_settings path (ok _, d) = (ok tt, d)
  moved_settings path (err e, d) = (err (failed_rename e), (remove_file f (tmp_path path) d).1)

  pub wrote_settings :
      String
      → Result FileError (Unit {0}) × Disk k.Content
      → Result StoreError (Unit {0}) × Disk k.Content
  unfolding moved_settings
  wrote_settings path (ok _, d) = moved_settings path (rename_file f (tmp_path path) path d)
  wrote_settings path (err e, d) = (err (failed_tmp e), d)

  unfoldable pub save_settings :
      String → Settings → Disk k.Content → Result StoreError (Unit {0}) × Disk k.Content
  unfolding wrote_settings
  save_settings path s d = elim (make_dir f (dir_of path)) [
    | err e ↦ (err (failed_mkdir e), d)
    | ok _ ↦ wrote_settings path (write_file f (tmp_path path) (k.yaml s) d)
  ]
