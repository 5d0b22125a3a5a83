-- ===== src/Backup/Delete.antt =====
-- internal/backup/backup.go: what Delete can remove.
use Prim.Native.String.{String}
use sing_box_helper.Prelude.{
  ◌==◌, if◌then◌else◌, not, Result, ok, err, true, false, Bool, none, ◌≡◌, refl, arith, eq_iff,
}
use sing_box_helper.Paths.{clean}
use sing_box_helper.Files.{FileError, Faults, Disk, lookup, file_at, remove_file}
use sing_box_helper.Files.Laws.{remove_file-lookup, remove_file-gone, remove_file-err}
use sing_box_helper.Codec.{Codec}
use sing_box_helper.Backup.Names.{is_backup_key-live}
use sing_box_helper.Backup.{
  BackupError, failed_remove, not_a_backup, delete, belongs_here, is_backup_key,
}

-- What Delete reports of the file that it was given.
abbrev pub Deleted :
    {C : Type 0} → String → Disk C → Result BackupError (Unit {0}) × Disk C → Type 0
Deleted file d (ok _, d') = file_at file d' ≡ none
Deleted file d (err _, d') = d' ≡ d

module _ (k : Codec) (f : Faults k.Content) where
  pub delete-lookup :
      (config file key : String) (d : Disk k.Content)
      → is_backup_key config key ≡ false
      → lookup key (delete k f config file d).1 ≡ lookup key d
  unfolding delete
  delete-lookup config file key d other =
      ground (arith, eq_iff (clean file) key, remove_file-lookup f key file d)

  -- A file under another path than the given one stays as it was.
  pub delete-other :
      (config file key : String) (d : Disk k.Content)
      → (clean file == key) ≡ false
      → lookup key (delete k f config file d).1 ≡ lookup key d
  unfolding delete
  delete-other config file key d other = ground (arith, remove_file-lookup f key file d other)

  removed-Deleted :
      (file : String) (d : Disk k.Content) (x : Result FileError (Unit {0}) × Disk k.Content)
      → remove_file f file d ≡ x
      → Deleted file d (elim x.0 [ err e ↦ (err (failed_remove e), x.1) | ok _ ↦ (ok tt, x.1) ])
  removed-Deleted file d (ok _, d1) made = remove_file-gone f file d d1 made
  removed-Deleted file d (err e, d1) made = remove_file-err f file d d1 e made

  -- Delete changes no file but a backup of the configuration. If it succeeds the named file is
  -- gone, and if it fails the disk is as it was.
  pub delete-Deleted :
      (config file key : String) (d : Disk k.Content)
      → is_backup_key config key ≡ false
      → (lookup key (delete k f config file d).1 ≡ lookup key d)
        × Deleted file d (delete k f config file d)
  unfolding delete
  delete-Deleted config file key d other =
      (delete-lookup config file key d other, go (belongs_here config file))
    where
      go :
          (b : Bool)
          → Deleted file d (
              if not b then (err (not_a_backup file), d) else elim (remove_file f file d).0 [
                | err e ↦ (err (failed_remove e), (remove_file f file d).1)
                | ok _ ↦ (ok tt, (remove_file f file d).1)
              ])
      go false = refl
      go true = removed-Deleted file d (remove_file f file d) refl

  -- No name that Delete is given makes it change the live file, where the path of the
  -- configuration is clean.
  pub delete-live :
      (config file : String) (d : Disk k.Content)
      → clean config ≡ config
      → file_at config (delete k f config file d).1 ≡ file_at config d
  delete-live config file d tidy =
      rw (tidy, delete-lookup config file config d (is_backup_key-live config))
