-- ===== src/Backup/Replaced.antt =====
-- internal/backup/backup.go: the files beside the live one in a Restore.
use sing_box_helper.Prelude.{
  Bool, true, false, not, some, String, ◌==◌, Result, ok, err, if◌then◌else◌, ◌≡◌, refl, ap, ◌∙◌,
}
use sing_box_helper.Paths.{clean}
use sing_box_helper.Stamp.{Moment}
use sing_box_helper.Files.{FileError, Faults, Disk, lookup, write_file, read_file, stat_file}
use sing_box_helper.Files.Laws.{write_file-lookup}
use sing_box_helper.Codec.{Codec}
use sing_box_helper.Backup.{
  BackupError, failed_read, failed_write, failed_stat, not_a_backup, create, put_back, restore,
  belongs_here,
}
use sing_box_helper.Backup.Create.{create-lookup}

module _ (k : Codec) (f : Faults k.Content) (key config : String) (c : k.Content)
    (other : (clean config == key) ≡ false) where
  put_back-lookup :
      (file : String) (x : Result BackupError String × Disk k.Content)
      → lookup key x.1 ≡ some c
      → lookup key (put_back k f config file x).1 ≡ some c
  unfolding put_back
  put_back-lookup file (err e, d) here = here
  put_back-lookup file (ok bak, d) here = go (read_file f file d)
    where
      wrote :
          Result FileError (Unit {0}) × Disk k.Content → Result BackupError String × Disk k.Content
      wrote x = elim x.0 [ err e ↦ (err (failed_write e), x.1) | ok _ ↦ (ok bak, x.1) ]

      wrote-disk : (x : Result FileError (Unit {0}) × Disk k.Content) → (wrote x).1 ≡ x.1
      wrote-disk (err e, d') = refl
      wrote-disk (ok _, d') = refl

      go :
          (r : Result FileError k.Content)
          → lookup key
              (elim r as (λ _. Result BackupError String × Disk k.Content) [
                | err e ↦ (err (failed_read e), d)
                | ok body ↦ wrote (write_file f config body d)
              ]).1
            ≡ some c
      go (err e) = here
      go (ok body) =
          ap (lookup key) (wrote-disk (write_file f config body d))
          ∙ (write_file-lookup f key config body d other ∙ here)

  -- A Restore changes no file that exists but the live one.
  pub restore-lookup :
      (file : String) (now : Moment) (d : Disk k.Content)
      → lookup key d ≡ some c
      → lookup key (restore k f config file now d).1 ≡ some c
  unfolding restore
  restore-lookup file now d here = go (belongs_here config file) (stat_file f file d)
    where
      go :
          (b : Bool) (r : Result FileError k.Content)
          → lookup key
              (if◌then◌else◌ {A = Result BackupError String × Disk k.Content}
                (not b)
                (err (not_a_backup file), d)
                (elim r as (λ _. Result BackupError String × Disk k.Content) [
                  | err e ↦ (err (failed_stat e), d)
                  | ok _ ↦ put_back k f config file (create k f config now d)
                ])).1
            ≡ some c
      go false r = here
      go true (err e) = here
      go true (ok _) =
          put_back-lookup file (create k f config now d) (create-lookup k f config key now d c here)
