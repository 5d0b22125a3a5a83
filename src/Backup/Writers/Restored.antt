-- ===== src/Backup/Writers/Restored.antt =====
-- internal/backup/backup.go: a Restore as a turn of a writer.
use sing_box_helper.Prelude.{ℤ, Bool, true, false, not, String, Result, ok, err, if◌then◌else◌}
use sing_box_helper.Stamp.{Moment}
use sing_box_helper.Stamp.Printed.{IsCivil}
use sing_box_helper.Files.{FileError, Faults, Disk, read_file, stat_file, write_file}
use sing_box_helper.Codec.{Codec}
use sing_box_helper.Backup.{
  BackupError, failed_read, failed_write, failed_stat, not_a_backup, create, put_back, restore,
  belongs_here,
}
use sing_box_helper.Backup.Writers.Turn.{
  Stage, fresh, ready, over, after_copy, after_write, Turn, Turns, copied, overwritten,
}

module _ (k : Codec) (f : Faults k.Content) (config state settings : String) (keep : ℤ)
    (start : Disk k.Content) where
  abbrev At : Stage → Disk k.Content → Type 0
  At = Turn k config state settings keep start

  -- What the turn has reached.
  abbrev Reached : Disk k.Content → Type 0
  Reached = Turns k config state settings keep start

  put_back-Turns :
      (file : String) (x : Result BackupError String × Disk k.Content)
      → At (after_copy x.0) x.1
      → Reached (put_back k f config file x).1
  unfolding put_back
  put_back-Turns file (err e, d) r = (over, r)
  put_back-Turns file (ok bak, d) r = go (read_file f file d)
    where
      wrote :
          Result FileError (Unit {0}) × Disk k.Content → Result BackupError String × Disk k.Content
      wrote x = elim x.0 [ err e ↦ (err (failed_write e), x.1) | ok _ ↦ (ok bak, x.1) ]

      end : (x : Result FileError (Unit {0}) × Disk k.Content) → Reached x.1 → Reached (wrote x).1
      end (err e, d') h = h
      end (ok _, d') h = h

      go :
          (m : Result FileError k.Content)
          → Reached
              (elim m as (λ _. Result BackupError String × Disk k.Content) [
                | err e ↦ (err (failed_read e), d)
                | ok body ↦ wrote (write_file f config body d)
              ]).1
      go (err e) = (ready, r)
      go (ok body) =
          end (write_file f config body d)
            (after_write (write_file f config body d).0, overwritten f body d r)

  pub restore-Turns :
      (file : String) (now : Moment) (d : Disk k.Content)
      → IsCivil now
      → At fresh d
      → Reached (restore k f config file now d).1
  unfolding restore
  restore-Turns file now d civil r = go (belongs_here config file) (stat_file f file d)
    where
      go :
          (b : Bool) (m : Result FileError k.Content)
          → Reached
              (if◌then◌else◌ {A = Result BackupError String × Disk k.Content}
                (not b)
                (err (not_a_backup file), d)
                (elim m as (λ _. Result BackupError String × Disk k.Content) [
                  | err e ↦ (err (failed_stat e), d)
                  | ok _ ↦ put_back k f config file (create k f config now d)
                ])).1
      go false m = (fresh, r)
      go true (err e) = (fresh, r)
      go true (ok _) = put_back-Turns file (create k f config now d) (copied f now d civil r)
