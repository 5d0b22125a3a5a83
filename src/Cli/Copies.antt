-- ===== src/Cli/Copies.antt =====
-- cmd/singbox-helper/main.go: backupIfExists beside Create.
use sing_box_helper.Prelude.{
  Bool, true, false, none, some, ◌⊎◌, inl, inr, Option, String, Result, ok, err, ◌≡◌, refl,
}
use sing_box_helper.Stamp.{Moment}
use sing_box_helper.Files.{
  FileError, not_exist, exists, failed, Faults, Disk, read_file, create_copy, remove_file,
}
use sing_box_helper.Codec.{Codec}
use sing_box_helper.Backup.{BackupError, create, created, copied, backup_path}
use sing_box_helper.Cli.{backup_if_exists, backed_over, copied_over}

module _ (k : Codec) (f : Faults k.Content) where
  -- A success is that of Create, with its disk. A failure is one of Create too, whose disk is the
  -- one left here less the backup.
  abbrev pub Matches :
      String
      → Result FileError (Option String) × Disk k.Content
      → Result BackupError String × Disk k.Content
      → Type 0
  Matches bak (ok none, d) made = made ≡ (ok "", d)
  Matches bak (ok (some b), d) made = (b ≡ bak) × (made ≡ (ok b, d))
  Matches bak (err _, d) made =
      (e : BackupError) × (made.0 ≡ err e) × ((made.1 ≡ d) ⊎ (made.1 ≡ (remove_file f bak d).1))

  copied_over-Matches :
      (bak : String) (x : Result FileError Bool × Disk k.Content)
      → Matches bak (copied_over k f bak x) (copied k f bak x)
  unfolding copied_over copied
  copied_over-Matches bak (ok true, d) = (refl, refl)
  copied_over-Matches bak (ok false, d) = (_, refl, inr refl)
  copied_over-Matches bak (err e, d) = (_, refl, inl refl)

  backed_over-Matches :
      (bak : String) (r : Result FileError k.Content) (d : Disk k.Content)
      → Matches bak (backed_over k f bak r d) (created k f bak r d)
  unfolding backed_over created
  backed_over-Matches bak (err (not_exist _)) d = refl
  backed_over-Matches bak (err (exists _)) d = (_, refl, inl refl)
  backed_over-Matches bak (err (failed _)) d = (_, refl, inl refl)
  backed_over-Matches bak (ok c) d = copied_over-Matches bak (create_copy f k.empty bak c d)

  -- The command line's own backup does what Create does: it makes the same backup, or none, with
  -- the same disk. It fails only where Create fails, and then leaves the same disk, or one that
  -- differs by a partial backup that Create would have removed.
  pub backup_if_exists-create :
      (out : String) (now : Moment) (d : Disk k.Content)
      → Matches (backup_path out now) (backup_if_exists k f out now d) (create k f out now d)
  unfolding backup_if_exists create
  backup_if_exists-create out now d =
      backed_over-Matches (backup_path out now) (read_file f out d) d
