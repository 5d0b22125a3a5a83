-- ===== src/Backup/Writers.antt =====
-- internal/backup/backup.go, with the handlers of internal/web/handlers.go that write the live
-- configuration behind a Create: what they do to the disk when they overlap.
pub mod Kept
pub mod Turn
pub mod Restored
use sing_box_helper.Backup.{trim, delete}
use sing_box_helper.Backup.Trimmed.{TrimmedOut}
use sing_box_helper.Prelude.{
  ℤ, ◌⊎◌, ℕ, zero, suc, false, Option, none, some, String, ◌==◌, Result, ok, err, ◌≡◌, refl, sym,
  ap, subst, ◌∙◌, ◌⊎◌, inl, inr, eq_iff, Bool-cases,
}
use sing_box_helper.Paths.{clean, base_of}
use sing_box_helper.Paths.Names.{IsPlain, EndsIn}
use sing_box_helper.Stamp.{Moment}
use sing_box_helper.Stamp.Printed.{IsCivil, whole}
use sing_box_helper.Files.{Faults, Disk, lookup, file_at, write_file}
use sing_box_helper.Files.Laws.{write_file-lookup}
use sing_box_helper.Codec.{Codec}
use sing_box_helper.Config.Settings.{Settings}
use sing_box_helper.Backup.{BackupError, create, stamp_of_name, backup_path}
use sing_box_helper.Backup.Create.{create-lookup, create-Copied}
use sing_box_helper.Backup.Found.{belongs_here-backup_path}
use sing_box_helper.Backup.Restore.{create-live}
use sing_box_helper.State.{tmp_path, save, save_settings}
use sing_box_helper.State.Types.{State}
use sing_box_helper.State.Beside.{save-lookup, save_settings-lookup}

-- The disk, and how many writers have made their copy and may write to the live file.
abbrev pub Shared : Type 0 → Type 0
Shared C = Disk C × ℕ

-- A writer whose Create has succeeded may write.
abbrev pub joined : Result BackupError String → ℕ → ℕ
joined (ok _) n = suc n
joined (err _) n = n

-- A step of one of the writers, each with its own moment and its own failures. A Create is one
-- step, and so are a Save, a Trim, a Delete and each piece of a write to the live file; a writer that
-- may write can write any number of pieces.
pub data Phase (k : Codec) (config state settings : String)
    : Shared k.Content → Shared k.Content → Type 0 where
  copying :
      (f : Faults k.Content) (now : Moment) (d : Disk k.Content) (n : ℕ)
      → IsCivil now
      → Phase k config state settings
          (d, n)
          ((create k f config now d).1, joined (create k f config now d).0 n)
  writing :
      (f : Faults k.Content) (body : k.Content) (d : Disk k.Content) (n : ℕ)
      → Phase k config state settings (d, suc n) ((write_file f config body d).1, suc n)
  leaving : (d : Disk k.Content) (n : ℕ) → Phase k config state settings (d, suc n) (d, n)
  storing :
      (f : Faults k.Content) (st : State) (d : Disk k.Content) (n : ℕ)
      → Phase k config state settings (d, n) ((save k f state st d).1, n)
  setting :
      (f : Faults k.Content) (s : Settings) (d : Disk k.Content) (n : ℕ)
      → Phase k config state settings (d, n) ((save_settings k f settings s d).1, n)
  trimming :
      (f : Faults k.Content) (keep : ℤ) (d : Disk k.Content) (n : ℕ)
      → Phase k config state settings (d, n) ((trim k f config keep d).1, n)
  deleting :
      (f : Faults k.Content) (file : String) (d : Disk k.Content) (n : ℕ)
      → Phase k config state settings (d, n) ((delete k f config file d).1, n)

pub data Phases (k : Codec) (config state settings : String) (start : Shared k.Content)
    : Shared k.Content → Type 0 where
  at_start : Phases k config state settings start start
  then_one :
      (v w : Shared k.Content)
      → Phases k config state settings start v
      → Phase k config state settings v w
      → Phases k config state settings start w

-- The configuration, the state and the settings with their temporary files: none is named as a
-- backup, and the configuration is none of the others.
pub record IsSeparate (config state settings : String) : Type 0 where
  pub live : stamp_of_name config (base_of (clean config)) ≡ none
  pub state_file : stamp_of_name config (base_of (clean state)) ≡ none
  pub state_tmp : stamp_of_name config (base_of (clean (tmp_path state))) ≡ none
  pub settings_file : stamp_of_name config (base_of (clean settings)) ≡ none
  pub settings_tmp : stamp_of_name config (base_of (clean (tmp_path settings))) ≡ none
  pub not_state : (clean state == clean config) ≡ false
  pub not_state_tmp : (clean (tmp_path state) == clean config) ≡ false
  pub not_settings : (clean settings == clean config) ≡ false
  pub not_settings_tmp : (clean (tmp_path settings) == clean config) ≡ false

-- The content is in a file that is named as a backup.
abbrev pub InBackup : {C : Type 0} → String → C → Disk C → Type 0
InBackup config c d =
    (key : String) × (m : Moment) × (stamp_of_name config (base_of key) ≡ some m)
    × (lookup key d ≡ some c)

-- The step is a Trim that removes a file with the content, or a Delete that is given one.
abbrev pub TakesOut :
    (k : Codec) (config state settings : String) (c : k.Content) (v w : Shared k.Content)
    → Phase k config state settings v w
    → Type 0
TakesOut k config state settings c v w (trimming f keep d n) = TrimmedOut k f config keep c d
TakesOut k config state settings c v w (deleting f file d n) = file_at file d ≡ some c
TakesOut k config state settings c v w (copying f now d n civil) = ⊥
TakesOut k config state settings c v w (writing f body d n) = ⊥
TakesOut k config state settings c v w (leaving d n) = ⊥
TakesOut k config state settings c v w (storing f st d n) = ⊥
TakesOut k config state settings c v w (setting f s d n) = ⊥

-- A step of the run is one.
abbrev pub SomeTakesOut :
    (k : Codec) (config state settings : String) (c : k.Content) (v w : Shared k.Content)
    → Phases k config state settings v w
    → Type 0
SomeTakesOut k config state settings c v w at_start = ⊥
SomeTakesOut k config state settings c v w (then_one u w' before step) =
    SomeTakesOut k config state settings c v u before ⊎ TakesOut k config state settings c u w step
