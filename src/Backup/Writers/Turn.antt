-- ===== src/Backup/Writers/Turn.antt =====
-- internal/backup/backup.go, with the handlers of internal/web/handlers.go: what one of the writers
-- does to the disk by itself, in its order, and that its steps are steps of overlapping writers.
use sing_box_helper.Prelude.{◌≡◌, refl, subst, ℕ, suc, ℤ, String, Result, ok, err}
use sing_box_helper.Stamp.{Moment}
use sing_box_helper.Stamp.Printed.{IsCivil}
use sing_box_helper.Files.{FileError, Faults, Disk, write_file}
use sing_box_helper.Codec.{Codec}
use sing_box_helper.Config.Settings.{Settings}
use sing_box_helper.Backup.{BackupError, create, trim}
use sing_box_helper.Backup.Writers.{
  joined, Phases, at_start, then_one, copying, writing, leaving, storing, setting, trimming,
}
use sing_box_helper.State.{save, save_settings}
use sing_box_helper.State.Types.{State}

-- How far a writer is: it has not copied the live file, it may write to it, it has overwritten it, it has
-- stored its state, or it can do nothing more.
pub data Stage : Type 0 where
  fresh ready wrote stored over : Stage

abbrev pub after_copy : Result BackupError String → Stage
after_copy (ok _) = ready
after_copy (err _) = over

abbrev pub after_write : Result FileError (Unit {0}) → Stage
after_write (ok _) = wrote
after_write (err _) = over

-- The disks of one writer by its stages: it posts settings at first or not at all; it copies once,
-- and only then, if that succeeded, writes once; only then, if that succeeded, it stores its state,
-- and then trims to the number that is kept.
pub data Turn (k : Codec) (config state settings : String) (keep : ℤ) (start : Disk k.Content)
    : Stage → Disk k.Content → Type 0 where
  begun : Turn k config state settings keep start fresh start
  set_first :
      (f : Faults k.Content) (s : Settings)
      → Turn k config state settings keep start fresh (save_settings k f settings s start).1
  copied :
      (f : Faults k.Content) (now : Moment) (d : Disk k.Content)
      → IsCivil now
      → Turn k config state settings keep start fresh d
      → Turn k config state settings keep start
          (after_copy (create k f config now d).0)
          (create k f config now d).1
  overwritten :
      (f : Faults k.Content) (body : k.Content) (d : Disk k.Content)
      → Turn k config state settings keep start ready d
      → Turn k config state settings keep start
          (after_write (write_file f config body d).0)
          (write_file f config body d).1
  kept_state :
      (f : Faults k.Content) (st : State) (d : Disk k.Content)
      → Turn k config state settings keep start wrote d
      → Turn k config state settings keep start stored (save k f state st d).1
  trimmed :
      (f : Faults k.Content) (d : Disk k.Content)
      → Turn k config state settings keep start stored d
      → Turn k config state settings keep start over (trim k f config keep d).1

-- A writer may stop at every stage.
abbrev pub Turns :
    (k : Codec) → String → String → String → ℤ → Disk k.Content → Disk k.Content → Type 0
Turns k config state settings keep start d =
    (s : Stage) × Turn k config state settings keep start s d

-- Only a writer that may write counts among the writers.
abbrev counted : Stage → ℕ → ℕ
counted ready n = suc n
counted fresh n = n
counted wrote n = n
counted stored n = n
counted over n = n

joined-counted : (r : Result BackupError String) (n : ℕ) → joined r n ≡ counted (after_copy r) n
joined-counted (ok _) n = refl
joined-counted (err _) n = refl

counted-after_write : (r : Result FileError (Unit {0})) (n : ℕ) → n ≡ counted (after_write r) n
counted-after_write (ok _) n = refl
counted-after_write (err _) n = refl

-- One writer, among any number of others, makes steps of overlapping writers.
pub Turn-Phases :
    (k : Codec) (config state settings : String) (keep : ℤ) (start d : Disk k.Content) (s : Stage)
    (n : ℕ)
    → Turn k config state settings keep start s d
    → Phases k config state settings (start, n) (d, counted s n)
Turn-Phases k config state settings keep start d s n begun = at_start
Turn-Phases k config state settings keep start d s n (set_first f new) =
    then_one (start, n) ((save_settings k f settings new start).1, n) at_start
      (setting f new start n)
Turn-Phases k config state settings keep start d s n (copied f now d1 civil before) =
    let r = create k f config now d1 in
    subst (λ x. Phases k config state settings (start, n) (r.1, x)) (joined-counted r.0 n)
      (then_one (d1, n) (r.1, joined r.0 n)
        (Turn-Phases k config state settings keep start d1 fresh n before)
        (copying f now d1 n civil))
Turn-Phases k config state settings keep start d s n (overwritten f body d1 before) =
    let r = write_file f config body d1 in
    subst (λ x. Phases k config state settings (start, n) (r.1, x)) (counted-after_write r.0 n)
      (then_one (r.1, suc n) (r.1, n)
        (then_one (d1, suc n) (r.1, suc n)
          (Turn-Phases k config state settings keep start d1 ready n before) (writing f body d1 n))
        (leaving r.1 n))
Turn-Phases k config state settings keep start d s n (kept_state f st d1 before) =
    then_one (d1, n) ((save k f state st d1).1, n)
      (Turn-Phases k config state settings keep start d1 wrote n before) (storing f st d1 n)
Turn-Phases k config state settings keep start d s n (trimmed f d1 before) =
    then_one (d1, n) ((trim k f config keep d1).1, n)
      (Turn-Phases k config state settings keep start d1 stored n before) (trimming f keep d1 n)

-- A writer that may write when it stops leaves.
pub Turns-Phases :
    (k : Codec) (config state settings : String) (keep : ℤ) (start d : Disk k.Content) (n : ℕ)
    → Turns k config state settings keep start d
    → Phases k config state settings (start, n) (d, n)
Turns-Phases k config state settings keep start d n (ready, turn) =
    then_one (d, suc n) (d, n) (Turn-Phases k config state settings keep start d ready n turn)
      (leaving d n)
Turns-Phases k config state settings keep start d n (fresh, turn) =
    Turn-Phases k config state settings keep start d fresh n turn
Turns-Phases k config state settings keep start d n (wrote, turn) =
    Turn-Phases k config state settings keep start d wrote n turn
Turns-Phases k config state settings keep start d n (stored, turn) =
    Turn-Phases k config state settings keep start d stored n turn
Turns-Phases k config state settings keep start d n (over, turn) =
    Turn-Phases k config state settings keep start d over n turn
