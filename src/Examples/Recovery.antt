-- ===== src/Examples/Recovery.antt =====
-- What becomes of a backup after it was made.
use sing_box_helper.Prelude.{
  map, kept, length, ◌≤◌, ◌==◌, ◌≡◌, refl, arith, some, ok, pos, List, [], ◌∷◌, inr,
}
use sing_box_helper.Paths.Names.{IsPlain, EndsIn}
use sing_box_helper.Stamp.{Moment, in_range, days_in}
use sing_box_helper.Stamp.Printed.{IsCivil}
use sing_box_helper.Files.{file_at, Disk}
use sing_box_helper.Backup.{Entry, backup_path, stamp_of_name, restore, trim, list_backups}
use sing_box_helper.Backup.Recovered.{IsCalm, restore-create}
use mathlib.Core.List.{Perm}
use sing_box_helper.Backup.Sorted.{summary, expected, is_listed, list_backups-Perm}
use sing_box_helper.Backup.Bounded.{length-trim}
use sing_box_helper.Files.{Faults}
use sing_box_helper.Examples.Storage.{storage, codec, calm, config, moment, disk, live, older, Body}

pub name-IsPlain : IsPlain "config.json"
name-IsPlain = record {
  not_empty = refl;
  not_dot = refl;
  not_dots = refl;
  no_slash =
      (refl, (refl, (refl, (refl, (refl, (refl, (refl, (refl, (refl, (refl, (refl, tt)))))))))));
}

pub config-EndsIn : EndsIn config "config.json"
config-EndsIn = inr ("/opt", refl)

pub moment-IsCivil : IsCivil moment
unfolding in_range days_in
moment-IsCivil = record { four_digits = omega arith; valid = refl }

abbrev pub later : Moment
later = record moment { minute = 45 }

pub calm-IsCalm : IsCalm calm
calm-IsCalm = record {
  stat_ok = λ _. refl;
  read_ok = λ _. refl;
  create_ok = λ _. refl;
  write_ok = λ _. refl;
  list_ok = λ _. refl;
  info_ok = λ _. refl;
}

-- The disk after a backup of `disk` and a change of the live file.
abbrev changed : Disk Body
changed = ("/opt/config.json", older) ∷ ("/opt/config.json.bak-20260521-102030", live) ∷ []

restore-create_example :
    (d : Disk Body) × (restore codec calm config (backup_path config moment) later changed
      ≡ (ok (backup_path config later), d))
    × (file_at config d ≡ some live)
    × (file_at (backup_path config later) d ≡ some older)
unfolding storage
restore-create_example =
    restore-create codec calm calm-IsCalm config "config.json" moment later live older disk changed
      name-IsPlain config-EndsIn moment-IsCivil refl refl refl refl refl

-- The file of one backup gives no information.
abbrev hidden : Faults Body
hidden = record calm { info = λ path. path == "/opt/config.json.bak-20260101-000000" }

list_backups-Perm_example :
    (all : List Entry) × (list_backups codec hidden config disk ≡ ok all)
    × Perm
        (map summary all)
        (map (expected codec hidden config) (kept (is_listed codec hidden config) disk))
list_backups-Perm_example = list_backups-Perm codec hidden config disk refl

listed_test :
    map (expected codec hidden config) (kept (is_listed codec hidden config) disk)
    ≡ (
      "/opt/config.json.bak-20260301-000000",
      "config.json.bak-20260301-000000",
      stamp_of_name config "config.json.bak-20260301-000000",
      1,
    )
      ∷ []
unfolding storage
listed_test = refl

length-trim_example :
    (all : List Entry) × (list_backups codec calm config (trim codec calm config (pos 1) disk).1
      ≡ ok all)
    × (length all ≤ 1)
unfolding storage
length-trim_example =
    length-trim codec calm config 1 disk (omega arith) refl (λ _. refl)
      (λ _. refl, (λ _. refl, (λ _. refl, tt)))
