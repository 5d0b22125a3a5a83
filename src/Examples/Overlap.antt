-- ===== src/Examples/Overlap.antt =====
-- Writers of the live configuration that overlap, and what they deploy.
use sing_box_helper.Prelude.{◌≡◌, refl, arith, some, ◌⊎◌, String}
use sing_box_helper.Stamp.{in_range, days_in}
use sing_box_helper.Stamp.Printed.{IsCivil}
use sing_box_helper.Json.{str}
use sing_box_helper.Files.{file_at, Disk, write_file}
use sing_box_helper.Config.Settings.{default_settings}
use sing_box_helper.Config.Render.{config_of}
use sing_box_helper.Backup.{create}
use sing_box_helper.Backup.Writers.{
  Phases, at_start, then_one, copying, writing, leaving, IsSeparate, InBackup, SomeTakesOut,
}
use sing_box_helper.Backup.Writers.Kept.{Phases-kept}
use sing_box_helper.Web.Requests.Overlapped.{
  Does, Writer, an_apply, after_writer, after_writer-Phases,
}
use sing_box_helper.Web.Preferences.{validate_settings}
use sing_box_helper.Web.Preferences.Deployed.{IsDeployable, config_of-IsDeployable}
use sing_box_helper.Examples.Toy.{toy, uuid_a}
use sing_box_helper.Examples.Nodes.{parses, vless_of}
use sing_box_helper.Examples.Pages.{outside, home, pages}
use sing_box_helper.Examples.Recovery.{name-IsPlain, config-EndsIn, moment-IsCivil, later}
use sing_box_helper.Examples.Storage.{
  storage, codec, calm, config, moment, disk, live, Body, as_json,
}

later-IsCivil : IsCivil later
unfolding in_range days_in
later-IsCivil = record { four_digits = omega arith; valid = refl }

abbrev state_file : String
state_file = home.state_path

abbrev settings_file : String
settings_file = home.settings_path

config-IsSeparate : IsSeparate config state_file settings_file
unfolding pages storage
config-IsSeparate = record {
  live = refl;
  state_file = refl;
  state_tmp = refl;
  settings_file = refl;
  settings_tmp = refl;
  not_state = refl;
  not_state_tmp = refl;
  not_settings = refl;
  not_settings_tmp = refl;
}

abbrev first : Body
first = as_json (str "first")

abbrev second : Body
second = as_json (str "second")

abbrev copies : Disk Body
copies = (create codec calm config later (create codec calm config moment disk).1).1

-- Both writers make their copies, then both write.
abbrev written : Disk Body
written = (write_file calm config second (write_file calm config first copies).1).1

two_writers : Phases codec config state_file settings_file (disk, 0) (written, 1)
unfolding storage
two_writers =
    then_one (written, 2) (written, 1)
      (then_one ((write_file calm config first copies).1, 2) (written, 2)
        (then_one (copies, 2) ((write_file calm config first copies).1, 2)
          (then_one ((create codec calm config moment disk).1, 1) (copies, 2)
            (then_one (disk, 0) ((create codec calm config moment disk).1, 1) at_start
              (copying calm moment disk 0 moment-IsCivil))
            (copying calm later (create codec calm config moment disk).1 1 later-IsCivil))
          (writing calm first copies 1))
        (writing calm second (write_file calm config first copies).1 1))
      (leaving written 1)

file_at-live : file_at config disk ≡ some live
unfolding storage
file_at-live = refl

Phases-kept_example :
    (file_at config written ≡ some live)
    ⊎ (InBackup config live written
        ⊎ SomeTakesOut codec config state_file settings_file live
            (disk, 0)
            (written, 1)
            two_writers)
Phases-kept_example =
    Phases-kept codec config state_file settings_file config-IsSeparate "config.json" name-IsPlain
      config-EndsIn live disk written 1 file_at-live two_writers

abbrev request : Writer codec
request = an_apply calm outside "POST" (some "vless://a") moment moment

after_writer-Phases_example :
    Does codec home request disk (after_writer toy codec home request disk)
    × Phases codec config state_file settings_file
        (disk, 2)
        (after_writer toy codec home request disk, 2)
after_writer-Phases_example = after_writer-Phases toy codec home request disk 2 moment-IsCivil

config_of-IsDeployable_example :
    IsDeployable (config_of toy (vless_of uuid_a).outbound default_settings)
unfolding parses validate_settings
config_of-IsDeployable_example =
    config_of-IsDeployable toy "vless://a" (vless_of uuid_a) default_settings refl refl
