-- ===== src/Examples/Storage.antt =====
-- Backups and the stored files.
use sing_box_helper.Prelude.{◌≡◌, refl, false, List, [], ◌∷◌, Option, none, some, ok, String, pos}
use sing_box_helper.Text.{split, strip_prefix}
use sing_box_helper.Paths.{clean, dir_of, base_of, join_path}
use sing_box_helper.Stamp.{Moment, format_stamp, parse_stamp}
use sing_box_helper.Json.{Json, null, str}
use sing_box_helper.Config.Settings.{Settings, default_settings}
use sing_box_helper.State.Types.{State}
use sing_box_helper.Files.{
  Faults, no_fault, cut, readable, Disk, lookup, insert, erase, stat_file, read_file, write_file,
  remove_file, rename_file, create_copy, read_dir, make_dir,
}
use sing_box_helper.Codec.{Codec, IsLawful}
use sing_box_helper.Backup.{
  stamp_of_name, is_backup_key, insert_entry, sort_entries, entry_of, entries_of, list_backups,
  create, restore, delete, remove_all, trim, Entry,
}
use sing_box_helper.Backup.Create.{create-lookup, create-Copied, Copied}
use sing_box_helper.Backup.Restore.{restore-Restored, Restored}
use sing_box_helper.Backup.Delete.{Deleted, delete-Deleted}
use sing_box_helper.Backup.Trim.{Listed, list_backups-Listed, trim-lookup}
use sing_box_helper.State.{load, save, load_settings, save_settings}
use sing_box_helper.State.Saved.{Replaced, save_settings-Replaced, save-Replaced}

pub data Body : Type 0 where
  blank : Body
  as_json : Json → Body
  as_yaml : Settings → Body
  as_state : State → Body

abbrev json_of : Body → Option Json
json_of (as_json j) = some j
json_of _ = none

abbrev settings_of : Body → Option Settings
settings_of (as_yaml s) = some s
settings_of _ = none

abbrev state_of : Body → Option State
state_of (as_state s) = some s
state_of _ = none

abbrev pub codec : Codec
codec = record {
  Content = Body;
  empty = blank;
  size = λ _. 1;
  json = as_json;
  parse_json = json_of;
  yaml = as_yaml;
  parse_yaml = λ _. settings_of;
  json_state = as_state;
  parse_state = state_of;
}

pub codec-IsLawful : IsLawful codec
codec-IsLawful = record {
  parse_json-json = λ _. refl;
  parse_yaml-yaml = λ _ _. refl;
  parse_state-json_state = λ _. refl;
}

abbrev pub calm : Faults Body
calm = record {
  stat = λ _. false;
  read = λ _. false;
  create = λ _. false;
  write = λ _. no_fault;
  remove = λ _. false;
  rename = λ _. false;
  mkdir = λ _. false;
  list = λ _. readable;
  info = λ _. false;
}

abbrev pub moment : Moment
moment = record { year = 2026; month = 5; day = 21; hour = 10; minute = 20; second = 30; nanos = 0 }

abbrev pub live : Body
live = as_json null

abbrev pub older : Body
older = as_json (str "older")

abbrev pub disk : Disk Body
disk =
    ("/opt/config.json", live)
    ∷ ("/opt/config.json.bak-20260101-000000", older)
    ∷ ("/opt/config.json.bak-20260301-000000", live)
    ∷ []

unfoldable pub storage : Unit {0}
unfolding split strip_prefix clean dir_of base_of join_path format_stamp parse_stamp lookup insert
    erase stat_file read_file write_file remove_file rename_file create_copy read_dir make_dir
    stamp_of_name is_backup_key insert_entry sort_entries entry_of entries_of list_backups create
    restore delete remove_all trim load save load_settings save_settings
storage = tt

abbrev pub config : String
config = "/opt/config.json"

abbrev listing : List Entry
listing = sort_entries (
    entries_of codec calm config disk
      (("config.json.bak-20260101-000000", older) ∷ ("config.json.bak-20260301-000000", live) ∷ []))

restore_test : restore codec calm config "/opt/./config.json.bak-20260101-000000" moment disk ≡ (
  ok "/opt/config.json.bak-20260521-102030",
  ("/opt/config.json", older)
      ∷ ("/opt/config.json.bak-20260101-000000", older)
      ∷ ("/opt/config.json.bak-20260301-000000", live)
      ∷ ("/opt/config.json.bak-20260521-102030", live)
      ∷ [],
)
unfolding storage
restore_test = refl

trim_test : trim codec calm config (pos 1) disk ≡ (
  ok ("/opt/config.json.bak-20260101-000000" ∷ []),
  ("/opt/config.json", live) ∷ ("/opt/config.json.bak-20260301-000000", live) ∷ [],
)
unfolding storage
trim_test = refl

create-lookup_example : lookup config (create codec calm config moment disk).1 ≡ some live
unfolding storage
create-lookup_example = create-lookup codec calm config config moment disk live refl

create-Copied_example :
    Copied codec calm config moment disk "/opt/config.json.bak-20260521-102030"
      (create codec calm config moment disk).1
unfolding storage
create-Copied_example =
    create-Copied codec calm config "/opt/config.json.bak-20260521-102030" moment disk
      (create codec calm config moment disk).1 refl

restore-Restored_example :
    Restored codec calm config "/opt/config.json.bak-20260101-000000" moment disk
      (restore codec calm config "/opt/config.json.bak-20260101-000000" moment disk)
restore-Restored_example =
    restore-Restored codec calm config "/opt/config.json.bak-20260101-000000" moment disk

delete-Deleted_example :
    (lookup config (delete codec calm config "/opt/config.json.bak-20260101-000000" disk).1
      ≡ lookup config disk)
    × Deleted "/opt/config.json.bak-20260101-000000" disk
        (delete codec calm config "/opt/config.json.bak-20260101-000000" disk)
unfolding storage
delete-Deleted_example =
    delete-Deleted codec calm config "/opt/config.json.bak-20260101-000000" config disk refl

trim-lookup_example :
    lookup "/opt/config.json.bak-20260301-000000" (trim codec calm config (pos 1) disk).1
    ≡ lookup "/opt/config.json.bak-20260301-000000" disk
unfolding storage
trim-lookup_example =
    trim-lookup codec calm config "/opt/config.json.bak-20260301-000000" 1 disk listing refl
      (refl, tt)

list_backups-Listed_example : Listed config listing
unfolding storage
list_backups-Listed_example = list_backups-Listed codec calm config disk listing refl

abbrev settings_path : String
settings_path = "/opt/config.yaml"

save_settings-Replaced_example :
    Replaced settings_path
      (as_yaml default_settings)
      disk
      (save_settings codec calm settings_path default_settings disk)
unfolding storage
save_settings-Replaced_example =
    save_settings-Replaced codec calm settings_path disk refl default_settings

abbrev pub stored : State
stored = record { uri = "vless://a"; label = "home"; applied_at = moment }

abbrev pub torn : Faults Body
torn = record calm { write = λ _. cut blank }

save-Replaced_example :
    Replaced "/opt/state.json"
      (as_state stored)
      disk
      (save codec torn "/opt/state.json" stored disk)
unfolding storage
save-Replaced_example = save-Replaced codec torn "/opt/state.json" disk refl stored
