-- ===== src/Web.antt =====
-- internal/web/server.go, and what the handlers of internal/web/handlers.go share. A handler is a
-- function of the request's method and decoded body, with `none` for a body that is no JSON.
pub mod Preferences
pub mod Nodes
pub mod History
pub mod Journal
pub mod Diagnostics
pub mod Requests
pub mod Routes
use sing_box_helper.Prelude.{
  ℕ, Bool, true, false, not, Option, none, some, String, ◌==◌, ℤ, pos, Result, ok, err,
  if◌then◌else◌,
}
use sing_box_helper.Config.Settings.{Settings}
use sing_box_helper.Files.{FileError, Faults, Disk, stat_file}
use sing_box_helper.Stamp.{Moment}
use sing_box_helper.Codec.{Codec}
use sing_box_helper.Parser.Types.{ParseError}
use sing_box_helper.Backup.{BackupError}
use sing_box_helper.Logbuf.{Buffer, new}
use sing_box_helper.State.{StoreError, load, save}
use sing_box_helper.State.Types.{State}

-- `Server`, less its lock, and less `BackupDir`, which no code reads. `logs` is `none` for a nil
-- buffer.
pub record Server : Type 0 where
  pub settings : Settings
  pub config_path : String
  pub init_script : String
  pub state_path : String
  pub settings_path : String
  pub keep_backups : ℤ
  pub logs : Option Buffer
  pub version : String

-- `New`
unfoldable pub new_server : Settings → Server
new_server s = record {
  settings = s;
  config_path = "/opt/etc/sing-box/config.json";
  init_script = "/opt/etc/init.d/S99sing-box";
  state_path = "/opt/etc/singbox-helper/state.json";
  settings_path = "/opt/etc/singbox-helper/config.yaml";
  keep_backups = pos 10;
  logs = some (new (pos 500));
  version = "";
}

-- `setSettings`
abbrev pub set_settings : Settings → Server → Server
set_settings new s = record s { settings = new }

-- Why `restartSingBox` failed: the script's absence, or what its run reports.
pub data RestartFault : Type 0 where
  no_script : FileError → RestartFault
  script_failed : String → RestartFault

-- What a reply's field `restart_error` reports.
pub data SoftError : Type 0 where
  restart_failed : RestartFault → SoftError
  write_failed : FileError → SoftError
  backup_failed : BackupError → SoftError
  render_failed : SoftError

-- The field of the settings that is refused.
pub data BadSetting : Type 0 where
  mixed_listen_port tun_mtu tun_interface_name tun_address upstream_dns : BadSetting

pub data Refusal : Type 0 where
  wrong_method invalid_json : Refusal
  bad_setting : BadSetting → Refusal
  failed_save : StoreError → Refusal
  bad_uri : ParseError → Refusal
  no_render : Refusal
  no_backup : BackupError → Refusal
  no_directory no_write : FileError → Refusal
  missing_file unknown_source : Refusal
  failed_history : BackupError → Refusal

-- A response with status 200, or one of `errorResp` with its status.
pub data Reply (A : Type 0) : Type 0 where
  reply : A → Reply A
  refuse : ℕ → Refusal → Reply A

module _ (k : Codec) (f : Faults k.Content) where
  -- `run` is the failure of the init script's run, if it fails.
  unfoldable pub restart_sing_box :
      (String → Option String) → String → Disk k.Content → Option RestartFault
  restart_sing_box run script d = elim (stat_file f script d) [
    | err e ↦ some (no_script e)
    | ok _ ↦ elim (run script) [ none ↦ none | some why ↦ some (script_failed why) ]
  ]

  -- `readStateFromDisk`
  unfoldable pub read_state : Server → Disk k.Content → Option State
  read_state s d = elim (load k f s.state_path d) [ err _ ↦ none | ok st ↦ st ]

  -- `saveStateToDisk`
  abbrev pub save_state :
      Server
      → String
      → String
      → Moment
      → Disk k.Content
      → Result StoreError (Unit {0}) × Disk k.Content
  save_state s uri label at d =
      save k f s.state_path (record { uri = uri; label = label; applied_at = at }) d
