-- ===== src/Web/Preferences.antt =====
-- internal/web/handlers.go: handleSettings and validateSettings.
pub mod Kept
pub mod Stored
pub mod Followed
pub mod Deployed
pub mod Phased
use sing_box_helper.Prelude.{
  ℕ, Bool, true, false, not, ◌||◌, Option, none, some, String, ◌==◌, ℤ, pos, Result, ok, err, ltb_ℤ,
  if◌then◌else◌,
}
use sing_box_helper.Platform.{Platform}
use sing_box_helper.Stamp.{Moment}
use sing_box_helper.Files.{FileError, Faults, Disk, write_file}
use sing_box_helper.Codec.{Codec}
use sing_box_helper.Parser.Types.{ParsedNode}
use sing_box_helper.Parser.Dispatch.{parse}
use sing_box_helper.Probe.{resolve_mixed_listen}
use sing_box_helper.Config.Settings.{Settings}
use sing_box_helper.Config.Render.{lan_interface, render_json}
use sing_box_helper.Backup.{BackupError, create}
use sing_box_helper.State.{StoreError, save_settings}
use sing_box_helper.State.Types.{State}
use sing_box_helper.Web.{
  Server, SoftError, restart_failed, write_failed, backup_failed, render_failed, BadSetting,
  mixed_listen_port, tun_mtu, tun_interface_name, tun_address, upstream_dns, Refusal, wrong_method,
  invalid_json, bad_setting, failed_save, Reply, reply, refuse, restart_sing_box, read_state,
  set_settings,
}

-- `validateSettings`
unfoldable pub validate_settings : Settings → Option BadSetting
validate_settings s =
    if ltb_ℤ s.mixed_listen_port (pos 1) || ltb_ℤ (pos 65535) s.mixed_listen_port
    then some mixed_listen_port
    else if ltb_ℤ s.tun_mtu (pos 576) || ltb_ℤ (pos 9000) s.tun_mtu
    then some tun_mtu
    else if s.tun_interface_name == ""
    then some tun_interface_name
    else if s.tun_address == ""
    then some tun_address
    else if s.upstream_dns == ""
    then some upstream_dns
    else none

-- What the re-rendering reports: `re_rendered`, `restarted` and `restart_error`.
pub record Rerun : Type 0 where
  pub re_rendered : Bool
  pub restarted : Bool
  pub restart_error : Option SoftError

pub record SettingsResponse : Type 0 where
  pub settings : Settings
  pub effective : String
  pub auto : Bool
  pub rerun : Rerun

abbrev pub idle : Rerun
idle = record { re_rendered = false; restarted = false; restart_error = none }

unfoldable pub settings_response : Platform → Settings → Rerun → SettingsResponse
settings_response g s rerun =
    let (eff, auto) = resolve_mixed_listen g s.mixed_listen lan_interface in
    record { settings = s; effective = eff; auto = auto; rerun = rerun }

module _ (g : Platform) (k : Codec) (f : Faults k.Content) (run : String → Option String) where
  -- The re-rendering, from its innermost step to the state that it starts from.
  pub rewritten : Server → Result FileError (Unit {0}) × Disk k.Content → Rerun × Disk k.Content
  rewritten s (err e, d) = (record idle { restart_error = some (write_failed e) }, d)
  rewritten s (ok _, d) = elim (restart_sing_box k f run s.init_script d) [
    | some e ↦ (record idle { re_rendered = true; restart_error = some (restart_failed e) }, d)
    | none ↦ (record idle { re_rendered = true; restarted = true }, d)
  ]

  pub snapshotted :
      Server → k.Content → Result BackupError String × Disk k.Content → Rerun × Disk k.Content
  unfolding rewritten
  snapshotted s body (err e, d) = (record idle { restart_error = some (backup_failed e) }, d)
  snapshotted s body (ok _, d) = rewritten s (write_file f s.config_path body d)

  pub re_render : Server → ParsedNode → Moment → Disk k.Content → Rerun × Disk k.Content
  unfolding snapshotted
  re_render s n now d = elim (render_json g (some n) s.settings) [
    | none ↦ (record idle { restart_error = some render_failed }, d)
    | some j ↦ snapshotted s (k.json j) (create k f s.config_path now d)
  ]

  -- The part of `handleSettingsPost` behind the change of the settings.
  pub refresh : Server → Option State → Moment → Disk k.Content → Rerun × Disk k.Content
  unfolding re_render
  refresh s none now d = (idle, d)
  refresh s (some st) now d = elim (parse g st.uri) [
    | err _ ↦ (idle, d)
    | ok n ↦ re_render s n now d
  ]

  unfoldable pub accepted :
      Server
      → Settings
      → Moment
      → Disk k.Content
      → Reply SettingsResponse × (Server × Disk k.Content)
  unfolding refresh
  accepted s new now d =
      let s' = set_settings new s in
      let (rerun, d') = refresh s' (read_state k f s' d) now d in
      (reply (settings_response g new rerun), (s', d'))

  pub saved :
      Server
      → Settings
      → Moment
      → Result StoreError (Unit {0}) × Disk k.Content
      → Reply SettingsResponse × (Server × Disk k.Content)
  unfolding accepted
  saved s new now (err e, d) = (refuse 500 (failed_save e), (s, d))
  saved s new now (ok _, d) = accepted s new now d

  -- `handleSettingsPost`
  unfoldable pub handle_settings_post :
      Option Settings
      → Server
      → Moment
      → Disk k.Content
      → Reply SettingsResponse × (Server × Disk k.Content)
  unfolding saved
  handle_settings_post none s now d = (refuse 400 invalid_json, (s, d))
  handle_settings_post (some new) s now d = elim (validate_settings new) [
    | some bad ↦ (refuse 422 (bad_setting bad), (s, d))
    | none ↦
        if s.settings_path == ""
        then accepted s new now d
        else saved s new now (save_settings k f s.settings_path new d)
  ]

  -- `handleSettings`, with `handleSettingsGet`.
  unfoldable pub handle_settings :
      String
      → Option Settings
      → Server
      → Moment
      → Disk k.Content
      → Reply SettingsResponse × (Server × Disk k.Content)
  handle_settings method body s now d =
      if method == "GET"
      then (reply (settings_response g s.settings idle), (s, d))
      else if method == "POST"
      then handle_settings_post body s now d
      else (refuse 405 wrong_method, (s, d))
