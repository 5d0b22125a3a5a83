-- ===== src/Web/Preferences/Phased.antt =====
-- internal/web/handlers.go: a post to the settings page as a turn of a writer.
use sing_box_helper.Prelude.{
  Bool, true, false, Option, none, some, String, ◌==◌, Result, ok, err, if◌then◌else◌, sym, subst,
}
use sing_box_helper.Platform.{Platform}
use sing_box_helper.Stamp.{Moment}
use sing_box_helper.Stamp.Printed.{IsCivil}
use sing_box_helper.Files.{Faults, Disk, write_file}
use sing_box_helper.Backup.Writers.Turn.{
  Stage, fresh, over, after_copy, after_write, Turn, Turns, begun, set_first, copied, overwritten,
}
use sing_box_helper.Codec.{Codec}
use sing_box_helper.Config.Settings.{Settings}
use sing_box_helper.Config.Encode.{config_json}
use sing_box_helper.Config.Render.{config_of, render_json}
use sing_box_helper.Parser.Types.{ParseError, ParsedNode}
use sing_box_helper.Parser.Dispatch.{parse}
use sing_box_helper.Backup.{BackupError, create}
use sing_box_helper.State.{StoreError, save_settings}
use sing_box_helper.State.Types.{State}
use sing_box_helper.Web.{
  Server, Reply, reply, refuse, BadSetting, bad_setting, wrong_method, read_state, set_settings,
}
use sing_box_helper.Web.Preferences.{
  Rerun, SettingsResponse, idle, settings_response, snapshotted, re_render, refresh, accepted,
  saved, handle_settings_post, handle_settings, validate_settings,
}
use sing_box_helper.Web.Preferences.Stored.{rewritten-disk}

module _ (g : Platform) (k : Codec) (f : Faults k.Content) (run : String → Option String)
    (s : Server) (start : Disk k.Content) (now : Moment) (civil : IsCivil now) where
  abbrev At : Stage → Disk k.Content → Type 0
  At = Turn k s.config_path s.state_path s.settings_path s.keep_backups start

  -- What the turn has reached.
  abbrev Reached : Disk k.Content → Type 0
  Reached = Turns k s.config_path s.state_path s.settings_path s.keep_backups start

  snapshotted-Turns :
      (new : Settings) (body : k.Content) (x : Result BackupError String × Disk k.Content)
      → At (after_copy x.0) x.1
      → Reached (snapshotted g k f run (set_settings new s) body x).1
  unfolding snapshotted
  snapshotted-Turns new body (err e, d) r = (over, r)
  snapshotted-Turns new body (ok _, d) r =
      subst Reached
        (sym (rewritten-disk g k f run (set_settings new s) (write_file f s.config_path body d)))
        (after_write (write_file f s.config_path body d).0, overwritten f body d r)

  refresh-Turns :
      (new : Settings) (st : Option State) (d : Disk k.Content)
      → At fresh d
      → Reached (refresh g k f run (set_settings new s) st now d).1
  unfolding refresh re_render render_json
  refresh-Turns new none d r = (fresh, r)
  refresh-Turns new (some st) d r = go (parse g st.uri)
    where
      go :
          (p : Result ParseError ParsedNode)
          → Reached
              (elim p as (λ _. Rerun × Disk k.Content) [
                | err _ ↦ (idle, d)
                | ok n ↦ re_render g k f run (set_settings new s) n now d
              ]).1
      go (err _) = (fresh, r)
      go (ok n) =
          snapshotted-Turns new (k.json (config_json (config_of g n.outbound new)))
            (create k f s.config_path now d) (copied f now d civil r)

  accepted-Turns :
      (new : Settings) (d : Disk k.Content)
      → At fresh d
      → Reached (accepted g k f run s new now d).1.1
  unfolding accepted
  accepted-Turns new d r = refresh-Turns new (read_state k f (set_settings new s) d) d r

  saved-Turns :
      (new : Settings) (x : Result StoreError (Unit {0}) × Disk k.Content)
      → At fresh x.1
      → Reached (saved g k f run s new now x).1.1
  unfolding saved
  saved-Turns new (err e, d) r = (fresh, r)
  saved-Turns new (ok _, d) r = accepted-Turns new d r

  posted-Turns :
      (body : Option Settings) → Reached (handle_settings_post g k f run body s now start).1.1
  unfolding handle_settings_post
  posted-Turns none = (fresh, begun)
  posted-Turns (some new) = go (validate_settings new) (s.settings_path == "")
    where
      posted : Option BadSetting → Bool → Reply SettingsResponse × (Server × Disk k.Content)
      posted v is_empty = elim v [
        | some bad ↦ (refuse 422 (bad_setting bad), (s, start))
        | none ↦
            if is_empty
            then accepted g k f run s new now start
            else saved g k f run s new now (save_settings k f s.settings_path new start)
      ]

      go : (v : Option BadSetting) (b : Bool) → Reached (posted v b).1.1
      go (some bad) b = (fresh, begun)
      go none true = accepted-Turns new start begun
      go none false =
          saved-Turns new (save_settings k f s.settings_path new start) (set_first f new)

  pub handle_settings-Turns :
      (method : String) (body : Option Settings)
      → Reached (handle_settings g k f run method body s now start).1.1
  unfolding handle_settings
  handle_settings-Turns method body = go (method == "GET") (method == "POST")
    where
      go :
          (is_get is_post : Bool)
          → Reached
              (if◌then◌else◌ {A = Reply SettingsResponse × (Server × Disk k.Content)} is_get
                (reply (settings_response g s.settings idle), (s, start))
                (if is_post
                  then handle_settings_post g k f run body s now start
                  else (refuse 405 wrong_method, (s, start)))).1.1
      go true is_post = (fresh, begun)
      go false true = posted-Turns body
      go false false = (fresh, begun)
