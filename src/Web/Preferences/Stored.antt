-- ===== src/Web/Preferences/Stored.antt =====
-- internal/web/handlers.go: the files after a change of the settings.
use sing_box_helper.Prelude.{
  Bool, true, false, Option, none, some, String, ◌==◌, Result, ok, err, if◌then◌else◌, ◌≡◌, refl,
  arith,
}
use sing_box_helper.Platform.{Platform}
use sing_box_helper.Stamp.{Moment}
use sing_box_helper.Paths.{clean}
use sing_box_helper.Files.{FileError, Faults, Disk, lookup, file_at, write_file}
use sing_box_helper.Files.Laws.{write_file-lookup, read_file-some}
use sing_box_helper.Codec.{Codec, IsLawful}
use sing_box_helper.Config.Settings.{Settings, default_settings}
use sing_box_helper.Config.Encode.{config_json}
use sing_box_helper.Config.Render.{config_of, render_json}
use sing_box_helper.Parser.Types.{ParsedNode, ParseError}
use sing_box_helper.Parser.Dispatch.{parse}
use sing_box_helper.Backup.{BackupError, create}
use sing_box_helper.Backup.Create.{create-lookup}
use sing_box_helper.State.{StoreError, tmp_path, save_settings, load_settings, loaded_settings}
use sing_box_helper.State.Types.{State}
use sing_box_helper.State.Saved.{Replaced, save_settings-Replaced}
use sing_box_helper.Web.{Server, Reply, reply, refuse, BadSetting, bad_setting, read_state}
use sing_box_helper.Web.Preferences.{
  Rerun, SettingsResponse, rewritten, snapshotted, re_render, refresh, accepted, saved,
  handle_settings_post, validate_settings, idle,
}

module _ (g : Platform) (k : Codec) (f : Faults k.Content) (run : String → Option String) where
  -- The restart leaves the disk alone.
  pub rewritten-disk :
      (s : Server) (x : Result FileError (Unit {0}) × Disk k.Content)
      → (rewritten g k f run s x).1 ≡ x.1
  unfolding rewritten
  rewritten-disk s (err e, d) = refl
  rewritten-disk s (ok _, d) = ground arith

  snapshotted-lookup :
      (key : String) (s : Server) (body c : k.Content)
      (x : Result BackupError String × Disk k.Content)
      → (clean s.config_path == key) ≡ false
      → lookup key x.1 ≡ some c
      → lookup key (snapshotted g k f run s body x).1 ≡ some c
  unfolding snapshotted
  snapshotted-lookup key s body c (err e, d) other here = here
  snapshotted-lookup key s body c (ok _, d) other here = rw (
    rewritten-disk s (write_file f s.config_path body d),
    write_file-lookup f key s.config_path body d other,
    here,
  )

  refresh-lookup :
      (key : String) (s : Server) (st : Option State) (now : Moment) (c : k.Content)
      (d : Disk k.Content)
      → (clean s.config_path == key) ≡ false
      → lookup key d ≡ some c
      → lookup key (refresh g k f run s st now d).1 ≡ some c
  unfolding refresh re_render render_json
  refresh-lookup key s none now c d other here = here
  refresh-lookup key s (some st) now c d other here = go (parse g st.uri)
    where
      go :
          (p : Result ParseError ParsedNode)
          → lookup key
              (elim p as (λ _. Rerun × Disk k.Content) [
                | err _ ↦ (idle, d)
                | ok n ↦ re_render g k f run s n now d
              ]).1
            ≡ some c
      go (err _) = here
      go (ok n) =
          snapshotted-lookup key s (k.json (config_json (config_of g n.outbound s.settings))) c
            (create k f s.config_path now d) other
            (create-lookup k f s.config_path key now d c here)

  pub accepted-server :
      (s : Server) (new : Settings) (now : Moment) (d : Disk k.Content)
      → (accepted g k f run s new now d).1.0 ≡ record s { settings = new }
  unfolding accepted
  accepted-server s new now d = refl

  pub accepted-lookup :
      (key : String) (s : Server) (new : Settings) (now : Moment) (c : k.Content)
      (d : Disk k.Content)
      → (clean s.config_path == key) ≡ false
      → lookup key d ≡ some c
      → lookup key (accepted g k f run s new now d).1.1 ≡ some c
  unfolding accepted
  accepted-lookup key s new now c d other here =
      refresh-lookup key (record s { settings = new })
        (read_state k f (record s { settings = new }) d) now c d other here

  saved-lookup :
      (s : Server) (new : Settings) (now : Moment) (d : Disk k.Content) (r : SettingsResponse)
      (x : Result StoreError (Unit {0}) × Disk k.Content)
      → (clean s.config_path == clean s.settings_path) ≡ false
      → Replaced s.settings_path (k.yaml new) d x
      → (saved g k f run s new now x).0 ≡ reply r
      → file_at s.settings_path (saved g k f run s new now x).1.1 ≡ some (k.yaml new)
  unfolding saved
  saved-lookup s new now d r (err e, d1) other kept done = cc
  saved-lookup s new now d r (ok _, d1) other there done =
      accepted-lookup (clean s.settings_path) s new now (k.yaml new) d1 other there

  posted-lookup :
      (s : Server) (new : Settings) (now : Moment) (d : Disk k.Content) (r : SettingsResponse)
      → (clean (tmp_path s.settings_path) == clean s.settings_path) ≡ false
      → (clean s.config_path == clean s.settings_path) ≡ false
      → (s.settings_path == "") ≡ false
      → (handle_settings_post g k f run (some new) s now d).0 ≡ reply r
      → file_at s.settings_path (handle_settings_post g k f run (some new) s now d).1.1
        ≡ some (k.yaml new)
  unfolding handle_settings_post
  posted-lookup s new now d r tmp other given done =
      go (validate_settings new) (s.settings_path == "") given done
    where
      chosen : Option BadSetting → Bool → Reply SettingsResponse × (Server × Disk k.Content)
      chosen v b = elim v [
        | some bad ↦ (refuse 422 (bad_setting bad), (s, d))
        | none ↦
            if b
            then accepted g k f run s new now d
            else saved g k f run s new now (save_settings k f s.settings_path new d)
      ]

      go :
          (v : Option BadSetting) (b : Bool)
          → b ≡ false
          → (chosen v b).0 ≡ reply r
          → file_at s.settings_path (chosen v b).1.1 ≡ some (k.yaml new)
      go (some bad) b e h = cc
      go none true e h = cc
      go none false e h =
          saved-lookup s new now d r (save_settings k f s.settings_path new d) other
            (save_settings-Replaced k f s.settings_path d tmp new) h

  -- The settings that a POST to the settings page has answered are those that the next start of
  -- the helper loads, whatever became of the re-rendering: the path of the settings is set and can
  -- be read, it is neither its temporary file nor the configuration, and the encoders keep their
  -- documents.
  pub load_settings-handle_settings_post :
      (law : IsLawful k) (s : Server) (new : Settings) (now : Moment) (d : Disk k.Content)
      (r : SettingsResponse)
      → (clean (tmp_path s.settings_path) == clean s.settings_path) ≡ false
      → (clean s.config_path == clean s.settings_path) ≡ false
      → (s.settings_path == "") ≡ false
      → f.read s.settings_path ≡ false
      → (handle_settings_post g k f run (some new) s now d).0 ≡ reply r
      → load_settings k f s.settings_path (handle_settings_post g k f run (some new) s now d).1.1
        ≡ ok new
  unfolding load_settings loaded_settings
  load_settings-handle_settings_post law s new now d r tmp other given readable done = rw (
    read_file-some f s.settings_path (k.yaml new)
        (handle_settings_post g k f run (some new) s now d).1.1 readable
        (posted-lookup s new now d r tmp other given done),
    loaded_settings,
    law.parse_yaml-yaml default_settings new,
  )
