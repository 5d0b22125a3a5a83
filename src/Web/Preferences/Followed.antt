-- ===== src/Web/Preferences/Followed.antt =====
-- internal/web/handlers.go: the settings file beside the settings in memory.
use sing_box_helper.Prelude.{
  Bool, true, false, Option, none, some, String, ◌==◌, Result, ok, err, if◌then◌else◌, ◌≡◌, refl,
  ◌⊎◌, inl, inr,
}
use sing_box_helper.Platform.{Platform}
use sing_box_helper.Stamp.{Moment}
use sing_box_helper.Paths.{clean}
use sing_box_helper.Files.{Faults, Disk, file_at}
use sing_box_helper.Codec.{Codec}
use sing_box_helper.Config.Settings.{Settings}
use sing_box_helper.State.{StoreError, tmp_path, save_settings}
use sing_box_helper.State.Saved.{Replaced, save_settings-Replaced}
use sing_box_helper.Web.{Server, Reply, reply, refuse, BadSetting, bad_setting, wrong_method}
use sing_box_helper.Web.Preferences.{
  SettingsResponse, settings_response, idle, accepted, saved, handle_settings_post, handle_settings,
  validate_settings,
}
use sing_box_helper.Web.Preferences.Kept.{IsUsable, validate_settings-IsUsable}
use sing_box_helper.Web.Preferences.Stored.{accepted-lookup}

module _ (g : Platform) (k : Codec) (f : Faults k.Content) (run : String → Option String)
    (s : Server) (now : Moment) (d : Disk k.Content)
    (tmp : (clean (tmp_path s.settings_path) == clean s.settings_path) ≡ false)
    (other : (clean s.config_path == clean s.settings_path) ≡ false)
    (given : (s.settings_path == "") ≡ false) where
  -- The server and the settings file are as they were, or both have the same new settings.
  abbrev pub Followed : Server × Disk k.Content → Type 0
  Followed (s', d') =
      ((s' ≡ s) × (file_at s.settings_path d' ≡ file_at s.settings_path d))
      ⊎ ((new : Settings) × (s' ≡ record s { settings = new })
          × IsUsable new
          × (file_at s.settings_path d' ≡ some (k.yaml new)))

  saved-Followed :
      (new : Settings) (x : Result StoreError (Unit {0}) × Disk k.Content)
      → IsUsable new
      → Replaced s.settings_path (k.yaml new) d x
      → Followed (saved g k f run s new now x).1
  unfolding saved accepted
  saved-Followed new (err e, d1) usable same = inl (refl, same)
  saved-Followed new (ok _, d1) usable there = inr (
    new,
    refl,
    usable,
    accepted-lookup g k f run (clean s.settings_path) s new now (k.yaml new) d1 other there,
  )

  posted-Followed :
      (body : Option Settings) → Followed (handle_settings_post g k f run body s now d).1
  unfolding handle_settings_post
  posted-Followed none = inl (refl, refl)
  posted-Followed (some new) = go (validate_settings new) (s.settings_path == "") refl given
    where
      posted : Option BadSetting → Bool → Reply SettingsResponse × (Server × Disk k.Content)
      posted v is_empty = elim v [
        | some bad ↦ (refuse 422 (bad_setting bad), (s, d))
        | none ↦
            if is_empty
            then accepted g k f run s new now d
            else saved g k f run s new now (save_settings k f s.settings_path new d)
      ]

      go :
          (v : Option BadSetting) (b : Bool)
          → validate_settings new ≡ v
          → b ≡ false
          → Followed (posted v b).1
      go (some bad) b e h = inl (refl, refl)
      go none true e h = cc
      go none false e h =
          saved-Followed new (save_settings k f s.settings_path new d)
            (validate_settings-IsUsable new e)
            (save_settings-Replaced k f s.settings_path d tmp new)

  pub handle_settings-Followed :
      (method : String) (body : Option Settings)
      → Followed (handle_settings g k f run method body s now d).1
  unfolding handle_settings
  handle_settings-Followed method body = go (method == "GET") (method == "POST")
    where
      go :
          (is_get is_post : Bool)
          → Followed
              (if◌then◌else◌ {A = Reply SettingsResponse × (Server × Disk k.Content)} is_get
                (reply (settings_response g s.settings idle), (s, d))
                (if is_post
                  then handle_settings_post g k f run body s now d
                  else (refuse 405 wrong_method, (s, d)))).1
      go true is_post = inl (refl, refl)
      go false true = posted-Followed body
      go false false = inl (refl, refl)
