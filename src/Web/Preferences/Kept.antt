-- ===== src/Web/Preferences/Kept.antt =====
-- internal/web/handlers.go: what the settings page can change.
use sing_box_helper.Prelude.{
  Bool, true, false, Option, none, some, String, ◌==◌, pos, Result, ok, err, ◌≤ℤ◌, if◌then◌else◌,
  ◌≡◌, ◌≢◌, refl, ◌⊎◌, inl, inr, arith, eq_iff, Bool-cases,
}
use sing_box_helper.Platform.{Platform}
use sing_box_helper.Stamp.{Moment}
use sing_box_helper.Paths.{clean}
use sing_box_helper.Files.{Faults, Disk, file_at}
use sing_box_helper.Codec.{Codec}
use sing_box_helper.Config.Settings.{Settings}
use sing_box_helper.State.{StoreError, tmp_path, save_settings}
use sing_box_helper.State.Saved.{Replaced, save_settings-Replaced}
use sing_box_helper.Web.{Server, BadSetting, Reply, reply, refuse, wrong_method, bad_setting}
use sing_box_helper.Web.Preferences.{
  validate_settings, SettingsResponse, settings_response, idle, accepted, saved,
  handle_settings_post, handle_settings,
}

-- What the page asks of settings.
pub record IsUsable (s : Settings) : Type 0 where
  pub port_low : pos 1 ≤ℤ s.mixed_listen_port
  pub port_high : s.mixed_listen_port ≤ℤ pos 65535
  pub mtu_low : pos 576 ≤ℤ s.tun_mtu
  pub mtu_high : s.tun_mtu ≤ℤ pos 9000
  pub named : s.tun_interface_name ≢ ""
  pub addressed : s.tun_address ≢ ""
  pub resolved : s.upstream_dns ≢ ""

pub validate_settings-IsUsable : (s : Settings) → validate_settings s ≡ none → IsUsable s
unfolding validate_settings
validate_settings-IsUsable s h = record {
  port_low = ground arith;
  port_high = ground arith;
  mtu_low = ground arith;
  mtu_high = ground arith;
  named = ground (arith, eq_iff s.tun_interface_name "");
  addressed = ground (arith, eq_iff s.tun_address "");
  resolved = ground (arith, eq_iff s.upstream_dns "");
}

module _ (g : Platform) (k : Codec) (f : Faults k.Content) (run : String → Option String)
    (s : Server) (now : Moment) (d : Disk k.Content) where
  abbrev pub Outcome : Type 0
  Outcome = Reply SettingsResponse × (Server × Disk k.Content)

  abbrev pub Handled : Outcome → Type 0
  Handled (refuse _ _, (s', d')) =
      (s' ≡ s) × (file_at s.settings_path d' ≡ file_at s.settings_path d)
  Handled (reply r, (s', d')) =
      (s' ≡ record s { settings = r.settings }) × ((r.settings ≡ s.settings) ⊎ IsUsable r.settings)

  saved-Handled :
      (new : Settings) (x : Result StoreError (Unit {0}) × Disk k.Content)
      → Replaced s.settings_path (k.yaml new) d x
      → IsUsable new
      → Handled (saved g k f run s new now x)
  unfolding saved accepted settings_response
  saved-Handled new (err e, d1) kept usable = (refl, kept)
  saved-Handled new (ok _, d1) kept usable = (refl, inr usable)

  module _ (other : (clean (tmp_path s.settings_path) == clean s.settings_path) ≡ false) where
    validated-Handled :
        (new : Settings) (v : Option BadSetting)
        → validate_settings new ≡ v
        → Handled (elim v [
          | some bad ↦ (refuse 422 (bad_setting bad), (s, d))
          | none ↦
              if s.settings_path == ""
              then accepted g k f run s new now d
              else saved g k f run s new now (save_settings k f s.settings_path new d)
        ])
    unfolding accepted settings_response
    validated-Handled new (some bad) e = (refl, refl)
    validated-Handled new none e =
        let usable = validate_settings-IsUsable new e in
        elim (Bool-cases (s.settings_path == "")) [
          | inl t ↦ rw t (refl, inr usable)
          | inr t ↦ rw t (
              saved-Handled new (save_settings k f s.settings_path new d)
                (save_settings-Replaced k f s.settings_path d other new) usable)
        ]

    -- A request to the settings page that is refused changes neither the settings in memory nor
    -- the settings file, and one that is answered leaves the settings of the answer in memory,
    -- which are the old ones or pass the validation. The settings file's temporary file is another
    -- file.
    pub handle_settings-Handled :
        (method : String) (body : Option Settings)
        → Handled (handle_settings g k f run method body s now d)
    unfolding handle_settings handle_settings_post settings_response
    handle_settings-Handled method body = go (method == "GET") (method == "POST") body
      where
        go :
            (is_get is_post : Bool) (b : Option Settings)
            → Handled (
                if is_get
                then (reply (settings_response g s.settings idle), (s, d))
                else if is_post
                then handle_settings_post g k f run b s now d
                else (refuse 405 wrong_method, (s, d)))
        go true is_post b = (refl, inl refl)
        go false false b = (refl, refl)
        go false true none = (refl, refl)
        go false true (some new) = validated-Handled new (validate_settings new) refl
