-- ===== src/Web/Requests/Settled.antt =====
-- internal/web/server.go: the settings in memory and in the file, under any sequence of requests.
use mathlib.Core.Option
use sing_box_helper.Prelude.{false, Option, some, String, ◌==◌, ok, ◌≡◌, sym, subst, ◌∙◌, inl, inr}
use sing_box_helper.Platform.{Platform}
use sing_box_helper.Stamp.{Moment}
use sing_box_helper.Paths.{clean}
use sing_box_helper.Files.{Faults, Disk, file_at}
use sing_box_helper.Files.Laws.{read_file-some}
use sing_box_helper.Codec.{Codec, IsLawful}
use sing_box_helper.Config.Settings.{Settings, default_settings}
use sing_box_helper.Backup.Names.{is_backup_key-none}
use sing_box_helper.Logbuf.{Buffer, write}
use sing_box_helper.State.{tmp_path, load_settings, loaded_settings}
use sing_box_helper.Web.{Server}
use sing_box_helper.Web.Nodes.Untouched.{IsApart, handle_apply-lookup}
use sing_box_helper.Web.Preferences.{handle_settings}
use sing_box_helper.Web.Preferences.Kept.{IsUsable}
use sing_box_helper.Web.Preferences.Followed.{Followed, handle_settings-Followed}
use sing_box_helper.Web.History.Kept.{handle_backups-Answered, handle_backups_restore-lookup}
use sing_box_helper.Web.Requests.{
  World, Step, applied, configured, cleared, put_back, logged, Reach, here, after,
}

-- The paths of a server: the settings file is none of the other files, nor its own temporary file,
-- nor named as a backup.
pub record IsLaidOut (s : Server) : Type 0 where
  pub apart : IsApart s (clean s.settings_path)
  pub tmp : (clean (tmp_path s.settings_path) == clean s.settings_path) ≡ false
  pub given : (s.settings_path == "") ≡ false

-- The settings and the log lines are no part of the paths.
pub same-IsLaidOut :
    (s : Server) (new : Settings) (logs : Option Buffer)
    → IsLaidOut s
    → IsLaidOut (record s { settings = new; logs = logs })
same-IsLaidOut s new logs o = record {
  apart = record {
    config = o.apart.config;
    state = o.apart.state;
    state_tmp = o.apart.state_tmp;
    no_backup = o.apart.no_backup;
  };
  tmp = o.tmp;
  given = o.given;
}

-- The settings in memory can be used, and are those that the settings file holds.
pub record IsSettled (k : Codec) (path : String) (w : World k) : Type 0 where
  pub laid_out : IsLaidOut w.0
  pub same_path : w.0.settings_path ≡ path
  pub usable : IsUsable w.0.settings
  pub content : k.Content
  pub stored : file_at w.0.settings_path w.1 ≡ some content
  pub decoded : k.parse_yaml default_settings content ≡ some w.0.settings

module _ (g : Platform) (k : Codec) (law : IsLawful k) (path : String) where
  -- A change of other files than the settings file.
  with_disk :
      (s : Server) (d d' : Disk k.Content) (i : IsSettled k path (s, d))
      → file_at s.settings_path d' ≡ some i.content
      → IsSettled k path (s, d')
  with_disk s d d' i there = record {
    laid_out = i.laid_out;
    same_path = i.same_path;
    usable = i.usable;
    content = i.content;
    stored = there;
    decoded = i.decoded;
  }

  with_settings :
      (s : Server) (new : Settings) (d d' : Disk k.Content)
      → IsSettled k path (s, d)
      → IsUsable new
      → file_at s.settings_path d' ≡ some (k.yaml new)
      → IsSettled k path (record s { settings = new }, d')
  with_settings s new d d' i usable there = record {
    laid_out = same-IsLaidOut s new s.logs i.laid_out;
    same_path = i.same_path;
    usable = usable;
    content = k.yaml new;
    stored = there;
    decoded = law.parse_yaml-yaml default_settings new;
  }

  followed :
      (s : Server) (d : Disk k.Content) (f : Faults k.Content) (run : String → Option String)
      (now : Moment) (x : World k)
      → (i : IsSettled k path (s, d))
      → Followed g k f run s now d i.laid_out.tmp i.laid_out.apart.config i.laid_out.given x
      → IsSettled k path x
  followed s d f run now (s', d') i (inl (same, file)) =
      subst (λ x. IsSettled k path (x, d')) (sym same) (with_disk s d d' i (file ∙ i.stored))
  followed s d f run now (s', d') i (inr (new, same, usable, there)) =
      subst (λ x. IsSettled k path (x, d')) (sym same) (with_settings s new d d' i usable there)

  Step-IsSettled : (v w : World k) → IsSettled k path v → Step g k v w → IsSettled k path w
  Step-IsSettled v w i (applied f x now at method body s d) = with_disk s d _ i (
      handle_apply-lookup g k f x s (clean s.settings_path) i.laid_out.apart i.content at method
        body now d i.stored)
  Step-IsSettled v w i (configured f run now method body s d) =
      followed s d f run now (handle_settings g k f run method body s now d).1 i (
        handle_settings-Followed g k f run s now d i.laid_out.tmp i.laid_out.apart.config
          i.laid_out.given method body)
  Step-IsSettled v w i (cleared f method file s d) = with_disk s d _ i (
      (handle_backups-Answered k f s d method file (clean s.settings_path)
        (is_backup_key-none s.config_path (clean s.settings_path) i.laid_out.apart.no_backup)).0
      ∙ i.stored)
  Step-IsSettled v w i (put_back f run now method body s d) = with_disk s d _ i (
      handle_backups_restore-lookup k f s d run now (clean s.settings_path) i.content
        i.laid_out.apart.config method body i.stored)
  Step-IsSettled v w i (logged now p s d) = record {
    laid_out = same-IsLaidOut s s.settings (Option.map (write now p) s.logs) i.laid_out;
    same_path = i.same_path;
    usable = i.usable;
    content = i.content;
    stored = i.stored;
    decoded = i.decoded;
  }

  pub Reach-IsSettled :
      (start w : World k) → IsSettled k path start → Reach g k start w → IsSettled k path w
  Reach-IsSettled start w i here = i
  Reach-IsSettled start w i (after v w' r step) =
      Step-IsSettled v w (Reach-IsSettled start v i r) step

-- After any sequence of requests, whichever calls fail in them, the settings in memory can be used,
-- and they are those that the next start of the helper loads from the same settings file, if it can
-- be read. At the start the settings file holds the settings in memory, they can be used, and the
-- settings file is none of the other files, nor named as a backup. The encoders keep their
-- documents.
pub load_settings-Reach :
    (g : Platform) (k : Codec) (law : IsLawful k) (f : Faults k.Content) (start w : World k)
    → IsSettled k start.0.settings_path start
    → Reach g k start w
    → f.read start.0.settings_path ≡ false
    → (load_settings k f start.0.settings_path w.1 ≡ ok w.0.settings) × IsUsable w.0.settings
unfolding load_settings loaded_settings
load_settings-Reach g k law f start w i r readable =
    let j = Reach-IsSettled g k law start.0.settings_path start w i r in
    let there : file_at start.0.settings_path w.1 ≡ some j.content =
      subst (λ x. file_at x w.1 ≡ some j.content) j.same_path j.stored in
    (
      rw (
        read_file-some f start.0.settings_path j.content w.1 readable there,
        loaded_settings,
        j.decoded,
      ),
      j.usable,
    )
