-- ===== src/Web/Requests/Overlapped.antt =====
-- internal/web/handlers.go: the requests that write the live configuration, as writers that can
-- overlap.
use sing_box_helper.Prelude.{inl, inr, subst, sym, ℕ, Option, String}
use sing_box_helper.Platform.{Platform}
use sing_box_helper.Stamp.{Moment}
use sing_box_helper.Stamp.Printed.{IsCivil}
use sing_box_helper.Files.{Faults, Disk}
use sing_box_helper.Codec.{Codec}
use sing_box_helper.Config.Settings.{Settings}
use sing_box_helper.Backup.{delete}
use sing_box_helper.Backup.Writers.{Phases, at_start, then_one, deleting}
use sing_box_helper.Backup.Writers.Turn.{Turns, Turns-Phases, begun}
use sing_box_helper.Web.{Server}
use sing_box_helper.Web.Nodes.{Outside, handle_apply}
use sing_box_helper.Web.Nodes.Phased.{handle_apply-Turns}
use sing_box_helper.Web.Preferences.{handle_settings}
use sing_box_helper.Web.Preferences.Phased.{handle_settings-Turns}
use sing_box_helper.Web.History.{handle_backups, handle_backups_restore}
use sing_box_helper.Web.History.Phased.{
  Deletes, handle_backups-Deletes, handle_backups_restore-Turns,
}

-- A request with its method, its body or its query, and its moment.
pub data Writer (k : Codec) : Type 0 where
  an_apply : Faults k.Content → Outside → String → Option String → Moment → Moment → Writer k
  a_post :
      Faults k.Content → (String → Option String) → String → Option Settings → Moment → Writer k
  a_restore :
      Faults k.Content → (String → Option String) → String → Option String → Moment → Writer k
  a_deletion : Faults k.Content → String → String → Writer k

-- The moment that names the request's backup, if it can make one, is one of the calendar, with a
-- year of four digits.
abbrev pub HasDate : {k : Codec} → Writer k → Type 0
HasDate (an_apply f w method body now at) = IsCivil now
HasDate (a_post f run method body now) = IsCivil now
HasDate (a_restore f run method body now) = IsCivil now
HasDate (a_deletion f method file) = Unit

-- The disk behind a request that is handled on its own.
abbrev pub after_writer :
    (g : Platform) (k : Codec) → Server → Writer k → Disk k.Content → Disk k.Content
after_writer g k s (an_apply f w method body now at) d =
    (handle_apply g k f w method body s now at d).1
after_writer g k s (a_post f run method body now) d =
    (handle_settings g k f run method body s now d).1.1
after_writer g k s (a_restore f run method body now) d =
    (handle_backups_restore k f run method body s now d).1
after_writer g k s (a_deletion f method file) d = (handle_backups k f method file s d).1

-- What a request does to the disk by itself: a turn of one writer, or a deletion.
abbrev pub Does : (k : Codec) → Server → Writer k → Disk k.Content → Disk k.Content → Type 0
Does k s (a_deletion f method file) d d' = Deletes k f s d method file d'
Does k s (an_apply f w method body now at) d d' =
    Turns k s.config_path s.state_path s.settings_path s.keep_backups d d'
Does k s (a_post f run method body now) d d' =
    Turns k s.config_path s.state_path s.settings_path s.keep_backups d d'
Does k s (a_restore f run method body now) d d' =
    Turns k s.config_path s.state_path s.settings_path s.keep_backups d d'

after_writer-Does :
    (g : Platform) (k : Codec) (s : Server) (r : Writer k) (d : Disk k.Content)
    → HasDate r
    → Does k s r d (after_writer g k s r d)
after_writer-Does g k s (an_apply f w method body now at) d civil =
    handle_apply-Turns g k f w s d at method body now d civil begun
after_writer-Does g k s (a_post f run method body now) d civil =
    handle_settings-Turns g k f run s d now civil method body
after_writer-Does g k s (a_restore f run method body now) d civil =
    handle_backups_restore-Turns k f s d run now civil method body
after_writer-Does g k s (a_deletion f method file) d civil =
    handle_backups-Deletes k f s d method file

Does-Phases :
    (k : Codec) (s : Server) (r : Writer k) (d d' : Disk k.Content) (n : ℕ)
    → Does k s r d d'
    → Phases k s.config_path s.state_path s.settings_path (d, n) (d', n)
Does-Phases k s (an_apply f w method body now at) d d' n h =
    Turns-Phases k s.config_path s.state_path s.settings_path s.keep_backups d d' n h
Does-Phases k s (a_post f run method body now) d d' n h =
    Turns-Phases k s.config_path s.state_path s.settings_path s.keep_backups d d' n h
Does-Phases k s (a_restore f run method body now) d d' n h =
    Turns-Phases k s.config_path s.state_path s.settings_path s.keep_backups d d' n h
Does-Phases k s (a_deletion f method file) d d' n (inl same) =
    subst (λ x. Phases k s.config_path s.state_path s.settings_path (d, n) (x, n)) (sym same)
      at_start
Does-Phases k s (a_deletion f method file) d d' n (inr (_, same)) =
    subst (λ x. Phases k s.config_path s.state_path s.settings_path (d, n) (x, n)) (sym same)
      (then_one (d, n) ((delete k f s.config_path file d).1, n) at_start (deleting f file d n))

-- What each request to the pages of the apply, of the settings, of the restore and of the backups
-- does to the disk, on each of its branches. The first three take one turn: they save the settings
-- at first or not at all, make one copy, only behind a copy that succeeded one write to the live
-- file, only behind a write that succeeded the state, and behind that one Trim to the number of
-- backups to keep, and stop somewhere on this way. A request to the page of backups changes
-- nothing or is a Delete of the file that it names. Among any number of other writers, all of this
-- is a run of the steps of overlapping writers. The moment is one of the calendar, with a year of
-- four digits.
pub after_writer-Phases :
    (g : Platform) (k : Codec) (s : Server) (r : Writer k) (d : Disk k.Content) (n : ℕ)
    → HasDate r
    → Does k s r d (after_writer g k s r d)
      × Phases k s.config_path s.state_path s.settings_path (d, n) (after_writer g k s r d, n)
after_writer-Phases g k s r d n civil =
    let h = after_writer-Does g k s r d civil in
    (h, Does-Phases k s r d (after_writer g k s r d) n h)
