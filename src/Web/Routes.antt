-- ===== src/Web/Routes.antt =====
-- internal/web/server.go: Handler, which gives each path its handler, and the server under any
-- requests. Package net/http takes the paths literally and gives the rest to the file server.
pub mod Served
use mathlib.Core.Option
use sing_box_helper.Prelude.{
  ℕ, Bool, true, false, ◌||◌, ◌&&◌, List, [], ◌∷◌, Option, none, some, String, ◌==◌, if◌then◌else◌,
}
use sing_box_helper.Stamp.{Moment}
use sing_box_helper.Platform.{Platform}
use sing_box_helper.Files.{Faults, Disk}
use sing_box_helper.Codec.{Codec}
use sing_box_helper.Config.Settings.{Settings}
use sing_box_helper.Logbuf.{Bytes, write}
use sing_box_helper.Web.{Server, Reply}
use sing_box_helper.Web.Nodes.{
  Outside, StatusResponse, PreviewResponse, ApplyResponse, handle_status, handle_preview,
  handle_apply,
}
use sing_box_helper.Web.Diagnostics.{TestStep, handle_test}
use sing_box_helper.Web.Preferences.{SettingsResponse, handle_settings}
use sing_box_helper.Web.Journal.{Console, LogsResponse, handle_logs}
use sing_box_helper.Web.History.{
  HistoryResponse, RestoreResponse, handle_backups, handle_backups_restore,
}
use sing_box_helper.Web.Requests.{World}

-- A registered path; `elsewhere` is what the file server or net/http itself answers.
pub data Page : Type 0 where
  status preview apply test settings logs backups backups_restore elsewhere : Page

unfoldable pub page_of : String → Page
page_of path =
    if path == "/api/status"
    then status
    else if path == "/api/preview"
    then preview
    else if path == "/api/apply"
    then apply
    else if path == "/api/test"
    then test
    else if path == "/api/settings"
    then settings
    else if path == "/api/logs"
    then logs
    else if path == "/api/backups"
    then backups
    else if path == "/api/backups/restore"
    then backups_restore
    else elsewhere

-- What the bodies decode to: the field `uri` of a preview and of an apply, the settings, and the
-- field `file` of a restore. `none` is a body that does not decode.
pub record Decoders : Type 0 where
  pub uri : String → Option String
  pub settings : String → Option Settings
  pub file : String → Option String

-- A request: its path, its method, its body, and the values of its query.
pub record Request : Type 0 where
  pub path : String
  pub method : String
  pub body : String
  pub file : String
  pub source : String
  pub lines : String

-- What a request meets: the calls that fail, the machine, the system's log, and the moments.
pub record Around (k : Codec) : Type 0 where
  pub faults : Faults k.Content
  pub outside : Outside
  pub console : Console
  pub now : Moment
  pub at : Moment

pub data Answer : Type 0 where
  of_status : Reply StatusResponse → Answer
  of_preview : Reply PreviewResponse → Answer
  of_apply : Reply ApplyResponse → Answer
  of_test : Reply (List TestStep) → Answer
  of_settings : Reply SettingsResponse → Answer
  of_logs : Reply LogsResponse → Answer
  of_backups : Reply HistoryResponse → Answer
  of_restore : Reply RestoreResponse → Answer
  of_assets : String → Answer

module _ (g : Platform) (k : Codec) (c : Decoders) where
  -- The handler of a page.
  unfoldable pub handle_page : Page → Around k → Request → World k → Answer × World k
  handle_page status x r (s, d) =
      (of_status (handle_status g k x.faults x.outside r.method s d), (s, d))
  handle_page preview x r (s, d) =
      (of_preview (handle_preview g k x.faults x.outside r.method (c.uri r.body) s), (s, d))
  handle_page apply x r (s, d) =
      let (a, d') = handle_apply g k x.faults x.outside r.method (c.uri r.body) s x.now x.at d in
      (of_apply a, (s, d'))
  handle_page test x r (s, d) = (of_test (handle_test g k x.faults x.outside r.method s d), (s, d))
  handle_page settings x r (s, d) =
      let (a, w) =
        handle_settings g k x.faults x.outside.run r.method (c.settings r.body) s x.now d in
      (of_settings a, w)
  handle_page logs x r (s, d) =
      (of_logs (handle_logs g x.console r.method r.source r.lines s), (s, d))
  handle_page backups x r (s, d) =
      let (a, d') = handle_backups k x.faults r.method r.file s d in (of_backups a, (s, d'))
  handle_page backups_restore x r (s, d) =
      let (a, d') =
        handle_backups_restore k x.faults x.outside.run r.method (c.file r.body) s x.now d in
      (of_restore a, (s, d'))
  handle_page elsewhere x r w = (of_assets r.path, w)

  -- `Handler`
  unfoldable pub serve : Around k → Request → World k → Answer × World k
  serve x r w = handle_page (page_of r.path) x r w
