-- ===== src/Web/Requests.antt =====
-- internal/web/server.go: the server under its requests, one after another.
pub mod Settled
pub mod Overlapped
use mathlib.Core.Option
use sing_box_helper.Prelude.{ℕ, Option, none, some, String, List, [], ◌∷◌, map}
use sing_box_helper.Stamp.{Moment}
use sing_box_helper.Platform.{Platform}
use sing_box_helper.Files.{Faults, Disk}
use sing_box_helper.Codec.{Codec}
use sing_box_helper.Config.Settings.{Settings}
use sing_box_helper.Logbuf.{Bytes, write}
use sing_box_helper.Web.{Server}
use sing_box_helper.Web.Nodes.{Outside, handle_apply}
use sing_box_helper.Web.Preferences.{handle_settings}
use sing_box_helper.Web.History.{handle_backups, handle_backups_restore}

abbrev pub World : Codec → Type 0
World k = Server × Disk k.Content

-- One request of the pages that can change anything, or a line of the helper's own log. The calls
-- that fail, the outside and the moments are new in each step. The pages of the status, of the
-- preview, of the logs and of the diagnostics are functions that return a reply only.
pub data Step (g : Platform) (k : Codec) : World k → World k → Type 0 where
  applied :
      (f : Faults k.Content) (w : Outside) (now at : Moment) (method : String)
      (body : Option String) (s : Server) (d : Disk k.Content)
      → Step g k (s, d) (s, (handle_apply g k f w method body s now at d).1)
  configured :
      (f : Faults k.Content) (run : String → Option String) (now : Moment) (method : String)
      (body : Option Settings) (s : Server) (d : Disk k.Content)
      → Step g k (s, d) (handle_settings g k f run method body s now d).1
  cleared :
      (f : Faults k.Content) (method file : String) (s : Server) (d : Disk k.Content)
      → Step g k (s, d) (s, (handle_backups k f method file s d).1)
  put_back :
      (f : Faults k.Content) (run : String → Option String) (now : Moment) (method : String)
      (body : Option String) (s : Server) (d : Disk k.Content)
      → Step g k (s, d) (s, (handle_backups_restore k f run method body s now d).1)
  logged :
      (now : ℕ) (p : Bytes) (s : Server) (d : Disk k.Content)
      → Step g k (s, d) (record s { logs = Option.map (write now p) s.logs }, d)

-- Any number of requests.
pub data Reach (g : Platform) (k : Codec) (start : World k) : World k → Type 0 where
  here : Reach g k start start
  after : (v w : World k) → Reach g k start v → Step g k v w → Reach g k start w
