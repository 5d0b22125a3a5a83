-- ===== src/Cli.antt =====
-- cmd/singbox-helper/main.go: the command line.
pub mod Copies
pub mod Kept
pub mod Ends
pub mod Others
pub mod Pump
use Prim.Native.String
use sing_box_helper.Prelude.{
  ℕ, Bool, true, false, not, List, [], ◌∷◌, ◌++◌, map, Option, none, some, String, ◌==◌, Result, ok,
  err, if◌then◌else◌,
}
use sing_box_helper.Platform.{Platform}
use sing_box_helper.Json.{Json}
use sing_box_helper.Stamp.{Moment, format_stamp}
use sing_box_helper.Paths.{dir_of}
use sing_box_helper.Files.{
  FileError, not_exist, failed, Faults, Disk, read_file, write_file, create_copy, make_dir,
}
use sing_box_helper.Codec.{Codec}
use sing_box_helper.Config.Settings.{Settings, default_settings}
use sing_box_helper.Config.Render.{render_json}
use sing_box_helper.Parser.Types.{ParseError, ParsedNode, Note}
use sing_box_helper.Parser.Dispatch.{parse}
use sing_box_helper.State.{StoreError, load_settings}
use sing_box_helper.Web.{Server, new_server}
use sing_box_helper.Web.Routes.{Decoders}
use sing_box_helper.Web.Routes.Served.{Event, handled_all}

-- The flags.
pub record Flags : Type 0 where
  pub serve : Bool
  pub listen : String
  pub from_uri : String
  pub apply : Bool
  pub out_path : String
  pub settings_path : String
  pub show_version : Bool

pub data RunError : Type 0 where
  bad_uri : ParseError → RunError
  no_render : RunError
  no_print : String → RunError
  no_backup no_directory no_write : FileError → RunError

-- A line on the standard error; the lines of the usage and of a start are one.
pub data Message : Type 0 where
  settings_warning : StoreError → Message
  node_warning : Note → Message
  backed_up_at : String → Message
  wrote : ℕ → String → Message
  reminder usage : Message
  started : String → String → Message
  run_error : RunError → Message
  serve_error : String → Message

-- What a program has printed on the standard output, if anything.
pub data Printed (C : Type 0) : Type 0 where
  nothing : Printed C
  version_line : String → Printed C
  rendered : C → Printed C

-- The failure of a write to the standard output; what reaches a server that listens, with the
-- decoders of the bodies, until `ListenAndServe` ends; and that end, which is an error unless it is
-- `none`.
pub record Terminal (k : Codec) : Type 0 where
  pub stdout : Option String
  pub decoders : Decoders
  pub events : Server → String → List (Event k)
  pub serving : Server → String → Option String

module _ (k : Codec) (f : Faults k.Content) where
  -- `backupIfExists` behind the opening of the live file: the backup, if one was made.
  pub copied_over :
      String
      → Result FileError Bool × Disk k.Content
      → Result FileError (Option String) × Disk k.Content
  copied_over bak (err e, d) = (err e, d)
  copied_over bak (ok true, d) = (ok (some bak), d)
  copied_over bak (ok false, d) = (err (failed bak), d)

  pub backed_over :
      String
      → Result FileError k.Content
      → Disk k.Content
      → Result FileError (Option String) × Disk k.Content
  unfolding copied_over
  backed_over bak (err (not_exist _)) d = (ok none, d)
  backed_over bak (err e) d = (err e, d)
  backed_over bak (ok c) d = copied_over bak (create_copy f k.empty bak c d)

  -- `backupIfExists`
  unfoldable pub backup_if_exists :
      String → Moment → Disk k.Content → Result FileError (Option String) × Disk k.Content
  unfolding backed_over
  backup_if_exists out now d =
      backed_over (String.◌++◌ out (String.◌++◌ ".bak-" (format_stamp now))) (read_file f out d) d

-- The end of `run`: its error, if there is one, what it has printed, and the disk.
pub record Ran (C : Type 0) : Type 0 where
  pub error : Option RunError
  pub printed : Printed C
  pub messages : List Message
  pub disk : Disk C

abbrev pub stopped : {C : Type 0} → RunError → List Message → Disk C → Ran C
stopped e ms d = record { error = some e; printed = nothing; messages = ms; disk = d }

-- The message of `backupIfExists`.
abbrev pub backup_message : Option String → List Message
backup_message none = []
backup_message (some bak) = backed_up_at bak ∷ []

-- The end of the program: its exit code, what it has printed, and the disk.
pub record Exit (C : Type 0) : Type 0 where
  pub code : ℕ
  pub printed : Printed C
  pub messages : List Message
  pub disk : Disk C

-- The server of `runServer`; Cli/Pump has what it copies into the server's buffer.
unfoldable pub served : String → String → Settings → Server
served version path s = record (new_server s) { settings_path = path; version = version }

module _ (g : Platform) (k : Codec) (f : Faults k.Content) (t : Terminal k) where
  -- The steps of `run` behind the rendering, from the last to the first.
  pub out_written :
      String
      → k.Content
      → List Message
      → Result FileError (Unit {0}) × Disk k.Content
      → Ran k.Content
  out_written out body ms (err e, d) = stopped (no_write e) ms d
  out_written out body ms (ok _, d) = record {
    error = none;
    printed = nothing;
    messages = ms ++ (wrote (k.size body) out ∷ reminder ∷ []);
    disk = d;
  }

  pub saved_over :
      String
      → k.Content
      → List Message
      → Result FileError (Option String) × Disk k.Content
      → Ran k.Content
  unfolding out_written
  saved_over out body ms (err e, d) = stopped (no_backup e) ms d
  saved_over out body ms (ok bak, d) =
      let said = ms ++ backup_message bak in
      elim (make_dir f (dir_of out)) [
        | err e ↦ stopped (no_directory e) said d
        | ok _ ↦ out_written out body said (write_file f out body d)
      ]

  pub shown : k.Content → List Message → Disk k.Content → Ran k.Content
  shown body ms d = elim t.stdout [
    | some e ↦ stopped (no_print e) ms d
    | none ↦ record { error = none; printed = rendered body; messages = ms; disk = d }
  ]

  pub run_node : ParsedNode → Bool → String → Settings → Moment → Disk k.Content → Ran k.Content
  unfolding saved_over shown
  run_node n apply out s now d =
      let ms = map node_warning n.display.notes in
      elim (render_json g (some n) s) [
        | none ↦ stopped no_render ms d
        | some j ↦
            if not apply
            then shown (k.json j) ms d
            else saved_over out (k.json j) ms (backup_if_exists k f out now d)
      ]

  -- `run`
  unfoldable pub run : String → Bool → String → Settings → Moment → Disk k.Content → Ran k.Content
  unfolding run_node
  run uri apply out s now d = elim (parse g uri) [
    | err e ↦ stopped (bad_uri e) [] d
    | ok n ↦ run_node n apply out s now d
  ]

  pub ended : List Message → Ran k.Content → Exit k.Content
  ended ms r = elim r.error [
    | none ↦ record { code = 0; printed = r.printed; messages = ms ++ r.messages; disk = r.disk }
    | some e ↦ record {
      code = 1;
      printed = r.printed;
      messages = ms ++ (r.messages ++ (run_error e ∷ []));
      disk = r.disk;
    }
  ]

  abbrev pub settings_or_default : Result StoreError Settings → Settings × List Message
  settings_or_default (ok s) = (s, [])
  settings_or_default (err e) = (default_settings, settings_warning e ∷ [])

  pub ended_server : List Message → Disk k.Content → Option String → Exit k.Content
  ended_server ms d none = record { code = 0; printed = nothing; messages = ms; disk = d }
  ended_server ms d (some e) = record {
    code = 1;
    printed = nothing;
    messages = ms ++ (serve_error e ∷ []);
    disk = d;
  }

  -- The disk that a server leaves.
  unfoldable pub served_disk : Server → String → Disk k.Content → Disk k.Content
  served_disk s listen d = (handled_all g k t.decoders (t.events s listen) (s, d)).1

  -- `main`
  unfoldable pub main : String → Flags → Moment → Disk k.Content → Exit k.Content
  unfolding ended ended_server served_disk
  main name o now d =
      if o.show_version
      then record { code = 0; printed = version_line name; messages = []; disk = d }
      else let (s, ms) = settings_or_default (load_settings k f o.settings_path d) in
        if o.serve
        then ended_server (ms ++ (started o.listen o.settings_path ∷ []))
            (served_disk (served name o.settings_path s) o.listen d)
            (t.serving (served name o.settings_path s) o.listen)
        else if o.from_uri == ""
        then record { code = 2; printed = nothing; messages = ms ++ (usage ∷ []); disk = d }
        else ended ms (run o.from_uri o.apply o.out_path s now d)
