-- ===== src/Web/Nodes/Phased.antt =====
-- internal/web/handlers.go: an apply as a turn of a writer.
use sing_box_helper.Prelude.{
  Bool, true, false, not, Option, none, some, String, ◌==◌, Result, ok, err, if◌then◌else◌,
}
use sing_box_helper.Platform.{Platform}
use sing_box_helper.Stamp.{Moment}
use sing_box_helper.Stamp.Printed.{IsCivil}
use sing_box_helper.Paths.{dir_of}
use sing_box_helper.Files.{FileError, Faults, Disk, write_file, make_dir}
use sing_box_helper.Backup.Writers.Turn.{
  Stage, fresh, ready, over, wrote, after_copy, after_write, Turn, Turns, copied, overwritten,
  kept_state, trimmed,
}
use sing_box_helper.Codec.{Codec}
use sing_box_helper.Config.Encode.{config_json}
use sing_box_helper.Config.Render.{config_of, render_json}
use sing_box_helper.Parser.Types.{ParseError, ParsedNode}
use sing_box_helper.Parser.Dispatch.{parse}
use sing_box_helper.Backup.{BackupError, create}
use sing_box_helper.State.{save}
use sing_box_helper.State.Types.{State}
use sing_box_helper.Web.{Server, Reply, refuse, wrong_method, invalid_json, bad_uri, no_directory}
use sing_box_helper.Web.Nodes.{
  ApplyResponse, Outside, finished, written, backed_up, apply_node, handle_apply,
}

module _ (g : Platform) (k : Codec) (f : Faults k.Content) (w : Outside) (s : Server)
    (start : Disk k.Content) (at : Moment) where
  abbrev At : Stage → Disk k.Content → Type 0
  At = Turn k s.config_path s.state_path s.settings_path s.keep_backups start

  -- What the turn has reached.
  abbrev Reached : Disk k.Content → Type 0
  Reached = Turns k s.config_path s.state_path s.settings_path s.keep_backups start

  finished-Turns :
      (uri bak : String) (n : ParsedNode) (body : k.Content) (d : Disk k.Content)
      → At wrote d
      → Reached (finished g k f w s uri n bak body at d).1
  unfolding finished
  finished-Turns uri bak n body d r =
      let st : State = record { uri = uri; label = n.label; applied_at = at } in
      (over, trimmed f (save k f s.state_path st d).1 (kept_state f st d r))

  written-Turns :
      (uri bak : String) (n : ParsedNode) (body : k.Content)
      (x : Result FileError (Unit {0}) × Disk k.Content)
      → At (after_write x.0) x.1
      → Reached (written g k f w s uri n bak body at x).1
  unfolding written
  written-Turns uri bak n body (err e, d) r = (over, r)
  written-Turns uri bak n body (ok _, d) r = finished-Turns uri bak n body d r

  backed_up-Turns :
      (uri : String) (n : ParsedNode) (body : k.Content)
      (x : Result BackupError String × Disk k.Content)
      → At (after_copy x.0) x.1
      → Reached (backed_up g k f w s uri n body at x).1
  unfolding backed_up
  backed_up-Turns uri n body (err e, d) r = (over, r)
  backed_up-Turns uri n body (ok bak, d) r = go (make_dir f (dir_of s.config_path))
    where
      go :
          (made : Result FileError (Unit {0}))
          → Reached
              (elim made as (λ _. Reply ApplyResponse × Disk k.Content) [
                | err e ↦ (refuse 500 (no_directory e), d)
                | ok _ ↦ written g k f w s uri n bak body at (write_file f s.config_path body d)
              ]).1
      go (err e) = (ready, r)
      go (ok _) =
          written-Turns uri bak n body (write_file f s.config_path body d) (overwritten f body d r)

  pub handle_apply-Turns :
      (method : String) (body : Option String) (now : Moment) (d : Disk k.Content)
      → IsCivil now
      → At fresh d
      → Reached (handle_apply g k f w method body s now at d).1
  unfolding handle_apply apply_node render_json
  handle_apply-Turns method body now d civil r = go (method == "POST") body
    where
      parsed : String → Result ParseError ParsedNode → Reply ApplyResponse × Disk k.Content
      parsed uri p = elim p [
        | err e ↦ (refuse 422 (bad_uri e), d)
        | ok n ↦ apply_node g k f w s uri n now at d
      ]

      chosen : (uri : String) (p : Result ParseError ParsedNode) → Reached (parsed uri p).1
      chosen uri (err e) = (fresh, r)
      chosen uri (ok n) =
          backed_up-Turns uri n (k.json (config_json (config_of g n.outbound s.settings)))
            (create k f s.config_path now d) (copied f now d civil r)

      go :
          (is_post : Bool) (b : Option String)
          → Reached
              (if◌then◌else◌ {A = Reply ApplyResponse × Disk k.Content}
                (not is_post)
                (refuse 405 wrong_method, d)
                (elim b as (λ _. Reply ApplyResponse × Disk k.Content) [
                  | none ↦ (refuse 400 invalid_json, d)
                  | some uri ↦ parsed uri (parse g uri)
                ])).1
      go false b = (fresh, r)
      go true none = (fresh, r)
      go true (some uri) = chosen uri (parse g uri)
