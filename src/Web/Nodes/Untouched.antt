-- ===== src/Web/Nodes/Untouched.antt =====
-- internal/web/handlers.go: the files beside the configuration and the state in an apply.
use sing_box_helper.Prelude.{
  Bool, true, false, not, Option, none, some, String, ◌==◌, Result, ok, err, if◌then◌else◌, ◌≡◌,
  ◌∙◌,
}
use sing_box_helper.Platform.{Platform}
use sing_box_helper.Stamp.{Moment}
use sing_box_helper.Paths.{clean, base_of, dir_of}
use sing_box_helper.Files.{FileError, Faults, Disk, lookup, write_file, make_dir}
use sing_box_helper.Files.Laws.{write_file-lookup}
use sing_box_helper.Codec.{Codec}
use sing_box_helper.Config.Encode.{config_json}
use sing_box_helper.Config.Render.{config_of, render_json}
use sing_box_helper.Parser.Types.{ParseError, ParsedNode}
use sing_box_helper.Parser.Dispatch.{parse}
use sing_box_helper.Backup.{BackupError, stamp_of_name, create}
use sing_box_helper.Backup.Create.{create-lookup}
use sing_box_helper.Backup.Spared.{trim-spares}
use sing_box_helper.State.{tmp_path, save}
use sing_box_helper.State.Beside.{save-lookup}
use sing_box_helper.State.Types.{State}
use sing_box_helper.Web.{Server, Reply, refuse, wrong_method, invalid_json, bad_uri, no_directory}
use sing_box_helper.Web.Nodes.{
  ApplyResponse, Outside, finished, written, backed_up, apply_node, handle_apply,
}

-- A file that is neither the configuration nor the state, nor its temporary file, nor named as a
-- backup.
pub record IsApart (s : Server) (key : String) : Type 0 where
  pub config : (clean s.config_path == key) ≡ false
  pub state : (clean s.state_path == key) ≡ false
  pub state_tmp : (clean (tmp_path s.state_path) == key) ≡ false
  pub no_backup : stamp_of_name s.config_path (base_of key) ≡ none

module _ (g : Platform) (k : Codec) (f : Faults k.Content) (w : Outside) (s : Server) (key : String)
    (apart : IsApart s key) (c : k.Content) (at : Moment) where
  finished-lookup :
      (uri bak : String) (n : ParsedNode) (body : k.Content) (d : Disk k.Content)
      → lookup key d ≡ some c
      → lookup key (finished g k f w s uri n bak body at d).1 ≡ some c
  unfolding finished
  finished-lookup uri bak n body d here =
      let st : State = record { uri = uri; label = n.label; applied_at = at } in
      trim-spares k f s.config_path key s.keep_backups (save k f s.state_path st d).1
        apart.no_backup
      ∙ (save-lookup k f key s.state_path st d apart.state_tmp apart.state ∙ here)

  written-lookup :
      (uri bak : String) (n : ParsedNode) (body : k.Content)
      (x : Result FileError (Unit {0}) × Disk k.Content)
      → lookup key x.1 ≡ some c
      → lookup key (written g k f w s uri n bak body at x).1 ≡ some c
  unfolding written
  written-lookup uri bak n body (err e, d) here = here
  written-lookup uri bak n body (ok _, d) here = finished-lookup uri bak n body d here

  backed_up-lookup :
      (uri : String) (n : ParsedNode) (body : k.Content)
      (x : Result BackupError String × Disk k.Content)
      → lookup key x.1 ≡ some c
      → lookup key (backed_up g k f w s uri n body at x).1 ≡ some c
  unfolding backed_up
  backed_up-lookup uri n body (err e, d) here = here
  backed_up-lookup uri n body (ok bak, d) here = go (make_dir f (dir_of s.config_path))
    where
      go :
          (m : Result FileError (Unit {0}))
          → lookup key
              (elim m as (λ _. Reply ApplyResponse × Disk k.Content) [
                | err e ↦ (refuse 500 (no_directory e), d)
                | ok _ ↦ written g k f w s uri n bak body at (write_file f s.config_path body d)
              ]).1
            ≡ some c
      go (err e) = here
      go (ok _) =
          written-lookup uri bak n body (write_file f s.config_path body d)
            (write_file-lookup f key s.config_path body d apart.config ∙ here)

  -- An apply changes no file that exists but those of its own.
  pub handle_apply-lookup :
      (method : String) (body : Option String) (now : Moment) (d : Disk k.Content)
      → lookup key d ≡ some c
      → lookup key (handle_apply g k f w method body s now at d).1 ≡ some c
  unfolding handle_apply apply_node render_json
  handle_apply-lookup method body now d here = go (method == "POST") body
    where
      parsed : String → Result ParseError ParsedNode → Reply ApplyResponse × Disk k.Content
      parsed uri p = elim p [
        | err e ↦ (refuse 422 (bad_uri e), d)
        | ok n ↦ apply_node g k f w s uri n now at d
      ]

      node :
          (uri : String) (p : Result ParseError ParsedNode) → lookup key (parsed uri p).1 ≡ some c
      node uri (err e) = here
      node uri (ok n) =
          backed_up-lookup uri n (k.json (config_json (config_of g n.outbound s.settings)))
            (create k f s.config_path now d) (create-lookup k f s.config_path key now d c here)

      go :
          (is_post : Bool) (b : Option String)
          → lookup key
              (if◌then◌else◌ {A = Reply ApplyResponse × Disk k.Content}
                (not is_post)
                (refuse 405 wrong_method, d)
                (elim b as (λ _. Reply ApplyResponse × Disk k.Content) [
                  | none ↦ (refuse 400 invalid_json, d)
                  | some uri ↦ parsed uri (parse g uri)
                ])).1
            ≡ some c
      go false b = here
      go true none = here
      go true (some uri) = node uri (parse g uri)
