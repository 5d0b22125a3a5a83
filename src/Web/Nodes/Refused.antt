-- ===== src/Web/Nodes/Refused.antt =====
-- internal/web/handlers.go: what an apply that is refused leaves.
use sing_box_helper.Prelude.{
  Bool, true, false, not, Option, none, some, String, ◌==◌, Result, ok, err, if◌then◌else◌, ◌≡◌,
  refl, subst, ap,
}
use sing_box_helper.Platform.{Platform}
use sing_box_helper.Stamp.{Moment}
use sing_box_helper.Paths.{dir_of}
use sing_box_helper.Files.{FileError, Faults, Disk, file_at, write_file, make_dir}
use sing_box_helper.Codec.{Codec}
use sing_box_helper.Config.Encode.{config_json}
use sing_box_helper.Config.Render.{config_of, render_json}
use sing_box_helper.Parser.Types.{ParsedNode, ParseError}
use sing_box_helper.Parser.Dispatch.{parse}
use sing_box_helper.Backup.{BackupError, create, backup_path}
use sing_box_helper.Backup.Restore.{Saved, create-live, write-Saved}
use sing_box_helper.Web.{
  Server, Reply, reply, refuse, no_directory, no_write, bad_uri, wrong_method, invalid_json,
}
use sing_box_helper.Web.Nodes.{ApplyResponse, Outside, written, backed_up, apply_node, handle_apply}

module _ (g : Platform) (k : Codec) (f : Faults k.Content) (w : Outside) (s : Server)
    (now at : Moment) (d : Disk k.Content) where
  abbrev pub Spared : Reply ApplyResponse × Disk k.Content → Type 0
  Spared (reply _, _) = Unit
  Spared (refuse _ (no_write _), d') = Saved k f s.config_path (backup_path s.config_path now) d d'
  Spared (refuse _ _, d') = file_at s.config_path d' ≡ file_at s.config_path d

  written-Spared :
      (uri bak : String) (n : ParsedNode) (body : k.Content) (d1 : Disk k.Content)
      (x : Result FileError (Unit {0}) × Disk k.Content)
      → create k f s.config_path now d ≡ (ok bak, d1)
      → write_file f s.config_path body d1 ≡ x
      → Spared (written g k f w s uri n bak body at x)
  unfolding written
  written-Spared uri bak n body d1 (err e, d2) made wrote =
      subst (Saved k f s.config_path (backup_path s.config_path now) d) (ap (λ x. x.1) wrote)
        (write-Saved k f s.config_path bak now body d d1 made).1
  written-Spared uri bak n body d1 (ok _, d2) made wrote = tt

  backed_up-Spared :
      (uri : String) (n : ParsedNode) (body : k.Content)
      (x : Result BackupError String × Disk k.Content)
      → create k f s.config_path now d ≡ x
      → Spared (backed_up g k f w s uri n body at x)
  unfolding backed_up
  backed_up-Spared uri n body (err e, d1) made =
      subst (λ x. file_at s.config_path x.1 ≡ file_at s.config_path d) made
        (create-live k f s.config_path now d)
  backed_up-Spared uri n body (ok bak, d1) made = go (make_dir f (dir_of s.config_path))
    where
      go :
          (m : Result FileError (Unit {0}))
          → Spared (elim m [
            | err e ↦ (refuse 500 (no_directory e), d1)
            | ok _ ↦ written g k f w s uri n bak body at (write_file f s.config_path body d1)
          ])
      go (err e) =
          subst (λ x. file_at s.config_path x.1 ≡ file_at s.config_path d) made
            (create-live k f s.config_path now d)
      go (ok _) = written-Spared uri bak n body d1 (write_file f s.config_path body d1) made refl

  parsed-Spared :
      (uri : String) (p : Result ParseError ParsedNode)
      → Spared (elim p [
        | err e ↦ (refuse 422 (bad_uri e), d)
        | ok n ↦ apply_node g k f w s uri n now at d
      ])
  unfolding apply_node render_json
  parsed-Spared uri (err e) = refl
  parsed-Spared uri (ok n) =
      backed_up-Spared uri n (k.json (config_json (config_of g n.outbound s.settings)))
        (create k f s.config_path now d) refl

  -- An apply that is refused leaves the live configuration as it was, or, where its last write
  -- failed, has saved the old content in the backup of that moment, unless there was none.
  pub handle_apply-Spared :
      (method : String) (body : Option String)
      → Spared (handle_apply g k f w method body s now at d)
  unfolding handle_apply
  handle_apply-Spared method body = go (method == "POST") body
    where
      go :
          (post : Bool) (b : Option String)
          → Spared (
              if not post then (refuse 405 wrong_method, d) else elim b [
                | none ↦ (refuse 400 invalid_json, d)
                | some uri ↦ elim (parse g uri) [
                  | err e ↦ (refuse 422 (bad_uri e), d)
                  | ok n ↦ apply_node g k f w s uri n now at d
                ]
              ])
      go false b = refl
      go true none = refl
      go true (some uri) = parsed-Spared uri (parse g uri)
