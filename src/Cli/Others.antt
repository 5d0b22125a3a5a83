-- ===== src/Cli/Others.antt =====
-- cmd/singbox-helper/main.go: the files beside the output file.
use sing_box_helper.Prelude.{
  Bool, true, false, List, [], ◌++◌, map, Option, some, String, ◌==◌, Result, ok, err, ◌≡◌, refl,
  ap, ◌∙◌, inl, inr,
}
use sing_box_helper.Platform.{Platform}
use sing_box_helper.Stamp.{Moment}
use sing_box_helper.Paths.{clean, dir_of}
use sing_box_helper.Files.{FileError, Faults, Disk, lookup, read_file, write_file, make_dir}
use sing_box_helper.Files.Laws.{write_file-lookup}
use sing_box_helper.Codec.{Codec}
use sing_box_helper.Config.Settings.{Settings}
use sing_box_helper.Config.Encode.{config_json}
use sing_box_helper.Config.Render.{config_of, render_json}
use sing_box_helper.Parser.Types.{ParseError, ParsedNode}
use sing_box_helper.Parser.Dispatch.{parse}
use sing_box_helper.Backup.{backup_path}
use sing_box_helper.Cli.{
  Flags, bad_uri, no_directory, Message, node_warning, Terminal, backup_if_exists, backup_message,
  Ran, stopped, out_written, saved_over, run_node, run, main,
}
use sing_box_helper.Cli.Kept.{backed_over-lookup, run-disk}
use sing_box_helper.Cli.Ends.{main-disk, loaded}

module _ (g : Platform) (k : Codec) (f : Faults k.Content) (t : Terminal k) (out key : String)
    (now : Moment) (c : k.Content) (d : Disk k.Content) (other : (clean out == key) ≡ false)
    (here : lookup key d ≡ some c) where
  out_written-disk :
      (body : k.Content) (ms : List Message) (x : Result FileError (Unit {0}) × Disk k.Content)
      → (out_written g k f t out body ms x).disk ≡ x.1
  unfolding out_written
  out_written-disk body ms (ok _, d1) = refl
  out_written-disk body ms (err e, d1) = refl

  saved_over-lookup :
      (body : k.Content) (ms : List Message) (x : Result FileError (Option String) × Disk k.Content)
      → lookup key x.1 ≡ some c
      → lookup key (saved_over g k f t out body ms x).disk ≡ some c
  unfolding saved_over
  saved_over-lookup body ms (err e, d1) there = there
  saved_over-lookup body ms (ok b, d1) there = go (make_dir f (dir_of out))
    where
      said : List Message
      said = ms ++ backup_message b

      go :
          (m : Result FileError (Unit {0}))
          → lookup key (
              Ran.disk (elim m [
                | err e ↦ stopped (no_directory e) said d1
                | ok _ ↦ out_written g k f t out body said (write_file f out body d1)
              ]))
            ≡ some c
      go (err e) = there
      go (ok _) =
          ap (lookup key) (out_written-disk body said (write_file f out body d1))
          ∙ (write_file-lookup f key out body d1 other ∙ there)

  backup_if_exists-lookup : lookup key (backup_if_exists k f out now d).1 ≡ some c
  unfolding backup_if_exists
  backup_if_exists-lookup =
      backed_over-lookup k f key (backup_path out now) c (read_file f out d) d here

  run-lookup :
      (uri : String) (apply : Bool) (s : Settings)
      → lookup key (run g k f t uri apply out s now d).disk ≡ some c
  unfolding run run_node render_json
  run-lookup uri false s = ap (lookup key) (run-disk g k f t out now d uri s) ∙ here
  run-lookup uri true s = go (parse g uri)
    where
      go :
          (p : Result ParseError ParsedNode)
          → lookup key (
              Ran.disk (elim p [
                | err e ↦ stopped (bad_uri e) [] d
                | ok n ↦ run_node g k f t n true out s now d
              ]))
            ≡ some c
      go (err e) = here
      go (ok n) =
          saved_over-lookup (k.json (config_json (config_of g n.outbound s)))
            (map node_warning n.display.notes) (backup_if_exists k f out now d)
            backup_if_exists-lookup

-- A run of the program that does not serve changes or removes no file that exists, but the output
-- file, whichever call of the file system fails.
pub main-lookup :
    (g : Platform) (k : Codec) (f : Faults k.Content) (t : Terminal k) (name : String) (o : Flags)
    (now : Moment) (key : String) (c : k.Content) (d : Disk k.Content)
    → o.serve ≡ false
    → (clean o.out_path == key) ≡ false
    → lookup key d ≡ some c
    → lookup key (main g k f t name o now d).disk ≡ some c
main-lookup g k f t name o now key c d alone other here =
    elim (main-disk g k f t name o now d alone) [
      | inl same ↦ ap (lookup key) same ∙ here
      | inr same ↦
          ap (lookup key) same
          ∙ run-lookup g k f t o.out_path key now c d other here o.from_uri o.apply
              (loaded g k f t name o now d)
    ]
