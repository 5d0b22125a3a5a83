-- ===== src/Cli/Kept.antt =====
-- cmd/singbox-helper/main.go: what a run of the program leaves on the disk.
use sing_box_helper.Prelude.{
  Bool, true, false, List, [], ◌++◌, map, Option, none, some, String, Result, ok, err, ◌≡◌, refl,
  sym, ap, subst, ◌∙◌, ◌⊎◌, inl, inr, Option-cases,
}
use sing_box_helper.Platform.{Platform}
use sing_box_helper.Stamp.{Moment}
use sing_box_helper.Paths.{clean, dir_of}
use sing_box_helper.Files.{
  FileError, not_exist, exists, failed, Faults, Disk, lookup, file_at, read_file, write_file,
  create_copy, make_dir,
}
use sing_box_helper.Files.Laws.{create_copy-lookup, read_file-ok, write_file-ok, lookup-insert_same}
use sing_box_helper.Codec.{Codec}
use sing_box_helper.Config.Settings.{Settings}
use sing_box_helper.Config.Encode.{config_json}
use sing_box_helper.Config.Render.{config_of, render_json}
use sing_box_helper.Parser.Types.{ParseError, ParsedNode}
use sing_box_helper.Parser.Dispatch.{parse}
use sing_box_helper.Backup.{create, backup_path}
use sing_box_helper.Backup.Restore.{Saved, write-Saved}
use sing_box_helper.Cli.{
  rendered, nothing, RunError, bad_uri, no_render, no_print, no_backup, no_directory, no_write,
  Message, node_warning, Terminal, backup_if_exists, backed_over, copied_over, backup_message, Ran,
  stopped, Exit, out_written, saved_over, shown, run_node, run, ended,
}
use sing_box_helper.Cli.Copies.{Matches, backup_if_exists-create}

module _ (k : Codec) (f : Faults k.Content) where
  copied_over-disk :
      (bak : String) (x : Result FileError Bool × Disk k.Content) → (copied_over k f bak x).1 ≡ x.1
  unfolding copied_over
  copied_over-disk bak (ok true, d) = refl
  copied_over-disk bak (ok false, d) = refl
  copied_over-disk bak (err e, d) = refl

  pub backed_over-lookup :
      (key bak : String) (b : k.Content) (r : Result FileError k.Content) (d : Disk k.Content)
      → lookup key d ≡ some b
      → lookup key (backed_over k f bak r d).1 ≡ some b
  unfolding backed_over
  backed_over-lookup key bak b (err (not_exist _)) d here = here
  backed_over-lookup key bak b (err (exists _)) d here = here
  backed_over-lookup key bak b (err (failed _)) d here = here
  backed_over-lookup key bak b (ok c) d here =
      ap (lookup key) (copied_over-disk bak (create_copy f k.empty bak c d))
      ∙ create_copy-lookup f key bak b k.empty c d here

  backed_over-absent :
      (out bak : String) (r : Result FileError k.Content) (d : Disk k.Content)
      → file_at out d ≡ none
      → read_file f out d ≡ r
      → (backed_over k f bak r d).1 ≡ d
  unfolding backed_over
  backed_over-absent out bak (err (not_exist _)) d gone e = refl
  backed_over-absent out bak (err (exists _)) d gone e = refl
  backed_over-absent out bak (err (failed _)) d gone e = refl
  backed_over-absent out bak (ok c) d gone e = cc (read_file-ok f out c d e)

  backup_if_exists-live :
      (out : String) (now : Moment) (d : Disk k.Content)
      → file_at out (backup_if_exists k f out now d).1 ≡ file_at out d
  unfolding backup_if_exists
  backup_if_exists-live out now d = elim (Option-cases (file_at out d)) [
    | inl gone ↦
        ap (file_at out)
          (backed_over-absent out (backup_path out now) (read_file f out d) d gone refl)
    | inr (c, here) ↦
        backed_over-lookup (clean out) (backup_path out now) c (read_file f out d) d here ∙ sym here
  ]

module _ (g : Platform) (k : Codec) (f : Faults k.Content) (t : Terminal k) (out : String)
    (now : Moment) (d : Disk k.Content) where
  -- The rendered node is in the output file, and the old content is at the name of the backup.
  abbrev pub Applied : String → Settings → Disk k.Content → Type 0
  Applied uri s d' =
      (n : ParsedNode) × (parse g uri ≡ ok n)
      × (file_at out d' ≡ some (k.json (config_json (config_of g n.outbound s))))
      × Saved k f out (backup_path out now) d d'

  -- The disk behind the error of a run with `--apply`.
  abbrev pub Left : String → Settings → Option RunError → Disk k.Content → Type 0
  Left uri s none d' = Applied uri s d'
  Left uri s (some (no_write _)) d' = Saved k f out (backup_path out now) d d'
  Left uri s (some _) d' = file_at out d' ≡ file_at out d

  backup-Saved :
      (body : k.Content) (b : Option String) (d1 : Disk k.Content)
      → Matches k f (backup_path out now) (ok b, d1) (create k f out now d)
      → Saved k f out (backup_path out now) d (write_file f out body d1).1
  backup-Saved body none d1 made = (write-Saved k f out "" now body d d1 made).1
  backup-Saved body (some b) d1 (same, made) = (write-Saved k f out b now body d d1 made).1

  module _ (uri : String) (s : Settings) (n : ParsedNode) (parsed : parse g uri ≡ ok n) where
    abbrev body : k.Content
    body = k.json (config_json (config_of g n.outbound s))

    out_written-Left :
        (ms : List Message) (b : Option String) (d1 : Disk k.Content)
        (x : Result FileError (Unit {0}) × Disk k.Content)
        → Matches k f (backup_path out now) (ok b, d1) (create k f out now d)
        → write_file f out body d1 ≡ x
        → Left uri s
            (out_written g k f t out body ms x).error
            (out_written g k f t out body ms x).disk
    unfolding out_written
    out_written-Left ms b d1 (err e, d2) made wrote =
        subst (Saved k f out (backup_path out now) d) (ap (λ x. x.1) wrote)
          (backup-Saved body b d1 made)
    out_written-Left ms b d1 (ok _, d2) made wrote = (
      n,
      parsed,
      rw (write_file-ok f out body d1 d2 wrote, lookup-insert_same (clean out) body d1),
      subst (Saved k f out (backup_path out now) d) (ap (λ x. x.1) wrote)
          (backup-Saved body b d1 made),
    )

    saved_over-Left :
        (ms : List Message) (x : Result FileError (Option String) × Disk k.Content)
        → Matches k f (backup_path out now) x (create k f out now d)
        → file_at out x.1 ≡ file_at out d
        → Left uri s
            (saved_over g k f t out body ms x).error
            (saved_over g k f t out body ms x).disk
    unfolding saved_over
    saved_over-Left ms (err e, d1) made live = live
    saved_over-Left ms (ok b, d1) made live = go (make_dir f (dir_of out))
      where
        said : List Message
        said = ms ++ backup_message b

        after_dir : Result FileError (Unit {0}) → Ran k.Content
        after_dir m = elim m [
          | err e ↦ stopped (no_directory e) said d1
          | ok _ ↦ out_written g k f t out body said (write_file f out body d1)
        ]

        go : (m : Result FileError (Unit {0})) → Left uri s (after_dir m).error (after_dir m).disk
        go (err e) = live
        go (ok _) = out_written-Left said b d1 (write_file f out body d1) made refl

    run_node-Left :
        Left uri s
          (run_node g k f t n true out s now d).error
          (run_node g k f t n true out s now d).disk
    unfolding run_node render_json
    run_node-Left =
        saved_over-Left (map node_warning n.display.notes) (backup_if_exists k f out now d)
          (backup_if_exists-create k f out now d) (backup_if_exists-live k f out now d)

  pub run-Left :
      (uri : String) (s : Settings)
      → Left uri s (run g k f t uri true out s now d).error (run g k f t uri true out s now d).disk
  unfolding run
  run-Left uri s = go (parse g uri) refl
    where
      parsed : Result ParseError ParsedNode → Ran k.Content
      parsed p = elim p [
        | err e ↦ stopped (bad_uri e) [] d
        | ok n ↦ run_node g k f t n true out s now d
      ]

      go :
          (p : Result ParseError ParsedNode)
          → parse g uri ≡ p
          → Left uri s (parsed p).error (parsed p).disk
      go (err e) got = refl
      go (ok n) got = run_node-Left uri s n got

  pub shown-disk : (body : k.Content) (ms : List Message) → (shown g k f t body ms d).disk ≡ d
  unfolding shown
  shown-disk body ms = elim (Option-cases t.stdout) [ inl e ↦ rw e refl | inr (x, e) ↦ rw e refl ]

  pub run-disk : (uri : String) (s : Settings) → (run g k f t uri false out s now d).disk ≡ d
  unfolding run run_node render_json
  run-disk uri s = go (parse g uri)
    where
      parsed : Result ParseError ParsedNode → Ran k.Content
      parsed p = elim p [
        | err e ↦ stopped (bad_uri e) [] d
        | ok n ↦ run_node g k f t n false out s now d
      ]

      go : (p : Result ParseError ParsedNode) → (parsed p).disk ≡ d
      go (err e) = refl
      go (ok n) =
          shown-disk (k.json (config_json (config_of g n.outbound s)))
            (map node_warning n.display.notes)

  -- What a run without `--apply` has printed, by its error.
  abbrev pub Shown : String → Settings → Ran k.Content → Type 0
  Shown uri s r =
      ((r.error ≡ none)
        × ((n : ParsedNode) × (parse g uri ≡ ok n)
            × (r.printed ≡ rendered (k.json (config_json (config_of g n.outbound s))))))
      ⊎ ((x : RunError) × (r.error ≡ some x) × (r.printed ≡ nothing))

  shown-Shown :
      (uri : String) (s : Settings) (n : ParsedNode) (ms : List Message)
      → parse g uri ≡ ok n
      → Shown uri s (shown g k f t (k.json (config_json (config_of g n.outbound s))) ms d)
  unfolding shown
  shown-Shown uri s n ms parsed = elim (Option-cases t.stdout) [
    | inl e ↦ rw e (inl (refl, (n, parsed, refl)))
    | inr (x, e) ↦ rw e (inr (no_print x, refl, refl))
  ]

  pub run-Shown : (uri : String) (s : Settings) → Shown uri s (run g k f t uri false out s now d)
  unfolding run run_node render_json
  run-Shown uri s = go (parse g uri) refl
    where
      parsed : Result ParseError ParsedNode → Ran k.Content
      parsed p = elim p [
        | err e ↦ stopped (bad_uri e) [] d
        | ok n ↦ run_node g k f t n false out s now d
      ]

      go : (p : Result ParseError ParsedNode) → parse g uri ≡ p → Shown uri s (parsed p)
      go (err e) got = inr (bad_uri e, refl, refl)
      go (ok n) got = shown-Shown uri s n (map node_warning n.display.notes) got

  -- What a run with `--apply` leaves, by its exit code.
  abbrev pub Ended : String → Settings → Exit k.Content → Type 0
  Ended uri s e =
      ((e.code ≡ 0) × Applied uri s e.disk)
      ⊎ ((e.code ≡ 1)
          × ((file_at out e.disk ≡ file_at out d) ⊎ Saved k f out (backup_path out now) d e.disk))

  pub ended-Ended :
      (uri : String) (s : Settings) (ms : List Message) (r : Ran k.Content) (e : Option RunError)
      → r.error ≡ e
      → Left uri s e r.disk
      → Ended uri s (ended g k f t ms r)
  unfolding ended
  ended-Ended uri s ms r none same left = rw same (inl (refl, left))
  ended-Ended uri s ms r (some (no_write _)) same left = rw same (inr (refl, inr left))
  ended-Ended uri s ms r (some (bad_uri _)) same left = rw same (inr (refl, inl left))
  ended-Ended uri s ms r (some no_render) same left = rw same (inr (refl, inl left))
  ended-Ended uri s ms r (some (no_print _)) same left = rw same (inr (refl, inl left))
  ended-Ended uri s ms r (some (no_backup _)) same left = rw same (inr (refl, inl left))
  ended-Ended uri s ms r (some (no_directory _)) same left = rw same (inr (refl, inl left))

  pub ended-disk : (ms : List Message) (r : Ran k.Content) → (ended g k f t ms r).disk ≡ r.disk
  unfolding ended
  ended-disk ms r = elim (Option-cases r.error) [ inl e ↦ rw e refl | inr (x, e) ↦ rw e refl ]
