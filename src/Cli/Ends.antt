-- ===== src/Cli/Ends.antt =====
-- cmd/singbox-helper/main.go: the exit code and the disk of the whole program.
use sing_box_helper.Prelude.{
  ◌≢◌, ok, Bool, true, false, [], ◌∷◌, ◌++◌, none, String, ◌==◌, if◌then◌else◌, ◌≡◌, refl, ◌⊎◌, inl,
  inr,
}
use sing_box_helper.Platform.{Platform}
use sing_box_helper.Stamp.{Moment}
use sing_box_helper.Files.{Faults, Disk}
use sing_box_helper.Codec.{Codec}
use sing_box_helper.Config.Settings.{Settings}
use sing_box_helper.State.{load_settings}
use sing_box_helper.Cli.{
  Flags, usage, started, Terminal, nothing, version_line, Exit, run, served, ended, ended_server,
  settings_or_default, main,
}
use sing_box_helper.Web.{Server}
use sing_box_helper.Web.Routes.Served.{handled_all}
use sing_box_helper.Parser.Types.{ParsedNode}
use sing_box_helper.Parser.Dispatch.{parse}
use sing_box_helper.Config.Encode.{config_json}
use sing_box_helper.Config.Render.{config_of}
use sing_box_helper.Cli.{served_disk, rendered}
use sing_box_helper.Cli.Kept.{Ended, ended-disk}

module _ (g : Platform) (k : Codec) (f : Faults k.Content) (t : Terminal k) (name : String)
    (o : Flags) (now : Moment) (d : Disk k.Content) where
  -- The settings of the run: those of the settings file, or the defaults if it cannot be loaded.
  abbrev pub loaded : Settings
  loaded = (settings_or_default g k f t (load_settings k f o.settings_path d)).0

  abbrev pub server : Server
  server = served name o.settings_path loaded

  -- The end of a server: its exit code is 0 exactly if `ListenAndServe` ends without an error.
  abbrev pub EndsServing : Exit k.Content → Type 0
  EndsServing e =
      (e.disk ≡ (handled_all g k t.decoders (t.events server o.listen) (server, d)).1)
      × (e.printed ≡ nothing)
      × (((e.code ≡ 0) × (t.serving server o.listen ≡ none))
          ⊎ ((e.code ≡ 1) × (t.serving server o.listen ≢ none)))

  -- The end of a run that prints: with exit code 0 it has printed the configuration of the node.
  abbrev pub EndsPrinting : Exit k.Content → Type 0
  EndsPrinting e =
      (e.disk ≡ d)
      × (((e.code ≡ 0)
            × ((n : ParsedNode) × (parse g o.from_uri ≡ ok n)
                × (e.printed ≡ rendered (k.json (config_json (config_of g n.outbound loaded))))))
          ⊎ ((e.code ≡ 1) × (e.printed ≡ nothing)))

  -- The five ends, by the flags.
  pub data Ends (e : Exit k.Content) : Type 0 where
    tells_version :
        o.show_version ≡ true → e.code ≡ 0 → e.printed ≡ version_line name → e.disk ≡ d → Ends e
    serves : o.show_version ≡ false → o.serve ≡ true → EndsServing e → Ends e
    needs_uri :
        o.show_version ≡ false
        → o.serve ≡ false
        → (o.from_uri == "") ≡ true
        → e.code ≡ 2
        → e.printed ≡ nothing
        → e.disk ≡ d
        → Ends e
    prints :
        o.show_version ≡ false
        → o.serve ≡ false
        → (o.from_uri == "") ≡ false
        → o.apply ≡ false
        → EndsPrinting e
        → Ends e
    applies :
        o.show_version ≡ false
        → o.serve ≡ false
        → (o.from_uri == "") ≡ false
        → o.apply ≡ true
        → Ended g k f t o.out_path now d o.from_uri loaded e
        → Ends e

  -- The end by its three tests: a version, a server, no URI.
  abbrev exit_of : Bool → Bool → Bool → Exit k.Content
  exit_of is_version is_server is_empty =
      let (s, ms) = settings_or_default g k f t (load_settings k f o.settings_path d) in
      if is_version
      then record { code = 0; printed = version_line name; messages = []; disk = d }
      else if is_server
      then ended_server g k f t (ms ++ (started o.listen o.settings_path ∷ []))
          (served_disk g k f t (served name o.settings_path s) o.listen d)
          (t.serving (served name o.settings_path s) o.listen)
      else if is_empty
      then record { code = 2; printed = nothing; messages = ms ++ (usage ∷ []); disk = d }
      else ended g k f t ms (run g k f t o.from_uri o.apply o.out_path s now d)

  -- Unless it serves, the disk at the end is the first one or that of the run.
  pub main-disk :
      o.serve ≡ false
      → ((main g k f t name o now d).disk ≡ d)
        ⊎ ((main g k f t name o now d).disk
            ≡ (run g k f t o.from_uri o.apply o.out_path loaded now d).disk)
  unfolding main
  main-disk alone = go o.show_version o.serve (o.from_uri == "") alone
    where
      go :
          (is_version is_server is_empty : Bool)
          → is_server ≡ false
          → ((exit_of is_version is_server is_empty).disk ≡ d)
            ⊎ ((exit_of is_version is_server is_empty).disk
                ≡ (run g k f t o.from_uri o.apply o.out_path loaded now d).disk)
      go true is_server is_empty h = inl refl
      go false true is_empty h = cc
      go false false true h = inl refl
      go false false false h = inr (
          ended-disk g k f t o.out_path now d
            (settings_or_default g k f t (load_settings k f o.settings_path d)).1
            (run g k f t o.from_uri o.apply o.out_path loaded now d))
