-- ===== src/Examples/Commands.antt =====
-- Runs of the command line.
use sing_box_helper.Prelude.{◌≡◌, refl, true, false, [], ◌∷◌, none, some}
use sing_box_helper.Files.{lookup}
use sing_box_helper.Backup.{create, backup_path}
use sing_box_helper.Config.Render.{render_json}
use sing_box_helper.Cli.{Flags, Terminal, usage, nothing, backup_if_exists, run, main}
use sing_box_helper.Cli.Copies.{Matches, backup_if_exists-create}
use sing_box_helper.Cli.Ends.{Ends}
use sing_box_helper.Cli.Others.{main-lookup}
use sing_box_helper.Examples.Requests.{decoders, events}
use sing_box_helper.Examples.Toy.{toy}
use sing_box_helper.Examples.Nodes.{parses}
use sing_box_helper.Examples.Storage.{codec, calm, torn, config, disk, moment, storage, live}

abbrev flags : Flags
flags = record {
  serve = false;
  listen = "0.0.0.0:8765";
  from_uri = "vless://a";
  apply = true;
  out_path = config;
  settings_path = "/opt/config.yaml";
  show_version = false;
}

abbrev terminal : Terminal codec
terminal = record {
  stdout = none;
  decoders = decoders;
  events = λ _ _. events;
  serving = λ _ _. some "address in use";
}

usage_test :
    main toy codec calm terminal "dev" (record flags { from_uri = "" }) moment disk
    ≡ record { code = 2; printed = nothing; messages = usage ∷ []; disk = disk }
unfolding main storage
usage_test = refl

applied_test : (main toy codec calm terminal "dev" flags moment disk).code ≡ 0
unfolding main run backup_if_exists storage parses render_json
applied_test = refl

backup_if_exists-create_example :
    Matches codec torn
      (backup_path config moment)
      (backup_if_exists codec torn config moment disk)
      (create codec torn config moment disk)
backup_if_exists-create_example = backup_if_exists-create codec torn config moment disk

main-lookup_example :
    lookup "/opt/config.json.bak-20260301-000000"
      (main toy codec calm terminal "dev" flags moment disk).disk
    ≡ some live
unfolding storage
main-lookup_example =
    main-lookup toy codec calm terminal "dev" flags moment "/opt/config.json.bak-20260301-000000"
      live disk refl refl refl
