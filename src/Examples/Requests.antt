-- ===== src/Examples/Requests.antt =====
-- A server under a few requests.
use sing_box_helper.Prelude.{[], ◌≡◌, refl, ◌∷◌, some, none, ok, List, ◌==◌, if◌then◌else◌}
use sing_box_helper.Config.Settings.{default_settings}
use sing_box_helper.State.{load_settings}
use sing_box_helper.Web.Nodes.{handle_apply}
use sing_box_helper.Web.Preferences.Kept.{IsUsable, validate_settings-IsUsable}
use sing_box_helper.Web.Requests.{World}
use sing_box_helper.Web.Routes.{page_of, Decoders, Request, Around, handle_page, serve}
use sing_box_helper.Web.Routes.Served.{
  Event, asked, noted, handled_all, serve-unchanged, load_settings-handled_all,
}
use sing_box_helper.Examples.Service.{console}
use sing_box_helper.Web.Requests.Settled.{IsSettled}
use sing_box_helper.Examples.Toy.{toy}
use sing_box_helper.Examples.Storage.{
  codec, codec-IsLawful, calm, torn, disk, moment, storage, as_yaml,
}
use sing_box_helper.Examples.Pages.{home, outside, pages, changed}

abbrev started : World codec
started = (home, ("/opt/etc/singbox-helper/config.yaml", as_yaml default_settings) ∷ disk)

abbrev pub decoders : Decoders
decoders = record {
  uri = λ body. some body;
  settings = λ body. if body == "changed" then some changed else none;
  file = λ body. some body;
}

abbrev calmly : Around codec
calmly = record { faults = calm; outside = outside; console = console; now = moment; at = moment }

abbrev asking : Request
asking = record {
  path = "/api/apply";
  method = "GET";
  body = "vless://a";
  file = "";
  source = "";
  lines = "";
}

-- A post of new settings, a line of the log, and an apply whose write fails.
abbrev pub events : List (Event codec)
events =
    asked calmly (record asking { path = "/api/settings"; method = "POST"; body = "changed" })
    ∷ noted 7 (b'a' ∷ b'\n' ∷ [])
    ∷ asked (record calmly { faults = torn }) (record asking { method = "POST" })
    ∷ []

serve-unchanged_example : (serve toy codec decoders calmly asking started).1 ≡ started
unfolding page_of
serve-unchanged_example = serve-unchanged toy codec decoders calmly asking started refl

started-IsSettled : IsSettled codec started.0.settings_path started
unfolding storage pages
started-IsSettled = record {
  laid_out = record {
    apart = record { config = refl; state = refl; state_tmp = refl; no_backup = refl };
    tmp = refl;
    given = refl;
  };
  same_path = refl;
  usable = validate_settings-IsUsable default_settings refl;
  content = as_yaml default_settings;
  stored = refl;
  decoded = refl;
}

abbrev finished : World codec
finished = handled_all toy codec decoders events started

load_settings-handled_all_example :
    (load_settings codec calm started.0.settings_path finished.1 ≡ ok finished.0.settings)
    × IsUsable finished.0.settings
load_settings-handled_all_example =
    load_settings-handled_all toy codec decoders codec-IsLawful calm started events
      started-IsSettled refl

-- The settings that were posted are in memory.
settings_test : finished.0.settings ≡ changed
unfolding storage pages page_of serve handle_page handle_apply
settings_test = refl
