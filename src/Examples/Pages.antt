-- ===== src/Examples/Pages.antt =====
-- The settings page.
use sing_box_helper.Prelude.{
  ◌≡◌, refl, true, [], ◌∷◌, ◌==◌, if◌then◌else◌, Option, none, some, ok, String, pos,
}
use sing_box_helper.Text.{split, strip_prefix, trim_space, before, atoi, itoa}
use sing_box_helper.Paths.{clean, dir_of, base_of, join_path}
use sing_box_helper.Config.Settings.{Settings, default_settings}
use sing_box_helper.Files.{
  lookup, insert, erase, stat_file, read_file, write_file, remove_file, rename_file, create_copy,
  make_dir,
}
use sing_box_helper.State.{load, save_settings, load_settings}
use sing_box_helper.Web.{
  Server, new_server, reply, refuse, restart_sing_box, read_state, bad_setting, tun_mtu,
}
use sing_box_helper.Web.Preferences.{
  validate_settings, settings_response, idle, handle_settings_post, handle_settings,
}
use sing_box_helper.Web.Preferences.Kept.{Handled, handle_settings-Handled}
use sing_box_helper.Web.Preferences.Stored.{load_settings-handle_settings_post}
use sing_box_helper.Files.{not_exist, failed, Faults, no_fault, cut}
use sing_box_helper.Web.Nodes.Refused.{Spared, handle_apply-Spared}
use sing_box_helper.Probe.{proto_network}
use sing_box_helper.Readback.{protocol_label}
use sing_box_helper.Config.Render.{config_of, render_json}
use sing_box_helper.Web.{no_script, no_write}
use sing_box_helper.Probe.Runtime.{
  Machine, first_line, process_of, first_process, find_process, sing_box_version, collect_status,
  run_curl, direct_ip, tunnel_ip, join_host_port, reach,
}
use sing_box_helper.Web.Nodes.{status_response, ApplyResponse, Outside, handle_apply, handle_status}
use sing_box_helper.Web.Nodes.Managed.{handle_status-handle_apply}
use sing_box_helper.Examples.Nodes.{parses, vless_of}
use sing_box_helper.Examples.Toy.{toy, uuid_a}
use sing_box_helper.Examples.Storage.{
  codec, codec-IsLawful, calm, moment, disk, config, storage, blank, Body,
}

abbrev pub quiet : String → Option String
quiet _ = none

abbrev pub server : Server
server = new_server default_settings

abbrev pub changed : Settings
changed = record default_settings { tun_mtu = pos 1400; mixed_listen = "127.0.0.1" }

unfoldable pub pages : Unit {0}
unfolding split strip_prefix clean dir_of base_of join_path lookup insert erase stat_file read_file
    write_file remove_file rename_file create_copy make_dir load save_settings load_settings
    new_server restart_sing_box read_state validate_settings settings_response handle_settings_post
    handle_settings
pages = tt

unfoldable pub probes : Unit {0}
unfolding split trim_space before atoi itoa first_line process_of first_process find_process
    sing_box_version collect_status run_curl direct_ip tunnel_ip join_host_port reach
    status_response handle_status
probes = tt

mtu_test :
    handle_settings toy codec calm quiet "POST"
      (some (record changed { tun_mtu = pos 0 }))
      server
      moment
      disk
    ≡ (refuse 422 (bad_setting tun_mtu), (server, disk))
unfolding pages
mtu_test = refl

handle_settings-Handled_example :
    Handled toy codec calm quiet server moment disk
      (handle_settings toy codec calm quiet "POST" (some changed) server moment disk)
unfolding pages
handle_settings-Handled_example =
    handle_settings-Handled toy codec calm quiet server moment disk refl "POST" (some changed)

load_settings-handle_settings_post_example :
    load_settings codec calm server.settings_path
      (handle_settings_post toy codec calm quiet (some changed) server moment disk).1.1
    ≡ ok changed
unfolding pages
load_settings-handle_settings_post_example =
    load_settings-handle_settings_post toy codec calm quiet codec-IsLawful server changed moment
      disk (settings_response toy changed idle) refl refl refl refl refl

abbrev machine : Machine
machine = record {
  proc = some (("self", true) ∷ ("1", true) ∷ ("77", true) ∷ []);
  open_file = λ path. if path == "/proc/77/comm" then some "sing-box\n" else some "init\n";
  version = some "sing-box version 1.13.0\n\nTags: with_quic";
  interface = λ name. if name == "singtun" then some true else none;
  curl = λ _. ok "203.0.113.5\n";
  dial = λ _ _. none;
}

abbrev pub outside : Outside
outside = record { machine = machine; run = quiet }

abbrev pub home : Server
home = record server { config_path = config; keep_backups = pos 1 }

abbrev answer : ApplyResponse
answer = record {
  display = (vless_of uuid_a).display;
  label = "home";
  backup_path = "/opt/config.json.bak-20260521-102030";
  config_size = 1;
  reach = record { network = "tcp"; error = none };
  problems = record {
    restart = some (no_script (not_exist "/opt/etc/init.d/S99sing-box"));
    state_save = none;
    trimming = none;
  };
}

handle_status-handle_apply_example :
    handle_status toy codec calm outside "GET" home
      (handle_apply toy codec calm outside "POST" (some "vless://a") home moment moment disk).1
    ≡ reply (record {
      status = record {
        running = some (pos 77);
        version = "sing-box version 1.13.0";
        tun_up = true;
        tun_name = "singtun";
      };
      helper_version = "";
      current_node = some (record {
        managed = true;
        label = "home";
        uri = "vless://a";
        applied_at = some moment;
        protocol = "VLESS";
        server = "node.example.com";
        port = pos 443;
      });
    })
unfolding parses pages storage probes handle_apply proto_network protocol_label render_json
    config_of
handle_status-handle_apply_example =
    handle_status-handle_apply toy codec calm outside home "vless://a" (vless_of uuid_a) moment refl
      refl refl refl refl codec-IsLawful moment disk answer refl refl refl refl refl

-- The write of the live configuration stops halfway.
abbrev halted : Faults Body
halted = record calm { write = λ path. if path == config then cut blank else no_fault }

halted_test :
    (handle_apply toy codec halted outside "POST" (some "vless://a") home moment moment disk).0
    ≡ refuse 500 (no_write (failed config))
unfolding parses pages storage handle_apply proto_network render_json config_of
halted_test = refl

handle_apply-Spared_example :
    Spared toy codec halted outside home moment moment disk
      (handle_apply toy codec halted outside "POST" (some "vless://a") home moment moment disk)
handle_apply-Spared_example =
    handle_apply-Spared toy codec halted outside home moment moment disk "POST" (some "vless://a")
