-- ===== src/Config/Render.antt =====
-- internal/config/render.go, up to the text of the JSON.
use sing_box_helper.Prelude.{true, false, List, [], ◌∷◌, Option, none, some, String, if◌then◌else◌}
use sing_box_helper.Platform.{Platform}
use sing_box_helper.Parser.Types.{Outbound, ParsedNode}
use sing_box_helper.Probe.{resolve_mixed_listen}
use sing_box_helper.Json.{Json}
use sing_box_helper.Config.Settings.{Settings}
use sing_box_helper.Config.Types.{AnyInbound, tun, mixed, node, direct, Experimental, Config}
use sing_box_helper.Config.Encode.{config_json}

-- `LANInterface`
abbrev pub lan_interface : String
lan_interface = "br0"

unfoldable pub tun_inbound : Settings → AnyInbound
tun_inbound s = tun (record {
  kind = "tun";
  tag = "tun-in";
  interface_name = s.tun_interface_name;
  address = s.tun_address ∷ [];
  mtu = s.tun_mtu;
  auto_route = false;
  strict_route = false;
  stack = s.tun_stack;
  sniff = true;
})

unfoldable pub mixed_inbounds : Platform → Settings → List AnyInbound
mixed_inbounds g s =
    if s.enable_mixed
    then mixed (record {
      kind = "mixed";
      tag = "test-proxy";
      listen = (resolve_mixed_listen g s.mixed_listen lan_interface).0;
      listen_port = s.mixed_listen_port;
    })
      ∷ []
    else []

pub experimental_of : Settings → Option Experimental
experimental_of s =
    if s.enable_clash_api
    then some (record {
      clash_api =
          some
            (record { external_controller = s.clash_api_listen; external_ui = s.clash_api_ui_dir });
    })
    else none

-- The value `cfg` of `Render`.
unfoldable pub config_of : Platform → Outbound → Settings → Config
config_of g outbound s = record {
  log = some (record { level = s.log_level; timestamp = s.log_timestamp });
  dns = some (record {
    servers = record { kind = "udp"; tag = "dns-direct"; server = s.upstream_dns } ∷ [];
    strategy = s.dns_strategy;
  });
  inbounds = tun_inbound s ∷ mixed_inbounds g s;
  outbounds = node outbound ∷ direct (record { kind = "direct"; tag = "direct" }) ∷ [];
  route = some (record {
    final = "proxy";
    rules =
        record { action = "sniff"; protocol = "" }
        ∷ record { action = "hijack-dns"; protocol = "dns" }
        ∷ [];
  });
  experimental = experimental_of s;
}

-- The document that `Render` marshals; `none` is its error for a nil node.
unfoldable pub render_json : Platform → Option ParsedNode → Settings → Option Json
render_json g none s = none
render_json g (some n) s = some (config_json (config_of g n.outbound s))
