-- ===== src/Examples/Nodes.antt =====
-- Parsing, rendering and reading back.
use sing_box_helper.Prelude.{
  ◌≡◌, refl, true, false, [], ◌∷◌, some, ok, err, String, pos, arith, eq_iff, ◌≢◌,
}
use sing_box_helper.Text.{trim_space, to_lower, equal_fold, split, atoi}
use sing_box_helper.Platform.{Url, query_get}
use sing_box_helper.Parser.Types.{ParsedNode, socks4_auth_ignored, empty_uri, bad_url}
use sing_box_helper.Parser.Common.{
  port_number, host_port, parse_bool_flag, alpn_list, sni_or_host, fragment_label,
}
use sing_box_helper.Parser.Hysteria.{hysteria_tls, hysteria_obfs, hysteria_node, parse_hysteria2}
use sing_box_helper.Parser.Vless.{
  is_uuid, extract_uuid, pick_transport, pick_security, pick_flow, build_tls, build_reality,
  security_tls, build_transport, vless_node, parse_vless, vless_result,
}
use sing_box_helper.Parser.Vless.Laws.{SecurityBlock, vless_node-SecurityBlock}
use sing_box_helper.Parser.Vless.Transports.{TransportBlock, vless_node-TransportBlock}
use sing_box_helper.Parser.Socks.{
  socks_version, is_loopback, is_local_host, location_hint, credentials, socks_node, parse_socks,
  socks_result,
}
use sing_box_helper.Parser.Dispatch.{parse_scheme, parse}
use sing_box_helper.Parser.Schemes.{node_of, parse-node_of}
use sing_box_helper.Parser.Shape.{IsWellFormed, parse-IsWellFormed}
use sing_box_helper.Parser.Logins.{Login, parse-Login}
use sing_box_helper.Parser.Redaction.{parse-display_hides_user}
use sing_box_helper.Config.Settings.{default_settings}
use sing_box_helper.Config.Render.{render_json}
use sing_box_helper.Readback.{read_current_outbound, summary_outbound}
use sing_box_helper.Readback.Rendered.{snapshot_of, read-render}
use sing_box_helper.Examples.Toy.{
  toy, toy-LowersScheme, uuid_a, uuid_b, login, vless_url, vless_as, socks_url,
}

unfoldable pub parses : Unit {0}
unfolding toy trim_space to_lower equal_fold split atoi query_get port_number host_port
    parse_bool_flag alpn_list sni_or_host fragment_label hysteria_tls hysteria_obfs hysteria_node
    parse_hysteria2 is_uuid extract_uuid pick_transport pick_security pick_flow build_tls
    build_reality security_tls build_transport vless_node parse_vless socks_version is_loopback
    is_local_host location_hint credentials socks_node parse_socks parse_scheme parse
parses = tt

abbrev pub vless_of : String → ParsedNode
vless_of uuid = vless_result toy (vless_as uuid) uuid "node.example.com" (pos 443) "xhttp" "" (
    some (record {
      enabled = true;
      server_name = "yahoo.com";
      insecure = false;
      alpn = [];
      utls = some (record { enabled = true; fingerprint = "chrome" });
      reality = some (record { enabled = true; public_key = "key"; short_id = "" });
    }))

vless_test : parse toy " vless://a\n" ≡ ok (vless_of uuid_a)
unfolding parses
vless_test = refl

socks_test :
    parse toy "socks4://joe"
    ≡ ok (
        socks_result toy socks_url "4" "127.0.0.1"
          (pos 1080)
          (record { username = ""; password = ""; notes = socks4_auth_ignored ∷ [] }))
unfolding parses
socks_test = refl

refused : (parse toy "  " ≡ err empty_uri) × (parse toy "ss://x" ≡ err (bad_url "unknown"))
unfolding parses
refused = (refl, refl)

parsed_a : parse toy "vless://a" ≡ ok (vless_of uuid_a)
unfolding parses
parsed_a = refl

parsed_b : parse toy "vless://b" ≡ ok (vless_of uuid_b)
unfolding parses
parsed_b = refl

known_as :
    (toy.parse_url (trim_space "vless://a") ≡ ok (vless_as uuid_a))
    × (toy.parse_url (trim_space "vless://b") ≡ ok (vless_as uuid_b))
unfolding parses
known_as = (refl, refl)

read-render_example :
    (read_current_outbound (render_json toy (some (vless_of uuid_a)) default_settings)
      ≡ some (snapshot_of (vless_of uuid_a).outbound))
    × (summary_outbound (render_json toy (some (vless_of uuid_a)) default_settings)
        ≡ some (snapshot_of (vless_of uuid_a).outbound))
read-render_example = read-render toy "vless://a" (vless_of uuid_a) default_settings parsed_a

parse-IsWellFormed_example : IsWellFormed (vless_of uuid_a)
parse-IsWellFormed_example = parse-IsWellFormed toy "vless://a" (vless_of uuid_a) parsed_a

parse-Login_example :
    (u : Url) × (toy.parse_url (trim_space "vless://a") ≡ ok u) × Login u (vless_of uuid_a).outbound
parse-Login_example = parse-Login toy "vless://a" (vless_of uuid_a) parsed_a

not_blank : trim_space "vless://a" ≢ ""
unfolding parses
not_blank = ground (arith, eq_iff "vless://a" "")

parse-node_of_example : parse toy "vless://a" ≡ node_of toy (vless_as uuid_a)
parse-node_of_example =
    parse-node_of toy "vless://a" (vless_as uuid_a) known_as.0 toy-LowersScheme not_blank

node_a : vless_node toy (vless_as uuid_a) ≡ ok (vless_of uuid_a)
unfolding parses
node_a = refl

security_a : pick_security toy (query_get (vless_as uuid_a).query "security") ≡ ok "reality"
unfolding parses
security_a = refl

transport_a : pick_transport toy (query_get (vless_as uuid_a).query "type") ≡ ok "xhttp"
unfolding parses
transport_a = refl

vless_node-SecurityBlock_example : SecurityBlock "reality" (vless_of uuid_a).outbound.tls
vless_node-SecurityBlock_example =
    vless_node-SecurityBlock toy (vless_as uuid_a) (vless_of uuid_a) "reality" node_a security_a

vless_node-TransportBlock_example : TransportBlock "xhttp" (vless_of uuid_a)
vless_node-TransportBlock_example =
    vless_node-TransportBlock toy (vless_as uuid_a) (vless_of uuid_a) "xhttp" node_a transport_a

parse-display_hides_user_example : (vless_of uuid_a).display ≡ (vless_of uuid_b).display
parse-display_hides_user_example =
    parse-display_hides_user toy "vless://a" "vless://b" vless_url (login uuid_a) (login uuid_b)
      (vless_of uuid_a) (vless_of uuid_b) toy-LowersScheme known_as.0 known_as.1 parsed_a parsed_b
