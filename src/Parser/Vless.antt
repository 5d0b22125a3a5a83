-- ===== src/Parser/Vless.antt =====
-- internal/parser/vless.go
pub mod Laws
pub mod Transports
use Prim.Native.Nat.{ℕ, zero, suc}
use Prim.Native.Char.{code}
use Prim.Native.String.{String, [], ◌∷◌}
use sing_box_helper.Prelude.{
  Bool, true, false, not, ◌&&◌, ◌||◌, List, [], ◌∷◌, Option, none, some, ◌==◌, one_of, leb, nat_eq,
  if◌then◌else◌, Result, ok, err, ◌>>=◌, ◌>>◌, fail_if, map_err, ℤ,
}
use sing_box_helper.Text.{to_lower, trim_space, equal_fold, is_empty}
use sing_box_helper.Platform.{Platform, Url, UserInfo, query_get}
use sing_box_helper.Parser.Types.{
  TlsConfig, zero_tls, Transport, Outbound, zero_outbound, Note, xhttp_mapped, Display, ParsedNode,
  ParseError, vless, bad_url, unexpected_scheme, missing_user, unexpected_colon, invalid_uuid,
  unsupported_transport, unsupported_security, unsupported_flow, missing_pbk, missing_fp,
}
use sing_box_helper.Parser.Common.{
  Parsed, get_trimmed, host_port, parse_bool_flag, alpn_list, sni_or_host, fragment_label,
}
use mathlib.Core.Option

abbrev is_hex : ℕ → Bool
is_hex n = leb b'0' n && leb n b'9' || leb b'a' n && leb n b'f' || leb b'A' n && leb n b'F'

-- The text behind `n` hexadecimal digits.
hex_run : ℕ → String → Option String
hex_run zero s = some s
hex_run (suc n) [] = none
hex_run (suc n) (c ∷ s) = let rest = hex_run n s in if is_hex (code c) then rest else none

dash : String → Option String
dash [] = none
dash (c ∷ s) = if nat_eq (code c) b'-' then some s else none

infixl 5 ◌>>?◌
abbrev ◌>>?◌ : Option String → (String → Option String) → Option String
none >>? f = none
some s >>? f = f s

-- `uuidRegex.MatchString`
unfoldable pub is_uuid : String → Bool
unfolding hex_run dash is_empty
is_uuid s =
    elim (hex_run 8 s
      >>? dash
      >>? hex_run 4
      >>? dash
      >>? hex_run 4
      >>? dash
      >>? hex_run 4
      >>? dash
      >>? hex_run 12) [ none ↦ false | some rest ↦ is_empty rest ]

-- `extractVLESSUUID`
unfoldable pub extract_uuid : Option UserInfo → Parsed String
extract_uuid none = err (missing_user vless)
extract_uuid (some user) = elim user.password [
  | some _ ↦ err unexpected_colon
  | none ↦ if is_uuid user.username then ok user.username else err (invalid_uuid user.username)
]

-- `pickVLESSTransport`
unfoldable pub pick_transport : Platform → String → Parsed String
pick_transport g raw =
    let low = to_lower g.lower_wide (trim_space raw) in
    let t = if low == "" then "tcp" else low in
    if one_of t ("tcp" ∷ "ws" ∷ "grpc" ∷ "h2" ∷ "httpupgrade" ∷ "xhttp" ∷ "splithttp" ∷ [])
    then ok t
    else err (unsupported_transport t)

-- `pickVLESSSecurity`
unfoldable pub pick_security : Platform → String → Parsed String
pick_security g raw =
    let low = to_lower g.lower_wide (trim_space raw) in
    let s = if low == "" then "none" else low in
    if one_of s ("none" ∷ "tls" ∷ "reality" ∷ []) then ok s else err (unsupported_security s)

unfoldable pub pick_flow : List (String × String) → Parsed String
pick_flow q =
    let flow = get_trimmed q "flow" in
    if flow == ""
    then ok ""
    else if flow == "xtls-rprx-vision"
    then ok flow
    else err (unsupported_flow flow)

-- `buildVLESSTLS`
unfoldable pub build_tls : Platform → String → List (String × String) → TlsConfig
build_tls g host q =
    let fp = get_trimmed q "fp" in
    record zero_tls {
      enabled = true;
      server_name = sni_or_host host q;
      insecure =
          parse_bool_flag g (query_get q "allowInsecure")
          || parse_bool_flag g (query_get q "insecure");
      alpn = alpn_list q;
      utls = if fp == "" then none else some (record { enabled = true; fingerprint = fp });
    }

-- `buildVLESSReality`
unfoldable pub build_reality : String → List (String × String) → Parsed TlsConfig
build_reality host q =
    let pbk = get_trimmed q "pbk" in
    let fp = get_trimmed q "fp" in
    if pbk == ""
    then err missing_pbk
    else if fp == ""
    then err missing_fp
    else ok (record zero_tls {
      enabled = true;
      server_name = sni_or_host host q;
      alpn = alpn_list q;
      utls = some (record { enabled = true; fingerprint = fp });
      reality = some (record { enabled = true; public_key = pbk; short_id = get_trimmed q "sid" });
    })

-- The `switch` on the security.
unfoldable pub security_tls :
    Platform → String → String → List (String × String) → Parsed (Option TlsConfig)
security_tls g security host q =
    if security == "tls"
    then ok (some (build_tls g host q))
    else if security == "reality"
    then (build_reality host q >>= λ tls. ok (some tls))
    else ok none

abbrev pub is_xhttp : String → Bool
is_xhttp t = t == "xhttp" || t == "splithttp"

-- `buildVLESSTransport`
unfoldable pub build_transport : String → List (String × String) → Transport
build_transport t q =
    let kind = if is_xhttp t then "httpupgrade" else t in
    let path = get_trimmed q "path" in
    let service = get_trimmed q "serviceName" in
    if one_of kind ("ws" ∷ "h2" ∷ "httpupgrade" ∷ [])
    then record {
      kind = kind;
      host = get_trimmed q "host";
      path = if path == "" then "/" else path;
      service_name = "";
    }
    else if kind == "grpc"
    then record {
      kind = kind;
      host = "";
      path = "";
      service_name = if service == "" then get_trimmed q "service-name" else service;
    }
    else record { kind = kind; host = ""; path = ""; service_name = "" }

abbrev transport_block : String → List (String × String) → Option Transport
transport_block t q = if t == "tcp" then none else some (build_transport t q)

abbrev display_sni : Option TlsConfig → String
display_sni none = ""
display_sni (some tls) = tls.server_name

abbrev display_verify : Option TlsConfig → Bool
display_verify none = false
display_verify (some tls) = not tls.insecure

abbrev pub vless_result :
    Platform → Url → String → String → ℤ → String → String → Option TlsConfig → ParsedNode
vless_result g u uuid host port t flow tls = record {
  outbound = record zero_outbound {
    kind = "vless";
    tag = "proxy";
    server = host;
    server_port = port;
    uuid = uuid;
    flow = flow;
    tls = tls;
    transport = transport_block t u.query;
  };
  label = fragment_label g u;
  display = record {
    protocol = "VLESS";
    server = host;
    port = port;
    sni = display_sni tls;
    tls_verify = display_verify tls;
    transport = t;
    notes = if is_xhttp t then xhttp_mapped t ∷ [] else [];
  };
}

-- `ParseVLESS` behind the test of the scheme.
unfoldable pub vless_node : Platform → Url → Parsed ParsedNode
vless_node g u = do
  uuid ← extract_uuid u.user
  (host, port) ← host_port vless u
  t ← pick_transport g (query_get u.query "type")
  security ← pick_security g (query_get u.query "security")
  flow ← pick_flow u.query
  tls ← security_tls g security host u.query
  ok (vless_result g u uuid host port t flow tls)

-- `ParseVLESS`
unfoldable pub parse_vless : Platform → String → Parsed ParsedNode
parse_vless g raw = do
  u ← map_err bad_url (g.parse_url (trim_space raw))
  fail_if (not (equal_fold u.scheme "vless")) (unexpected_scheme vless u.scheme)
  vless_node g u
