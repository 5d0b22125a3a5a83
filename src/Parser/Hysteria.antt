-- ===== src/Parser/Hysteria.antt =====
-- internal/parser/hysteria2.go
use Prim.Native.String
use sing_box_helper.Prelude.{
  true, not, ◌&&◌, List, Option, none, some, String, ◌==◌, if◌then◌else◌, ok, err, ◌>>=◌, ◌>>◌,
  fail_if, map_err, ℤ, [],
}
use sing_box_helper.Text.{to_lower, trim_space}
use sing_box_helper.Platform.{Platform, Url, UserInfo, query_get}
use sing_box_helper.Parser.Types.{
  TlsConfig, zero_tls, ObfsConfig, zero_outbound, ParsedNode, hysteria2, bad_url, unexpected_scheme,
  missing_user, empty_password, unsupported_obfs, missing_obfs_password,
}
use sing_box_helper.Parser.Common.{
  Parsed, host_port, parse_bool_flag, alpn_list, sni_or_host, fragment_label,
}

-- The whole user-info, with its colon put back.
abbrev pub joined_password : UserInfo → String
joined_password user = elim user.password [
  | none ↦ user.username
  | some pw ↦ String.◌++◌ user.username (String.◌++◌ ":" pw)
]

abbrev pub user_password : Option UserInfo → Parsed String
user_password none = err (missing_user hysteria2)
user_password (some user) =
    if joined_password user == "" then err empty_password else ok (joined_password user)

unfoldable pub hysteria_tls : Platform → String → List (String × String) → TlsConfig
hysteria_tls g host q = record zero_tls {
  enabled = true;
  server_name = sni_or_host host q;
  insecure = parse_bool_flag g (query_get q "insecure");
  alpn = alpn_list q;
}

unfoldable pub hysteria_obfs : Platform → List (String × String) → Parsed (Option ObfsConfig)
hysteria_obfs g q =
    let obfs = to_lower g.lower_wide (trim_space (query_get q "obfs")) in
    let pw = query_get q "obfs-password" in
    if obfs == ""
    then ok none
    else if not (obfs == "salamander")
    then err (unsupported_obfs obfs)
    else if pw == ""
    then err missing_obfs_password
    else ok (some (record { kind = "salamander"; password = pw }))

abbrev pub hysteria_result : Platform → Url → String → String → ℤ → Option ObfsConfig → ParsedNode
hysteria_result g u password host port obfs = record {
  outbound = record zero_outbound {
    kind = "hysteria2";
    tag = "proxy";
    server = host;
    server_port = port;
    password = password;
    tls = some (hysteria_tls g host u.query);
    obfs = obfs;
  };
  label = fragment_label g u;
  display = record {
    protocol = "Hysteria2";
    server = host;
    port = port;
    sni = sni_or_host host u.query;
    tls_verify = not (parse_bool_flag g (query_get u.query "insecure"));
    transport = "native";
    notes = [];
  };
}

-- `ParseHysteria2` behind the test of the scheme.
unfoldable pub hysteria_node : Platform → Url → Parsed ParsedNode
hysteria_node g u = do
  password ← user_password u.user
  (host, port) ← host_port hysteria2 u
  obfs ← hysteria_obfs g u.query
  ok (hysteria_result g u password host port obfs)

-- `ParseHysteria2`
unfoldable pub parse_hysteria2 : Platform → String → Parsed ParsedNode
parse_hysteria2 g raw = do
  u ← map_err bad_url (g.parse_url (trim_space raw))
  fail_if (not (u.scheme == "hysteria2") && not (u.scheme == "hy2"))
      (unexpected_scheme hysteria2 u.scheme)
  hysteria_node g u
