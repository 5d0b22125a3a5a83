-- ===== src/Parser/Stages.antt =====
-- A parser that succeeds has passed each of its stages: what each returned, and the node made of it.
use sing_box_helper.Prelude.{
  String, Option, ℤ, ok, bind-ok, ◌≡◌, map_err, fail_if, ◌==◌, one_of, [], ◌∷◌, Bool-cases, inl,
  inr, arith,
}
use sing_box_helper.Text.{to_lower, trim_space}
use sing_box_helper.Text.Trim.{trim_space_idem}
use sing_box_helper.Platform.{Platform, Url, query_get}
use sing_box_helper.Parser.Types.{
  TlsConfig, ObfsConfig, ParsedNode, hysteria2, vless, socks, bad_url, empty_uri,
}
use sing_box_helper.Parser.Common.{host_port}
use sing_box_helper.Parser.Hysteria.{
  user_password, hysteria_obfs, hysteria_result, hysteria_node, parse_hysteria2,
}
use sing_box_helper.Parser.Vless.{
  extract_uuid, pick_transport, pick_security, pick_flow, security_tls, vless_result, vless_node,
  parse_vless,
}
use sing_box_helper.Parser.Socks.{
  Credentials, socks_version, credentials, socks_result, socks_node, parse_socks,
}
use sing_box_helper.Parser.Dispatch.{parse_scheme, parse}

module _ (g : Platform) (u : Url) (n : ParsedNode) where
  pub record HysteriaStages : Type 0 where
    pub password : String
    pub host : String
    pub port : ℤ
    pub obfs : Option ObfsConfig
    pub password_ok : user_password u.user ≡ ok password
    pub host_port_is : host_port hysteria2 u ≡ ok (host, port)
    pub obfs_ok : hysteria_obfs g u.query ≡ ok obfs
    pub result_is : n ≡ hysteria_result g u password host port obfs

  pub record VlessStages : Type 0 where
    pub uuid : String
    pub host : String
    pub port : ℤ
    pub t : String
    pub security : String
    pub flow : String
    pub tls : Option TlsConfig
    pub uuid_ok : extract_uuid u.user ≡ ok uuid
    pub host_port_is : host_port vless u ≡ ok (host, port)
    pub transport_ok : pick_transport g (query_get u.query "type") ≡ ok t
    pub security_ok : pick_security g (query_get u.query "security") ≡ ok security
    pub flow_ok : pick_flow u.query ≡ ok flow
    pub tls_ok : security_tls g security host u.query ≡ ok tls
    pub result_is : n ≡ vless_result g u uuid host port t flow tls

  pub record SocksStages : Type 0 where
    pub version : String
    pub host : String
    pub port : ℤ
    pub login : Credentials
    pub version_ok : socks_version (to_lower g.lower_wide u.scheme) ≡ ok version
    pub host_port_is : host_port socks u ≡ ok (host, port)
    pub login_ok : credentials version u.user ≡ ok login
    pub result_is : n ≡ socks_result g u version host port login

  pub hysteria_stages : hysteria_node g u ≡ ok n → HysteriaStages
  unfolding hysteria_node
  hysteria_stages h =
      let (password, h1, a) = bind-ok (user_password u.user) _ h in
      let ((host, port), h2, b) = bind-ok (host_port hysteria2 u) _ h1 in
      let (obfs, h3, c) = bind-ok (hysteria_obfs g u.query) _ h2 in
      record {
        password = password;
        host = host;
        port = port;
        obfs = obfs;
        password_ok = a;
        host_port_is = b;
        obfs_ok = c;
        result_is = cc;
      }

  pub vless_stages : vless_node g u ≡ ok n → VlessStages
  unfolding vless_node
  vless_stages h =
      let (uuid, h1, a) = bind-ok (extract_uuid u.user) _ h in
      let ((host, port), h2, b) = bind-ok (host_port vless u) _ h1 in
      let (t, h3, c) = bind-ok (pick_transport g (query_get u.query "type")) _ h2 in
      let (s, h4, d) = bind-ok (pick_security g (query_get u.query "security")) _ h3 in
      let (flow, h5, e) = bind-ok (pick_flow u.query) _ h4 in
      let (tls, h6, f) = bind-ok (security_tls g s host u.query) _ h5 in
      record {
        uuid = uuid;
        host = host;
        port = port;
        t = t;
        security = s;
        flow = flow;
        tls = tls;
        uuid_ok = a;
        host_port_is = b;
        transport_ok = c;
        security_ok = d;
        flow_ok = e;
        tls_ok = f;
        result_is = cc;
      }

  pub socks_stages : socks_node g u ≡ ok n → SocksStages
  unfolding socks_node
  socks_stages h =
      let (version, h1, a) = bind-ok (socks_version (to_lower g.lower_wide u.scheme)) _ h in
      let ((host, port), h2, b) = bind-ok (host_port socks u) _ h1 in
      let (login, h3, c) = bind-ok (credentials version u.user) _ h2 in
      record {
        version = version;
        host = host;
        port = port;
        login = login;
        version_ok = a;
        host_port_is = b;
        login_ok = c;
        result_is = cc;
      }

pub data Origin (g : Platform) (u : Url) (n : ParsedNode) : Type 0 where
  from_hysteria : HysteriaStages g u n → Origin g u n
  from_vless : VlessStages g u n → Origin g u n
  from_socks : SocksStages g u n → Origin g u n

abbrev pub Parses : Platform → String → Url → Type 0
Parses g raw u = g.parse_url (trim_space raw) ≡ ok u

module _ (g : Platform) (raw : String) (u : Url) (n : ParsedNode) (e : Parses g raw u) where
  trimmed : g.parse_url (trim_space (trim_space raw)) ≡ ok u
  trimmed = rw (trim_space_idem raw) e

  hysteria_part : parse_hysteria2 g (trim_space raw) ≡ ok n → hysteria_node g u ≡ ok n
  unfolding parse_hysteria2
  hysteria_part h = ground (arith, trimmed)

  vless_part : parse_vless g (trim_space raw) ≡ ok n → vless_node g u ≡ ok n
  unfolding parse_vless
  vless_part h = ground (arith, trimmed)

  socks_part : parse_socks g (trim_space raw) ≡ ok n → socks_node g u ≡ ok n
  unfolding parse_socks
  socks_part h = rw e at h

  scheme-Origin : parse_scheme g (trim_space raw) u ≡ ok n → Origin g u n
  unfolding parse_scheme
  scheme-Origin h =
      let s = to_lower g.lower_wide u.scheme in
      elim (Bool-cases (one_of s ("hysteria2" ∷ "hy2" ∷ []))) [
        | inl a ↦ from_hysteria (hysteria_stages g u n (hysteria_part (rw a at h)))
        | inr a ↦ elim (Bool-cases (s == "vless")) [
          | inl b ↦ from_vless (vless_stages g u n (vless_part (rw (a, b) at h)))
          | inr b ↦ from_socks (socks_stages g u n (socks_part (ground arith)))
        ]
      ]

-- A URI that parses has a URL, and its node comes from one of the three parsers on that URL.
pub parse_stages :
    (g : Platform) (raw : String) (n : ParsedNode)
    → parse g raw ≡ ok n
    → (u : Url) × Parses g raw u × Origin g u n
unfolding parse
parse_stages g raw n h =
    let (_, h1, _) = bind-ok (fail_if (trim_space raw == "") empty_uri) _ h in
    let (u, h2, a) = bind-ok (map_err bad_url (g.parse_url (trim_space raw))) _ h1 in
    let e : Parses g raw u = ground arith in (u, e, scheme-Origin g raw u n e h2)
