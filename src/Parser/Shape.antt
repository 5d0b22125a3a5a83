-- ===== src/Parser/Shape.antt =====
-- What every parsed node has in common, whatever its protocol.
use sing_box_helper.Prelude.{
  String, false, not, List, [], ◌∷◌, Option, none, some, ℤ, ok, ◌≡◌, ◌≢◌, refl, sym, subst, one_of,
  arith, eq_iff, true,
}
use sing_box_helper.Text.{trim_space}
use sing_box_helper.Platform.{Platform, Url, query_get}
use sing_box_helper.Parser.Types.{TlsConfig, Display, ParsedNode}
use sing_box_helper.Parser.Common.{IsPort, host_port_ok, sni_or_host}
use sing_box_helper.Parser.Hysteria.{hysteria_tls}
use sing_box_helper.Parser.Vless.{vless_result, build_tls, build_reality, security_tls}
use sing_box_helper.Parser.Stages.{
  Origin, from_hysteria, from_vless, from_socks, HysteriaStages, VlessStages, SocksStages,
  parse_stages,
}
use sing_box_helper.Parser.Dispatch.{parse}

-- The display tells the truth about TLS: the name that is sent, which is never empty, and whether
-- certificates are verified; without TLS, no name and no verification.
abbrev pub ShowsTls : Display → Option TlsConfig → Type 0
ShowsTls d none = (d.sni ≡ "") × (d.tls_verify ≡ false)
ShowsTls d (some tls) =
    (d.sni ≡ tls.server_name) × (d.tls_verify ≡ not tls.insecure) × (tls.server_name ≢ "")

pub record IsWellFormed (n : ParsedNode) : Type 0 where
  pub tag_is : n.outbound.tag ≡ "proxy"
  pub known_kind : one_of n.outbound.kind ("hysteria2" ∷ "vless" ∷ "socks" ∷ []) ≡ true
  pub server_ne_nil : n.outbound.server ≢ ""
  pub port_in_range : IsPort n.outbound.server_port
  pub server_shown : n.display.server ≡ n.outbound.server
  pub port_shown : n.display.port ≡ n.outbound.server_port
  pub tls_shown : ShowsTls n.display n.outbound.tls

sni_or_host-ne_nil :
    (host : String) (q : List (String × String)) → host ≢ "" → sni_or_host host q ≢ ""
unfolding sni_or_host
sni_or_host-ne_nil host q h = ground (arith, eq_iff (trim_space (query_get q "sni")) "")

security_tls-ShowsTls :
    (g : Platform) (u : Url) (uuid : String) (port : ℤ) (t flow : String) (tls : Option TlsConfig)
    (s host : String)
    → host ≢ ""
    → security_tls g s host u.query ≡ ok tls
    → ShowsTls (vless_result g u uuid host port t flow tls).display tls
unfolding security_tls build_tls build_reality
security_tls-ShowsTls g u uuid port t flow none s host ne h = (refl, refl)
security_tls-ShowsTls g u uuid port t flow (some tls) s host ne h =
    (refl, refl, ground (arith, sni_or_host-ne_nil host u.query ne))

module _ {g : Platform} {u : Url} {n : ParsedNode} where
  HysteriaStages-IsWellFormed : HysteriaStages g u n → IsWellFormed n
  unfolding hysteria_tls
  HysteriaStages-IsWellFormed s =
      let (ne, _, p) = host_port_ok _ u s.host s.port s.host_port_is in
      subst IsWellFormed (sym s.result_is) (record {
        tag_is = refl;
        known_kind = refl;
        server_ne_nil = ne;
        port_in_range = p;
        server_shown = refl;
        port_shown = refl;
        tls_shown = (refl, refl, sni_or_host-ne_nil s.host u.query ne);
      })

  VlessStages-IsWellFormed : VlessStages g u n → IsWellFormed n
  VlessStages-IsWellFormed s =
      let (ne, _, p) = host_port_ok _ u s.host s.port s.host_port_is in
      subst IsWellFormed (sym s.result_is) (record {
        tag_is = refl;
        known_kind = refl;
        server_ne_nil = ne;
        port_in_range = p;
        server_shown = refl;
        port_shown = refl;
        tls_shown =
            security_tls-ShowsTls g u s.uuid s.port s.t s.flow s.tls s.security s.host ne s.tls_ok;
      })

  SocksStages-IsWellFormed : SocksStages g u n → IsWellFormed n
  SocksStages-IsWellFormed s =
      let (ne, _, p) = host_port_ok _ u s.host s.port s.host_port_is in
      subst IsWellFormed (sym s.result_is) (record {
        tag_is = refl;
        known_kind = refl;
        server_ne_nil = ne;
        port_in_range = p;
        server_shown = refl;
        port_shown = refl;
        tls_shown = (refl, refl);
      })

  Origin-IsWellFormed : Origin g u n → IsWellFormed n
  Origin-IsWellFormed (from_hysteria s) = HysteriaStages-IsWellFormed s
  Origin-IsWellFormed (from_vless s) = VlessStages-IsWellFormed s
  Origin-IsWellFormed (from_socks s) = SocksStages-IsWellFormed s

-- A URI that parses gives an outbound with the tag "proxy", a known type, a server and a port within
-- 1 to 65535; the display shows the same server and port, and what the TLS block says.
pub parse-IsWellFormed :
    (g : Platform) (raw : String) (n : ParsedNode) → parse g raw ≡ ok n → IsWellFormed n
parse-IsWellFormed g raw n h = let (u, _, o) = parse_stages g raw n h in Origin-IsWellFormed o
