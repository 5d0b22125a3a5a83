-- ===== src/Parser/Redaction.antt =====
-- The display, which the UI shows, holds nothing of the user-info of the URI.
use sing_box_helper.Prelude.{
  String, ℤ, some, ok, ok-injective, ◌≡◌, ◌≢◌, sym, ◌∙◌, ap, arith, Result, eq_iff,
}
use sing_box_helper.Text.{trim_space}
use sing_box_helper.Platform.{Platform, Url, UserInfo, LowersScheme}
use sing_box_helper.Parser.Types.{ParsedNode, ParseError}
use sing_box_helper.Parser.Common.{host_port}
use sing_box_helper.Parser.Hysteria.{hysteria_node}
use sing_box_helper.Parser.Vless.{vless_node}
use sing_box_helper.Parser.Socks.{socks_node, credentials, Credentials}
use sing_box_helper.Parser.Stages.{hysteria_stages, vless_stages, socks_stages, Parses}
use sing_box_helper.Parser.Schemes.{node_of, parse-node_of}
use sing_box_helper.Parser.Dispatch.{parse}

abbrev pub with_user : Url → UserInfo → Url
with_user u a = record u { user = some a }

same_ok {ℓ} : {A : Type ℓ} (m : Result ParseError A) (a b : A) → m ≡ ok a → m ≡ ok b → a ≡ b
same_ok m a b h k = ok-injective {E = ParseError} a b (sym h ∙ k)

same_pair :
    (m : Result ParseError (String × ℤ)) (a a' : String) (b b' : ℤ)
    → m ≡ ok (a, b)
    → m ≡ ok (a', b')
    → (a ≡ a') × (b ≡ b')
same_pair m a a' b b' h k =
    let e = same_ok m (a, b) (a', b') h k in
    (ap {A = String × ℤ} (λ p. p.0) e, ap {A = String × ℤ} (λ p. p.1) e)

-- The notes on the login depend on the version alone.
credentials_notes :
    (version : String) (a b : UserInfo) (c d : Credentials)
    → credentials version (some a) ≡ ok c
    → credentials version (some b) ≡ ok d
    → c.notes ≡ d.notes
unfolding credentials
credentials_notes version a b c d h k = ground arith

module _ (g : Platform) (u : Url) (a b : UserInfo) (n n' : ParsedNode) where
  hysteria_hides :
      hysteria_node g (with_user u a) ≡ ok n
      → hysteria_node g (with_user u b) ≡ ok n'
      → n.display ≡ n'.display
  unfolding host_port
  hysteria_hides h k =
      let s = hysteria_stages g (with_user u a) n h in
      let s' = hysteria_stages g (with_user u b) n' k in
      let (host, port) = same_pair (host_port _ u) _ _ _ _ s.host_port_is s'.host_port_is in
      rw (s.result_is, s'.result_is, host, port)

  vless_hides :
      vless_node g (with_user u a) ≡ ok n
      → vless_node g (with_user u b) ≡ ok n'
      → n.display ≡ n'.display
  unfolding host_port
  vless_hides h k =
      let s = vless_stages g (with_user u a) n h in
      let s' = vless_stages g (with_user u b) n' k in
      let (host, port) = same_pair (host_port _ u) _ _ _ _ s.host_port_is s'.host_port_is in
      let t = same_ok _ _ _ s.transport_ok s'.transport_ok in
      let security = same_ok _ _ _ s.security_ok s'.security_ok in
      let tls = same_ok _ _ _ (rw (host, security) at s.tls_ok) s'.tls_ok in
      rw (s.result_is, s'.result_is, host, port, t, tls)

  socks_hides :
      socks_node g (with_user u a) ≡ ok n
      → socks_node g (with_user u b) ≡ ok n'
      → n.display ≡ n'.display
  unfolding host_port
  socks_hides h k =
      let s = socks_stages g (with_user u a) n h in
      let s' = socks_stages g (with_user u b) n' k in
      let (host, port) = same_pair (host_port _ u) _ _ _ _ s.host_port_is s'.host_port_is in
      let version = same_ok _ _ _ s.version_ok s'.version_ok in
      let notes =
        credentials_notes s'.version a b s.login s'.login (rw version at s.login_ok) s'.login_ok in
      rw (s.result_is, s'.result_is, host, port, version, notes)

  node_of_hides :
      node_of g (with_user u a) ≡ ok n → node_of g (with_user u b) ≡ ok n' → n.display ≡ n'.display
  node_of_hides h k = ground (arith, hysteria_hides, vless_hides, socks_hides)

parsed_ne_nil :
    (g : Platform) (raw : String) (n : ParsedNode) → parse g raw ≡ ok n → trim_space raw ≢ ""
unfolding parse
parsed_ne_nil g raw n h = ground (arith, eq_iff (trim_space raw) "")

-- Two URIs that parse and whose URLs differ only in the user-info (the password, the UUID or the
-- login, each present) have the same display.
pub parse-display_hides_user :
    (g : Platform) (raw raw' : String) (u : Url) (a b : UserInfo) (n n' : ParsedNode)
    → LowersScheme g
    → Parses g raw (with_user u a)
    → Parses g raw' (with_user u b)
    → parse g raw ≡ ok n
    → parse g raw' ≡ ok n'
    → n.display ≡ n'.display
parse-display_hides_user g raw raw' u a b n n' lowers p p' h h' =
    node_of_hides g u a b n n'
      (sym (parse-node_of g raw (with_user u a) p lowers (parsed_ne_nil g raw n h)) ∙ h)
      (sym (parse-node_of g raw' (with_user u b) p' lowers (parsed_ne_nil g raw' n' h')) ∙ h')
