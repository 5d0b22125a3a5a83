-- ===== src/Parser/Schemes.antt =====
-- The dispatch on the scheme, and the tests that the protocol parsers repeat.
use sing_box_helper.Prelude.{
  [], ◌∷◌, String, ◌==◌, one_of, if◌then◌else◌, ok, err, ◌≡◌, ◌≢◌, arith, true, false, eq_iff, not,
  ◌&&◌,
}
use sing_box_helper.Text.{trim_space, equal_fold}
use sing_box_helper.Text.Trim.{trim_space_idem}
use sing_box_helper.Platform.{Platform, Url, LowersScheme}
use sing_box_helper.Parser.Types.{ParsedNode, unsupported_scheme}
use sing_box_helper.Parser.Common.{Parsed}
use sing_box_helper.Parser.Hysteria.{parse_hysteria2, hysteria_node}
use sing_box_helper.Parser.Vless.{parse_vless, vless_node}
use sing_box_helper.Parser.Socks.{parse_socks, socks_node}
use sing_box_helper.Parser.Dispatch.{parse, parse_scheme}

-- What the URL of each scheme is handed to.
abbrev pub node_of : Platform → Url → Parsed ParsedNode
node_of g u =
    if one_of u.scheme ("hysteria2" ∷ "hy2" ∷ [])
    then hysteria_node g u
    else if u.scheme == "vless"
    then vless_node g u
    else if one_of u.scheme ("socks" ∷ "socks4" ∷ "socks4a" ∷ "socks5" ∷ "socks5h" ∷ [])
    then socks_node g u
    else err (unsupported_scheme u.scheme)

module _ (g : Platform) (raw : String) (u : Url) (e : g.parse_url (trim_space raw) ≡ ok u) where
  trimmed_twice : g.parse_url (trim_space (trim_space raw)) ≡ ok u
  trimmed_twice = rw (trim_space_idem raw) e

  hysteria_part :
      one_of u.scheme ("hysteria2" ∷ "hy2" ∷ []) ≡ true
      → parse_hysteria2 g (trim_space raw) ≡ hysteria_node g u
  unfolding parse_hysteria2
  hysteria_part h =
      let a : (not (u.scheme == "hysteria2") && not (u.scheme == "hy2")) ≡ false = ground arith in
      rw (trimmed_twice, a)

  vless_part : (u.scheme == "vless") ≡ true → parse_vless g (trim_space raw) ≡ vless_node g u
  unfolding parse_vless equal_fold
  vless_part h = rw (trimmed_twice, (eq_iff _ _).0 h)

  socks_part : parse_socks g (trim_space raw) ≡ socks_node g u
  unfolding parse_socks
  socks_part = rw e

  -- A non-blank URI that `url.Parse` accepts is handed to the parser of its scheme, none of the tests
  -- that the parsers repeat refuses it, and any other scheme is unsupported.
  pub parse-node_of : LowersScheme g → trim_space raw ≢ "" → parse g raw ≡ node_of g u
  unfolding parse parse_scheme
  parse-node_of lowers h =
      let n : (trim_space raw == "") ≡ false = ground (arith, eq_iff (trim_space raw) "") in
      rw (n, e, lowers _ u e) (ground (arith, hysteria_part, vless_part, socks_part))
