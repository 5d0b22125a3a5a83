-- ===== src/Parser/Dispatch.antt =====
-- internal/parser/parser.go
use sing_box_helper.Prelude.{
  [], ◌∷◌, String, ◌==◌, one_of, if◌then◌else◌, err, ◌>>=◌, ◌>>◌, fail_if, map_err,
}
use sing_box_helper.Text.{to_lower, trim_space}
use sing_box_helper.Platform.{Platform, Url}
use sing_box_helper.Parser.Types.{ParsedNode, empty_uri, bad_url, unsupported_scheme}
use sing_box_helper.Parser.Common.{Parsed}
use sing_box_helper.Parser.Hysteria.{parse_hysteria2}
use sing_box_helper.Parser.Vless.{parse_vless}
use sing_box_helper.Parser.Socks.{parse_socks}

unfoldable pub parse_scheme : Platform → String → Url → Parsed ParsedNode
parse_scheme g raw u =
    let scheme = to_lower g.lower_wide u.scheme in
    if one_of scheme ("hysteria2" ∷ "hy2" ∷ [])
    then parse_hysteria2 g raw
    else if scheme == "vless"
    then parse_vless g raw
    else if one_of scheme ("socks" ∷ "socks4" ∷ "socks4a" ∷ "socks5" ∷ "socks5h" ∷ [])
    then parse_socks g raw
    else err (unsupported_scheme u.scheme)

-- `Parse`
unfoldable pub parse : Platform → String → Parsed ParsedNode
parse g raw = do
  let raw' = trim_space raw
  fail_if (raw' == "") empty_uri
  u ← map_err bad_url (g.parse_url raw')
  parse_scheme g raw' u
