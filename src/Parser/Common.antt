-- ===== src/Parser/Common.antt =====
-- The parts that the three parsers share, most of them written out in each.
use sing_box_helper.Prelude.{
  Bool, ◌||◌, List, [], ◌∷◌, map, none, some, String, ◌==◌, one_of, if◌then◌else◌, ℤ, pos, leb_ℤ,
  ltb_ℤ, Result, ok, err, ◌>>=◌, ◌>>◌, fail_if, fail_if-eq-ok, bind-ok, ◌≡◌, ◌≢◌, ◌≤ℤ◌, arith,
  eq_iff,
}
use sing_box_helper.Text.{atoi, split, to_lower, trim_space}
use sing_box_helper.Platform.{Platform, Url, query_get}
use sing_box_helper.Parser.Types.{Proto, ParseError, missing_host, missing_port, invalid_port}

abbrev pub Parsed {ℓ} : Type ℓ → Type ℓ
Parsed A = Result ParseError A

abbrev pub get_trimmed : List (String × String) → String → String
get_trimmed q key = trim_space (query_get q key)

-- `port, err := strconv.Atoi(portStr)` and the test of its range.
unfoldable pub port_number : Proto → String → Parsed ℤ
port_number p text = elim (atoi text) [
  | none ↦ err (invalid_port p text)
  | some port ↦
      if leb_ℤ port (pos 0) || ltb_ℤ (pos 65535) port then err (invalid_port p text) else ok port
]

-- The host and the port of the URL.
unfoldable pub host_port : Proto → Url → Parsed (String × ℤ)
host_port p u = do
  fail_if (u.hostname == "") (missing_host p)
  fail_if (u.port == "") (missing_port p)
  port ← port_number p u.port
  ok (u.hostname, port)

-- `parseBoolFlag`
unfoldable pub parse_bool_flag : Platform → String → Bool
parse_bool_flag g v =
    one_of (to_lower g.lower_wide (trim_space v)) ("1" ∷ "true" ∷ "yes" ∷ "on" ∷ [])

-- The ALPN list of the parameter `alpn`.
unfoldable pub alpn_list : List (String × String) → List String
alpn_list q =
    let alpn = get_trimmed q "alpn" in if alpn == "" then [] else map trim_space (split b',' alpn)

-- The parameter `sni`, or the host.
unfoldable pub sni_or_host : String → List (String × String) → String
sni_or_host host q = let sni = get_trimmed q "sni" in if sni == "" then host else sni

-- The label from the fragment, decoded if it can be.
unfoldable pub fragment_label : Platform → Url → String
fragment_label g u =
    if u.fragment == ""
    then ""
    else elim (g.query_unescape u.fragment) [ some dec ↦ dec | none ↦ u.fragment ]

abbrev pub IsPort : ℤ → Type 0
IsPort n = (pos 1 ≤ℤ n) × (n ≤ℤ pos 65535)

port_number-IsPort : (p : Proto) (text : String) (n : ℤ) → port_number p text ≡ ok n → IsPort n
unfolding port_number
port_number-IsPort p text n h = ground arith

-- A host that is accepted is the URL's and not empty, and the port is in range.
pub host_port_ok :
    (p : Proto) (u : Url) (host : String) (port : ℤ)
    → host_port p u ≡ ok (host, port)
    → (host ≢ "") × (host ≡ u.hostname) × IsPort port
unfolding host_port
host_port_ok p u host port h =
    let (_, h', a) = bind-ok (fail_if (u.hostname == "") (missing_host p)) _ h in
    let (_, h'', b) = bind-ok (fail_if (u.port == "") (missing_port p)) _ h' in
    let (n, d, c) = bind-ok (port_number p u.port) _ h'' in
    let r = port_number-IsPort p u.port n c in
    ground (arith, eq_iff u.hostname "", fail_if-eq-ok _ _ a)
