-- ===== src/Probe.antt =====
-- internal/probe/lanip.go, and `ProtoNetwork` of internal/probe/reach.go.
pub mod Listen
pub mod Runtime
use sing_box_helper.Prelude.{
  Bool, true, false, not, List, [], ◌∷◌, Option, none, some, String, ◌==◌, one_of, if◌then◌else◌,
}
use sing_box_helper.Text.{trim_space, to_lower, split, strip_prefix, fields, before}
use sing_box_helper.Platform.{Platform}

-- `ProtoNetwork`
unfoldable pub proto_network : String → String
proto_network kind = if one_of kind ("hysteria2" ∷ "hysteria" ∷ "tuic" ∷ []) then "udp" else "tcp"

-- `findIPBinary`
first_found : Platform → List String → String
first_found g [] = "ip"
first_found g (p ∷ ps) = if g.look_path p then p else first_found g ps

unfoldable pub find_ip_binary : Platform → String
unfolding first_found
find_ip_binary g = first_found g ("/opt/sbin/ip" ∷ "/sbin/ip" ∷ "/usr/sbin/ip" ∷ [])

abbrev second : List String → Option String
second (_ ∷ f ∷ _) = some f
second _ = none

-- The address of one line, or `none` where the loop goes on.
unfoldable pub inet_of_line : Platform → String → Option String
inet_of_line g raw =
    let line = trim_space raw in
    elim (strip_prefix "inet " line) [
      | none ↦ none
      | some _ ↦ elim (second (fields line)) [
        | none ↦ none
        | some cidr ↦ elim (before b'/' cidr) [
          | none ↦ none
          | some ip ↦
              if ip == "" then none else elim (g.parse_ip ip) [ none ↦ none | some _ ↦ some ip ]
        ]
      ]
    ]

inet_of_lines : Platform → List String → String
inet_of_lines g [] = ""
inet_of_lines g (raw ∷ rest) = elim (inet_of_line g raw) [
  | none ↦ inet_of_lines g rest
  | some ip ↦ ip
]

-- `parseIPInetLine`
unfoldable pub parse_ip_inet_line : Platform → String → String
unfolding inet_of_lines
parse_ip_inet_line g out = inet_of_lines g (split b'\n' out)

-- `LANIP`, with `none` for its errors.
unfoldable pub lan_ip : Platform → String → Option String
lan_ip g iface =
    let name = if iface == "" then "br0" else iface in
    elim (g.run_ip (find_ip_binary g) name) [
      | none ↦ none
      | some out ↦ let ip = parse_ip_inet_line g out in if not (ip == "") then some ip else none
    ]

-- `ResolveMixedListen`: the effective address, and whether it was detected.
unfoldable pub resolve_mixed_listen : Platform → String → String → String × Bool
resolve_mixed_listen g configured iface =
    if to_lower g.lower_wide (trim_space configured) == "auto"
    then elim (lan_ip g iface) [ some ip ↦ (ip, true) | none ↦ ("0.0.0.0", true) ]
    else if configured == ""
    then ("0.0.0.0", false)
    else (configured, false)
