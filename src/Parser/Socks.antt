-- ===== src/Parser/Socks.antt =====
-- internal/parser/socks.go
use Prim.Native.String
use sing_box_helper.Prelude.{
  ℕ, Bool, true, false, not, ◌&&◌, List, [], ◌∷◌, ◌++◌, Option, none, some, String, ◌==◌, one_of,
  nat_eq, if◌then◌else◌, ok, err, ◌>>=◌, map_err, ℤ, drop, take,
}
use sing_box_helper.Text.{to_lower, trim_space}
use sing_box_helper.Platform.{Platform, Url, UserInfo}
use sing_box_helper.Parser.Types.{
  zero_outbound, Note, socks4_auth_ignored, local_upstream, remote_plaintext, ParsedNode, socks,
  bad_url, unknown_socks_scheme, username_without_password,
}
use sing_box_helper.Parser.Common.{Parsed, host_port}

-- `socksVersion`
unfoldable pub socks_version : String → Parsed String
socks_version scheme =
    if one_of scheme ("socks" ∷ "socks5" ∷ "socks5h" ∷ [])
    then ok "5"
    else if scheme == "socks4"
    then ok "4"
    else if scheme == "socks4a"
    then ok "4a"
    else err (unknown_socks_scheme scheme)

abbrev bytes_eq : List ℕ → List ℕ → Bool
bytes_eq [] [] = true
bytes_eq (a ∷ as') (b ∷ bs) = nat_eq a b && bytes_eq as' bs
bytes_eq _ _ = false

abbrev v4_prefix : List ℕ
v4_prefix = 0 ∷ 0 ∷ 0 ∷ 0 ∷ 0 ∷ 0 ∷ 0 ∷ 0 ∷ 0 ∷ 0 ∷ 255 ∷ 255 ∷ []

abbrev first_is : ℕ → List ℕ → Bool
first_is n [] = false
first_is n (b ∷ bs) = nat_eq b n

-- `net.IP.IsLoopback`: 127.0.0.0/8 for an IPv4 address in its 16-byte form, else ::1.
unfoldable pub is_loopback : List ℕ → Bool
is_loopback ip =
    if bytes_eq (take 12 ip) v4_prefix
    then first_is 127 (drop 12 ip)
    else bytes_eq ip (0 ∷ 0 ∷ 0 ∷ 0 ∷ 0 ∷ 0 ∷ 0 ∷ 0 ∷ 0 ∷ 0 ∷ 0 ∷ 0 ∷ 0 ∷ 0 ∷ 0 ∷ 1 ∷ [])

-- `isLocalHost`
unfoldable pub is_local_host : Platform → String → Bool
is_local_host g host =
    let h = to_lower g.lower_wide (trim_space host) in
    if h == "localhost"
    then true
    else elim (g.parse_ip h) [ none ↦ false | some ip ↦ is_loopback ip ]

-- `locationHint`
unfoldable pub location_hint : Platform → String → List Note
location_hint g host = if is_local_host g host then local_upstream ∷ [] else remote_plaintext ∷ []

pub record Credentials : Type 0 where
  pub username : String
  pub password : String
  pub notes : List Note

abbrev password_or_empty : Option String → String
password_or_empty none = ""
password_or_empty (some pw) = pw

abbrev is_none {ℓ} : {A : Type ℓ} → Option A → Bool
is_none none = true
is_none (some _) = false

-- The block `if u.User != nil`.
unfoldable pub credentials : String → Option UserInfo → Parsed Credentials
credentials version none = ok (record { username = ""; password = ""; notes = [] })
credentials version (some user) =
    if one_of version ("4" ∷ "4a" ∷ [])
    then ok (record { username = ""; password = ""; notes = socks4_auth_ignored ∷ [] })
    else if version == "5" && (not (user.username == "") && is_none user.password)
    then err username_without_password
    else ok (record {
      username = user.username;
      password = password_or_empty user.password;
      notes = [];
    })

abbrev pub socks_result : Platform → Url → String → String → ℤ → Credentials → ParsedNode
socks_result g u version host port c = record {
  outbound = record zero_outbound {
    kind = "socks";
    tag = "proxy";
    server = host;
    server_port = port;
    version = version;
    username = c.username;
    password = c.password;
  };
  label = u.fragment;
  display = record {
    protocol = "SOCKS";
    server = host;
    port = port;
    sni = "";
    tls_verify = false;
    transport = if version == "5" then "SOCKS5" else String.◌++◌ "SOCKS" version;
    notes = c.notes ++ location_hint g host;
  };
}

-- `ParseSOCKS` behind `url.Parse`.
unfoldable pub socks_node : Platform → Url → Parsed ParsedNode
socks_node g u = do
  version ← socks_version (to_lower g.lower_wide u.scheme)
  (host, port) ← host_port socks u
  c ← credentials version u.user
  ok (socks_result g u version host port c)

-- `ParseSOCKS`
unfoldable pub parse_socks : Platform → String → Parsed ParsedNode
parse_socks g raw = do u ← map_err bad_url (g.parse_url raw); socks_node g u
