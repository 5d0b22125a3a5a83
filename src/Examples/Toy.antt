-- ===== src/Examples/Toy.antt =====
-- A platform that knows three URIs, two addresses and one interface.
use sing_box_helper.Prelude.{
  ℕ, List, [], ◌∷◌, Option, none, some, String, ◌==◌, if◌then◌else◌, Result, ok, err, ◌≡◌, refl,
  ok-injective, Bool-cases, inl, inr,
}
use sing_box_helper.Text.{to_lower}
use sing_box_helper.Platform.{Platform, Url, UserInfo, LowersScheme}

abbrev pub uuid_a : String
uuid_a = "0a1b2c3d-0000-4000-8000-00000000000a"

abbrev pub uuid_b : String
uuid_b = "0a1b2c3d-0000-4000-8000-00000000000b"

abbrev pub login : String → UserInfo
login name = record { username = name; password = none }

abbrev pub vless_url : Url
vless_url = record {
  scheme = "vless";
  user = none;
  hostname = "node.example.com";
  port = "443";
  query =
      ("type", "xhttp")
      ∷ ("security", "reality")
      ∷ ("pbk", " key ")
      ∷ ("fp", "chrome")
      ∷ ("sni", "yahoo.com")
      ∷ [];
  fragment = "home";
}

abbrev pub vless_as : String → Url
vless_as uuid = record vless_url { user = some (login uuid) }

abbrev pub socks_url : Url
socks_url = record {
  scheme = "socks4";
  user = some (record { username = "joe"; password = some "secret" });
  hostname = "127.0.0.1";
  port = "1080";
  query = [];
  fragment = "";
}

known : String → Result String Url
known raw =
    if raw == "vless://a"
    then ok (vless_as uuid_a)
    else if raw == "vless://b"
    then ok (vless_as uuid_b)
    else if raw == "socks4://joe"
    then ok socks_url
    else err "unknown"

abbrev loopback : List ℕ
loopback = 0 ∷ 0 ∷ 0 ∷ 0 ∷ 0 ∷ 0 ∷ 0 ∷ 0 ∷ 0 ∷ 0 ∷ 255 ∷ 255 ∷ 127 ∷ 0 ∷ 0 ∷ 1 ∷ []

abbrev lan : List ℕ
lan = 0 ∷ 0 ∷ 0 ∷ 0 ∷ 0 ∷ 0 ∷ 0 ∷ 0 ∷ 0 ∷ 0 ∷ 255 ∷ 255 ∷ 192 ∷ 168 ∷ 1 ∷ 1 ∷ []

addresses : String → Option (List ℕ)
addresses text =
    if text == "127.0.0.1" then some loopback else if text == "192.168.1.1" then some lan else none

unfoldable pub toy : Platform
unfolding known addresses
toy = record {
  lower_wide = λ c. c;
  parse_url = known;
  query_unescape = λ s. some s;
  parse_ip = addresses;
  look_path = λ p. p == "/sbin/ip";
  run_ip =
      λ bin iface. if iface == "br0" then some "7: br0:\n    inet 192.168.1.1/24 brd" else none;
}

lowered :
    (u v : Url)
    → to_lower (λ c. c) v.scheme ≡ v.scheme
    → ◌≡◌ {A = Result String Url} (ok v) (ok u)
    → to_lower (λ c. c) u.scheme ≡ u.scheme
lowered u v h e = rw (← ok-injective {E = String} v u e) h

pub toy-LowersScheme : LowersScheme toy
unfolding toy to_lower
toy-LowersScheme raw u h = elim (Bool-cases (raw == "vless://a")) [
  | inl a ↦ lowered u (vless_as uuid_a) refl (rw (known, a) at h)
  | inr a ↦ elim (Bool-cases (raw == "vless://b")) [
    | inl b ↦ lowered u (vless_as uuid_b) refl (rw (known, a, b) at h)
    | inr b ↦ elim (Bool-cases (raw == "socks4://joe")) [
      | inl c ↦ lowered u socks_url refl (rw (known, a, b, c) at h)
      | inr c ↦
          let h' : ◌≡◌ {A = Result String Url} (err "unknown") (ok u) = rw (known, a, b, c) at h in
          cc
    ]
  ]
]
