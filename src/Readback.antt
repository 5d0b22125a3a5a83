-- ===== src/Readback.antt =====
-- The reading of config.json: internal/web/readback.go, and `summarise` of
-- internal/backup/backup.go, over the JSON value that the file holds.
pub mod Rendered
use sing_box_helper.Prelude.{
  ℕ, Bool, true, false, ◌&&◌, ◌||◌, List, [], ◌∷◌, Option, none, some, String, ◌==◌, one_of, ltb,
  leb, if◌then◌else◌, ℤ, pos, negsuc, ◌^◌,
}
use sing_box_helper.Text.{equal_fold}
use sing_box_helper.Json.{Json, null, int, str, arr, obj, Items, nil, cons, Members, end, member}

-- `outboundSnapshot`; the type `ob` of `summarise` has the same fields.
pub record Snapshot : Type 0 where
  pub kind : String
  pub tag : String
  pub server : String
  pub server_port : ℤ

abbrev pub zero_snapshot : Snapshot
zero_snapshot = record { kind = ""; tag = ""; server = ""; server_port = pos 0 }

-- Decoding into a string and into an `int` that have a value: `null` leaves it, and any other type
-- of value is an error.
unfoldable pub decode_str : String → Json → Option String
decode_str old (str s) = some s
decode_str old null = some old
decode_str old _ = none

abbrev pub is_int64 : ℤ → Bool
is_int64 (pos n) = ltb n (2 ^ 63)
is_int64 (negsuc n) = ltb n (2 ^ 63)

unfoldable pub decode_int : ℤ → Json → Option ℤ
decode_int old (int n) = if is_int64 n then some n else none
decode_int old null = some old
decode_int old _ = none

infixl 5 ◌>>=◌
abbrev ◌>>=◌ {ℓ κ} : {A : Type ℓ} {B : Type κ} → Option A → (A → Option B) → Option B
none >>= f = none
some a >>= f = f a

-- One member of an object; its key is matched without regard to case, and unknown keys are skipped.
unfoldable pub decode_member : Snapshot → String → Json → Option Snapshot
decode_member s key v =
    if equal_fold key "type"
    then (decode_str s.kind v >>= λ x. some (record s { kind = x }))
    else if equal_fold key "tag"
    then (decode_str s.tag v >>= λ x. some (record s { tag = x }))
    else if equal_fold key "server"
    then (decode_str s.server v >>= λ x. some (record s { server = x }))
    else if equal_fold key "server_port"
    then (decode_int s.server_port v >>= λ x. some (record s { server_port = x }))
    else some s

unfoldable pub decode_members : Snapshot → Members → Option Snapshot
decode_members s end = some s
decode_members s (member key v ms) = elim (decode_member s key v) [
  | none ↦ none
  | some s' ↦ decode_members s' ms
]

unfoldable pub decode_snapshot : Json → Option Snapshot
decode_snapshot (obj ms) = decode_members zero_snapshot ms
decode_snapshot null = some zero_snapshot
decode_snapshot _ = none

unfoldable pub decode_items : Items → Option (List Snapshot)
decode_items nil = some []
decode_items (cons v vs) = elim (decode_snapshot v) [
  | none ↦ none
  | some s ↦ (decode_items vs >>= λ ss. some (s ∷ ss))
]

-- The field `Outbounds` of the document.
unfoldable pub decode_outbounds : Json → Option (List Snapshot)
decode_outbounds (arr vs) = decode_items vs
decode_outbounds null = some []
decode_outbounds _ = none

unfoldable pub decode_doc_members : List Snapshot → Members → Option (List Snapshot)
decode_doc_members ss end = some ss
decode_doc_members ss (member key v ms) = elim (equal_fold key "outbounds") [
  | false ↦ decode_doc_members ss ms
  | true ↦ elim (decode_outbounds v) [ none ↦ none | some ss' ↦ decode_doc_members ss' ms ]
]

-- `json.Unmarshal(raw, &doc)`, behind the reading of the text: the outbounds, or an error.
unfoldable pub decode_doc : Json → Option (List Snapshot)
decode_doc (obj ms) = decode_doc_members [] ms
decode_doc null = some []
decode_doc _ = none

abbrev pub proxy_types : List String
proxy_types =
    "hysteria2" ∷ "hysteria" ∷ "vless" ∷ "vmess" ∷ "trojan" ∷ "shadowsocks" ∷ "tuic" ∷ "anytls"
    ∷ "socks" ∷ "http" ∷ []

-- `proxyOutboundTypes`, and `isProxyType` of internal/backup/backup.go.
unfoldable pub is_proxy_type : String → Bool
is_proxy_type kind = one_of kind proxy_types

-- The two loops of `readCurrentOutbound`.
abbrev pub first_where : (Snapshot → Bool) → List Snapshot → Option Snapshot
first_where p [] = none
first_where p (s ∷ ss) = if p s then some s else first_where p ss

abbrev pub or_else : Option Snapshot → Option Snapshot → Option Snapshot
or_else none o = o
or_else (some s) o = some s

-- `readCurrentOutbound` on the JSON of the file; `none` is the file that is missing or no JSON.
unfoldable pub read_current_outbound : Option Json → Option Snapshot
read_current_outbound none = none
read_current_outbound (some doc) = elim (decode_doc doc) [
  | none ↦ none
  | some ss ↦
      or_else (first_where (λ s. s.tag == "proxy") ss) (first_where (λ s. is_proxy_type s.kind) ss)
]

-- The outbound that `summarise` prints as "type  server:port"; with none, it returns "".
unfoldable pub summary_outbound : Option Json → Option Snapshot
summary_outbound none = none
summary_outbound (some doc) = elim (decode_doc doc) [
  | none ↦ none
  | some ss ↦ first_where (λ s. s.tag == "proxy" || is_proxy_type s.kind) ss
]

-- `protocolLabel`
unfoldable pub protocol_label : String → String
protocol_label kind =
    if kind == "hysteria2"
    then "Hysteria2"
    else if kind == "hysteria"
    then "Hysteria"
    else if kind == "vless"
    then "VLESS"
    else if kind == "vmess"
    then "VMess"
    else if kind == "trojan"
    then "Trojan"
    else if kind == "shadowsocks"
    then "Shadowsocks"
    else if kind == "tuic"
    then "TUIC"
    else if kind == "anytls"
    then "AnyTLS"
    else if kind == "socks"
    then "SOCKS"
    else if kind == "http"
    then "HTTP-proxy"
    else kind
