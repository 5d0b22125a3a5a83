-- ===== src/Parser/Vless/Transports.antt =====
-- What a VLESS node is for each transport of the URI.
use sing_box_helper.Prelude.{
  String, true, false, List, [], ◌∷◌, Option, none, some, ok, err, ok-injective, OneOf,
  one_of-OneOf, OneOf-one_of, ◌≡◌, ◌≢◌, ◌⊎◌, inl, inr, refl, one_of, arith, eq_iff, ℤ, ◌==◌,
  if◌then◌else◌, Bool-cases,
}
use sing_box_helper.Text.{trim_space, to_lower}
use sing_box_helper.Platform.{Platform, Url, query_get}
use sing_box_helper.Parser.Types.{
  TlsConfig, Transport, ParsedNode, ParseError, xhttp_mapped, unsupported_transport,
}
use sing_box_helper.Parser.Vless.{
  vless_node, vless_result, pick_transport, build_transport, is_xhttp,
}
use sing_box_helper.Parser.Stages.{vless_stages}

-- The transport block for each transport of the URI, and the warning that goes with it.
pub data TransportBlock (t : String) (n : ParsedNode) : Type 0 where
  no_block : t ≡ "tcp" → n.outbound.transport ≡ none → n.display.notes ≡ [] → TransportBlock t n
  same_block :
      (tr : Transport)
      → one_of t ("ws" ∷ "grpc" ∷ "h2" ∷ "httpupgrade" ∷ []) ≡ true
      → n.outbound.transport ≡ some tr
      → tr.kind ≡ t
      → (t ≡ "grpc") ⊎ (tr.path ≢ "")
      → n.display.notes ≡ []
      → TransportBlock t n
  mapped_block :
      (tr : Transport)
      → is_xhttp t ≡ true
      → n.outbound.transport ≡ some tr
      → tr.kind ≡ "httpupgrade"
      → tr.path ≢ ""
      → n.display.notes ≡ xhttp_mapped t ∷ []
      → TransportBlock t n

abbrev transports : List String
transports = "tcp" ∷ "ws" ∷ "grpc" ∷ "h2" ∷ "httpupgrade" ∷ "xhttp" ∷ "splithttp" ∷ []

abbrev native_transports : List String
native_transports = "ws" ∷ "grpc" ∷ "h2" ∷ "httpupgrade" ∷ []

checked_ok :
    (t' t : String) (ts : List String) (e : ParseError)
    → (if one_of t' ts then ok t' else err e) ≡ ok t
    → one_of t ts ≡ true
checked_ok t' t ts e h = elim (Bool-cases (one_of t' ts)) [
  | inl a ↦ rw (← ok-injective {E = ParseError} t' t (rw a at h)) a
  | inr a ↦ let h' : err e ≡ ok t = rw a at h in cc
]

pick_transport_ok :
    (g : Platform) (raw t : String) → pick_transport g raw ≡ ok t → OneOf t transports
unfolding pick_transport
pick_transport_ok g raw t h =
    let low = to_lower g.lower_wide (trim_space raw) in
    let t' = if low == "" then "tcp" else low in
    one_of-OneOf t transports (checked_ok t' t transports (unsupported_transport t') h)

path_ne_nil : (p : String) → (if p == "" then "/" else p) ≢ ""
path_ne_nil p = ground (arith, eq_iff p "", eq_iff "/" "")

module _ (q : List (String × String)) where
  build_transport_same :
      (t : String)
      → OneOf t native_transports
      → ((build_transport t q).kind ≡ t) × ((t ≡ "grpc") ⊎ ((build_transport t q).path ≢ ""))
  unfolding build_transport
  build_transport_same t (inl e) = rw e (refl, inr (path_ne_nil (trim_space (query_get q "path"))))
  build_transport_same t (inr (inl e)) = rw e (refl, inl refl)
  build_transport_same t (inr (inr (inl e))) =
      rw e (refl, inr (path_ne_nil (trim_space (query_get q "path"))))
  build_transport_same t (inr (inr (inr (inl e)))) =
      rw e (refl, inr (path_ne_nil (trim_space (query_get q "path"))))
  build_transport_same t (inr (inr (inr (inr x)))) = elim x [ ]

  build_transport_mapped :
      (t : String)
      → OneOf t ("xhttp" ∷ "splithttp" ∷ [])
      → ((build_transport t q).kind ≡ "httpupgrade") × ((build_transport t q).path ≢ "")
  unfolding build_transport
  build_transport_mapped t (inl e) = rw e (refl, path_ne_nil (trim_space (query_get q "path")))
  build_transport_mapped t (inr (inl e)) =
      rw e (refl, path_ne_nil (trim_space (query_get q "path")))
  build_transport_mapped t (inr (inr x)) = elim x [ ]

OneOf-split :
    (t : String)
    → OneOf t transports
    → (t ≡ "tcp") ⊎ OneOf t native_transports ⊎ OneOf t ("xhttp" ∷ "splithttp" ∷ [])
OneOf-split t h = ground arith

native_flags :
    (t : String) → OneOf t native_transports → ((t == "tcp") ≡ false) × (is_xhttp t ≡ false)
native_flags t (inl e) = rw e (refl, refl)
native_flags t (inr (inl e)) = rw e (refl, refl)
native_flags t (inr (inr (inl e))) = rw e (refl, refl)
native_flags t (inr (inr (inr (inl e)))) = rw e (refl, refl)
native_flags t (inr (inr (inr (inr x)))) = elim x [ ]

mapped_flags :
    (t : String)
    → OneOf t ("xhttp" ∷ "splithttp" ∷ [])
    → ((t == "tcp") ≡ false) × (is_xhttp t ≡ true)
mapped_flags t (inl e) = rw e (refl, refl)
mapped_flags t (inr (inl e)) = rw e (refl, refl)
mapped_flags t (inr (inr x)) = elim x [ ]

module _ (g : Platform) (u : Url) (uuid host : String) (port : ℤ) (flow : String)
    (tls : Option TlsConfig) where
  result-TransportBlock :
      (t : String)
      → (t ≡ "tcp") ⊎ OneOf t native_transports ⊎ OneOf t ("xhttp" ∷ "splithttp" ∷ [])
      → TransportBlock t (vless_result g u uuid host port t flow tls)
  result-TransportBlock t (inl e) = no_block e (rw e) (rw e)
  result-TransportBlock t (inr (inl h)) =
      let (k, p) = build_transport_same u.query t h in
      let (a, b) = native_flags t h in
      same_block (build_transport t u.query) (OneOf-one_of t native_transports h) (rw a) k p (rw b)
  result-TransportBlock t (inr (inr h)) =
      let (k, p) = build_transport_mapped u.query t h in
      let (a, b) = mapped_flags t h in mapped_block (build_transport t u.query) b (rw a) k p (rw b)

-- The transport block of a node that parses is absent for tcp, and carries the URI's own transport
-- otherwise; for xhttp and splithttp alone it is httpupgrade, and the display has the warning. Every
-- block but that of grpc has a path.
pub vless_node-TransportBlock :
    (g : Platform) (u : Url) (n : ParsedNode) (t : String)
    → vless_node g u ≡ ok n
    → pick_transport g (query_get u.query "type") ≡ ok t
    → TransportBlock t n
vless_node-TransportBlock g u n t h e =
    let s = vless_stages g u n h in
    let same : s.t ≡ t = let h' = s.transport_ok in ground arith in
    rw (s.result_is, same)
      (result-TransportBlock g u s.uuid s.host s.port s.flow s.tls t
        (OneOf-split t (pick_transport_ok g _ t e)))
