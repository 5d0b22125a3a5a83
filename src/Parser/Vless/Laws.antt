-- ===== src/Parser/Vless/Laws.antt =====
-- What a VLESS node is for each security of the URI.
use sing_box_helper.Prelude.{
  String, true, false, List, Option, none, some, ok, ok-injective, ◌>>=◌, bind-ok, ◌≡◌, ◌≢◌, ◌⊎◌,
  inl, inr, refl, sym, arith, eq_iff,
}
use sing_box_helper.Text.{trim_space}
use sing_box_helper.Platform.{Platform, Url, query_get}
use sing_box_helper.Parser.Types.{TlsConfig, Utls, Reality, ParsedNode, ParseError}
use sing_box_helper.Parser.Vless.{vless_node, pick_security, security_tls, build_tls, build_reality}
use sing_box_helper.Parser.Stages.{vless_stages}

-- A TLS block that carries REALITY: both of its keys are there, and certificates are verified.
pub record IsReality (tls : TlsConfig) : Type 0 where
  pub utls : Utls
  pub reality : Reality
  pub utls_is : tls.utls ≡ some utls
  pub reality_is : tls.reality ≡ some reality
  pub enabled : (tls.enabled ≡ true) × (utls.enabled ≡ true) × (reality.enabled ≡ true)
  pub fingerprint_ne_nil : utls.fingerprint ≢ ""
  pub public_key_ne_nil : reality.public_key ≢ ""
  pub verified : tls.insecure ≡ false

-- The TLS block for each security.
pub data SecurityBlock (security : String) (tls : Option TlsConfig) : Type 0 where
  plain : security ≡ "none" → tls ≡ none → SecurityBlock security tls
  with_tls :
      (t : TlsConfig)
      → security ≡ "tls"
      → tls ≡ some t
      → (t.enabled ≡ true) × (t.reality ≡ none)
      → SecurityBlock security tls
  with_reality :
      (t : TlsConfig)
      → security ≡ "reality"
      → tls ≡ some t
      → IsReality t
      → SecurityBlock security tls

build_reality-IsReality :
    (host : String) (q : List (String × String)) (t : TlsConfig)
    → build_reality host q ≡ ok t
    → IsReality t
unfolding build_reality
build_reality-IsReality host q t h =
    let pbk = trim_space (query_get q "pbk") in
    let fp = trim_space (query_get q "fp") in
    record {
      utls = record { enabled = true; fingerprint = fp };
      reality = record {
        enabled = true;
        public_key = pbk;
        short_id = trim_space (query_get q "sid");
      };
      utls_is = ground arith;
      reality_is = ground arith;
      enabled = ground arith;
      fingerprint_ne_nil = ground (arith, eq_iff fp "");
      public_key_ne_nil = ground (arith, eq_iff pbk "");
      verified = ground arith;
    }

pick_security_ok :
    (g : Platform) (raw s : String)
    → pick_security g raw ≡ ok s
    → (s ≡ "none") ⊎ (s ≡ "tls") ⊎ (s ≡ "reality")
unfolding pick_security
pick_security_ok g raw s h = ground (arith, eq_iff s "none", eq_iff s "tls", eq_iff s "reality")

security_tls-SecurityBlock :
    (g : Platform) (s host : String) (q : List (String × String)) (tls : Option TlsConfig)
    → (s ≡ "none") ⊎ (s ≡ "tls") ⊎ (s ≡ "reality")
    → security_tls g s host q ≡ ok tls
    → SecurityBlock s tls
unfolding security_tls build_tls
security_tls-SecurityBlock g s host q tls (inl e) h =
    plain e (sym (ok-injective {E = ParseError} none tls (rw e at h)))
security_tls-SecurityBlock g s host q tls (inr (inl e)) h =
    with_tls (build_tls g host q) e
      (sym (ok-injective {E = ParseError} (some (build_tls g host q)) tls (rw e at h))) (refl, refl)
security_tls-SecurityBlock g s host q tls (inr (inr e)) h =
    let h' : (build_reality host q >>= λ t. ok (some t)) ≡ ok tls = rw e at h in
    let (t, b, a) = bind-ok (build_reality host q) _ h' in
    with_reality t e (cc) (build_reality-IsReality host q t a)

-- The TLS block of a node that parses is absent for the security "none", has no REALITY part for
-- "tls", and for "reality" has a public key and a fingerprint and verifies certificates; there is
-- no other security.
pub vless_node-SecurityBlock :
    (g : Platform) (u : Url) (n : ParsedNode) (security : String)
    → vless_node g u ≡ ok n
    → pick_security g (query_get u.query "security") ≡ ok security
    → SecurityBlock security n.outbound.tls
vless_node-SecurityBlock g u n security h e =
    let s = vless_stages g u n h in
    let same : s.security ≡ security = let h' = s.security_ok in cc in
    rw s.result_is (
      security_tls-SecurityBlock g security s.host u.query s.tls (pick_security_ok g _ security e)
        (rw (← same) s.tls_ok))
