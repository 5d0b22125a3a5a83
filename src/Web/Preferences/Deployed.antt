-- ===== src/Web/Preferences/Deployed.antt =====
-- internal/config/render.go under the settings that internal/web/handlers.go accepts.
use sing_box_helper.Prelude.{
  pos, ◌≤ℤ◌, Bool, true, false, List, [], ◌∷◌, map, Option, none, some, String, one_of, ok, ◌≡◌,
  ◌≢◌, refl, sym, All, Bool-cases, inl, inr, ◌∙◌, ap,
}
use sing_box_helper.Platform.{Platform}
use sing_box_helper.Probe.Listen.{
  Effective, as_set, unset, detected, fallback, resolve_mixed_listen-Effective,
}
use sing_box_helper.Config.Settings.{Settings}
use sing_box_helper.Config.Types.{
  AnyInbound, tun, mixed, AnyOutbound, node, direct, Dns, Route, Config,
}
use sing_box_helper.Config.Render.{lan_interface, config_of, mixed_inbounds, tun_inbound}
use sing_box_helper.Parser.Types.{ParsedNode}
use sing_box_helper.Parser.Common.{IsPort}
use sing_box_helper.Parser.Dispatch.{parse}
use sing_box_helper.Parser.Shape.{parse-IsWellFormed}
use sing_box_helper.Web.Preferences.{validate_settings}
use sing_box_helper.Web.Preferences.Kept.{IsUsable, validate_settings-IsUsable}

abbrev Distinct : List String → Type 0
Distinct [] = Unit
Distinct (t ∷ ts) = (one_of t ts ≡ false) × Distinct ts

abbrev in_tag : AnyInbound → String
in_tag (tun c) = c.tag
in_tag (mixed c) = c.tag

abbrev out_tag : AnyOutbound → String
out_tag (node c) = c.tag
out_tag (direct c) = c.tag

-- An inbound that can be opened: the interface has a name, an address and an MTU in range, and the
-- proxy listens on an address and a port in range.
abbrev Opens : AnyInbound → Type 0
Opens (tun c) =
    (c.interface_name ≢ "") × All (λ a. a ≢ "") c.address × (pos 576 ≤ℤ c.mtu) × (c.mtu ≤ℤ pos 9000)
Opens (mixed c) = (c.listen ≢ "") × IsPort c.listen_port

-- An outbound that leads somewhere.
abbrev Leads : AnyOutbound → Type 0
Leads (node c) = (c.server ≢ "") × IsPort c.server_port
Leads (direct c) = Unit

-- The route ends in an outbound of that tag.
abbrev EndsInTag : List String → Option Route → Type 0
EndsInTag tags none = ⊥
EndsInTag tags (some r) = one_of r.final tags ≡ true

-- There is a name server, and each has an address.
abbrev Resolves : Option Dns → Type 0
Resolves none = ⊥
Resolves (some dns) = (dns.servers ≢ []) × All (λ s. s.server ≢ "") dns.servers

-- The parts of a configuration fit together.
pub record IsDeployable (c : Config) : Type 0 where
  pub inbounds_distinct : Distinct (map in_tag c.inbounds)
  pub outbounds_distinct : Distinct (map out_tag c.outbounds)
  pub final_known : EndsInTag (map out_tag c.outbounds) c.route
  pub opens : All Opens c.inbounds
  pub leads : All Leads c.outbounds
  pub resolves : Resolves c.dns

Effective-ne_nil :
    {g : Platform} {configured iface : String} {r : String × Bool}
    → Effective g configured iface r
    → r.0 ≢ ""
Effective-ne_nil (as_set _ ne e) = λ h. ne (ap (λ x. x.0) (sym e) ∙ h)
Effective-ne_nil (unset _ e) = λ h. cc
Effective-ne_nil (detected ip _ _ ne e) = λ h. ne (ap (λ x. x.0) (sym e) ∙ h)
Effective-ne_nil (fallback _ _ e) = λ h. cc

mixed_inbounds-Opens : (g : Platform) (s : Settings) → IsUsable s → All Opens (mixed_inbounds g s)
unfolding mixed_inbounds
mixed_inbounds-Opens g s u = elim (Bool-cases s.enable_mixed) [
  | inl t ↦ rw t (
    (
      Effective-ne_nil (resolve_mixed_listen-Effective g s.mixed_listen lan_interface),
      (u.port_low, u.port_high),
    ),
    tt,
  )
  | inr t ↦ rw t tt
]

mixed_inbounds-Distinct :
    (g : Platform) (s : Settings) → Distinct (map in_tag (tun_inbound s ∷ mixed_inbounds g s))
unfolding mixed_inbounds tun_inbound
mixed_inbounds-Distinct g s = elim (Bool-cases s.enable_mixed) [
  | inl t ↦ rw t (refl, (refl, tt))
  | inr t ↦ rw t (refl, tt)
]

-- Under settings that the page accepts, the configuration of every URI that parses fits together:
-- the tags of the inbounds are distinct, and so are those of the outbounds; the route ends in one
-- of the outbounds; every inbound has an interface with an MTU in range or an address and a port in
-- range; every proxy outbound has a server and a port in range; and there is a name server with an
-- address.
pub config_of-IsDeployable :
    (g : Platform) (uri : String) (n : ParsedNode) (s : Settings)
    → parse g uri ≡ ok n
    → validate_settings s ≡ none
    → IsDeployable (config_of g n.outbound s)
unfolding config_of tun_inbound
config_of-IsDeployable g uri n s parsed valid =
    let w = parse-IsWellFormed g uri n parsed in
    let u = validate_settings-IsUsable s valid in
    record {
      inbounds_distinct = mixed_inbounds-Distinct g s;
      outbounds_distinct = (rw w.tag_is refl, (refl, tt));
      final_known = rw w.tag_is refl;
      opens = ((u.named, (u.addressed, tt), u.mtu_low, u.mtu_high), mixed_inbounds-Opens g s u);
      leads = ((w.server_ne_nil, w.port_in_range), (tt, tt));
      resolves = ((λ h. cc), (u.resolved, tt));
    }
