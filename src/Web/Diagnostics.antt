-- ===== src/Web/Diagnostics.antt =====
-- internal/web/handlers.go: handleTest.
pub mod Agreement
use sing_box_helper.Prelude.{
  Bool, not, List, [], ◌∷◌, Option, none, some, String, ◌==◌, ℤ, pos, Result, ok, err,
  if◌then◌else◌,
}
use sing_box_helper.Files.{Disk, Faults}
use sing_box_helper.Codec.{Codec}
use sing_box_helper.Platform.{Platform}
use sing_box_helper.Probe.{proto_network}
use sing_box_helper.Probe.Runtime.{
  Machine, Status, ProbeError, collect_status, direct_ip, tunnel_ip, reach,
}
use sing_box_helper.Readback.{Snapshot}
use sing_box_helper.Web.{Server, wrong_method, Reply, reply, refuse}
use sing_box_helper.Web.Nodes.{Outside, current_outbound}

-- The name of a step, with the name of the interface.
pub data StepName : Type 0 where
  node_reach process wan_ip tun_ip : StepName
  interface : String → StepName

pub data StepStatus : Type 0 where
  passed failure skipped : StepStatus

-- What a step's text shows, less the elapsed time.
pub data Detail : Type 0 where
  reached : String → String → ℤ → Detail
  runs : ℤ → String → Detail
  address same_address : String → Detail
  probe_failed : ProbeError → Detail
  no_proxy no_process up not_up : Detail

-- `testStep`
pub record TestStep : Type 0 where
  pub name : StepName
  pub status : StepStatus
  pub detail : Detail

abbrev pub test_step : StepName → StepStatus → Detail → TestStep
test_step n s d = record { name = n; status = s; detail = d }

module _ (m : Machine) where
  unfoldable pub node_step : Option Snapshot → TestStep
  node_step none = test_step node_reach skipped no_proxy
  node_step (some o) =
      let network = proto_network o.kind in
      elim (reach m network o.server o.server_port) [
        | some e ↦ test_step node_reach failure (probe_failed e)
        | none ↦ test_step node_reach passed (reached network o.server o.server_port)
      ]

unfoldable pub process_step : Status → TestStep
process_step st = elim st.running [
  | some pid ↦ test_step process passed (runs pid st.version)
  | none ↦ test_step process failure no_process
]

unfoldable pub interface_step : Status → TestStep
interface_step st =
    if st.tun_up
    then test_step (interface st.tun_name) passed up
    else test_step (interface st.tun_name) failure not_up

unfoldable pub direct_step : Result ProbeError String → TestStep
direct_step (err e) = test_step wan_ip failure (probe_failed e)
direct_step (ok ip) = test_step wan_ip passed (address ip)

-- The direct address is "" where its probe failed.
abbrev pub value_of : Result ProbeError String → String
value_of (err _) = ""
value_of (ok ip) = ip

unfoldable pub tunnel_step : Result ProbeError String → Result ProbeError String → TestStep
tunnel_step direct (err e) = test_step tun_ip failure (probe_failed e)
tunnel_step direct (ok ip) =
    if ip == value_of direct
    then test_step tun_ip failure (same_address ip)
    else test_step tun_ip passed (address ip)

module _ (g : Platform) (k : Codec) (f : Faults k.Content) (w : Outside) where
  -- `handleTest`, with the response's `steps`.
  unfoldable pub handle_test : String → Server → Disk k.Content → Reply (List TestStep)
  handle_test method s d =
      if not (method == "GET")
      then refuse 405 wrong_method
      else let tun = s.settings.tun_interface_name in
        let st = collect_status w.machine tun in
        let direct = direct_ip w.machine (pos 5) in
        reply (
          node_step w.machine (current_outbound g k f w s d)
          ∷ process_step st
          ∷ interface_step st
          ∷ direct_step direct
          ∷ tunnel_step direct (tunnel_ip w.machine tun (pos 8))
          ∷ [])
