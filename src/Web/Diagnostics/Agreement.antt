-- ===== src/Web/Diagnostics/Agreement.antt =====
-- internal/web/handlers.go: the page of diagnostics beside the status page.
use sing_box_helper.Prelude.{Option, none, some, ◌≡◌, ◌↔◌}
use sing_box_helper.Codec.{Codec}
use sing_box_helper.Platform.{Platform}
use sing_box_helper.Probe.{proto_network}
use sing_box_helper.Probe.Runtime.{Machine, reach}
use sing_box_helper.Readback.{Snapshot, protocol_label}
use sing_box_helper.State.Types.{State}
use sing_box_helper.Web.Nodes.{NodeInfo}
use sing_box_helper.Web.Diagnostics.{passed, skipped, TestStep}

-- The step tries the outbound of the snapshot, its server and its port over the network of its type,
-- and is skipped if there is none.
abbrev pub Tries : Machine → Option Snapshot → TestStep → Type 0
Tries m none step = step.status ≡ skipped
Tries m (some o) step =
    (step.status ≡ passed) ↔ (reach m (proto_network o.kind) o.server o.server_port ≡ none)

-- The status page shows that outbound.
abbrev pub Shows : Option Snapshot → Option NodeInfo → Type 0
Shows none none = Unit
Shows (some o) (some i) =
    (i.protocol ≡ protocol_label o.kind) × (i.server ≡ o.server) × (i.port ≡ o.server_port)
Shows _ _ = ⊥
