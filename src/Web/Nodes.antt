-- ===== src/Web/Nodes.antt =====
-- internal/web/handlers.go: handleStatus, handlePreview and handleApply.
pub mod Managed
pub mod Refused
pub mod Untouched
pub mod Phased
use sing_box_helper.Prelude.{
  ℕ, Bool, true, false, not, ◌&&◌, List, [], Option, none, some, String, ◌==◌, ℤ, pos, Result, ok,
  err, ltb_ℤ, eq_ℤ, if◌then◌else◌,
}
use sing_box_helper.Platform.{Platform}
use sing_box_helper.Json.{Json}
use sing_box_helper.Stamp.{Moment}
use sing_box_helper.Paths.{dir_of}
use sing_box_helper.Files.{FileError, Faults, Disk, read_file, write_file, make_dir}
use sing_box_helper.Codec.{Codec}
use sing_box_helper.Parser.Types.{Display, ParsedNode}
use sing_box_helper.Parser.Dispatch.{parse}
use sing_box_helper.Probe.{proto_network}
use sing_box_helper.Probe.Runtime.{Machine, Status, ProbeError, collect_status, reach}
use sing_box_helper.Config.Render.{render_json}
use sing_box_helper.Readback.{Snapshot, read_current_outbound, protocol_label}
use sing_box_helper.Backup.{BackupError, create, trim}
use sing_box_helper.State.{StoreError, save}
use sing_box_helper.State.Types.{State}
use sing_box_helper.Web.{
  Server, RestartFault, Refusal, wrong_method, invalid_json, bad_uri, no_render, no_backup,
  no_directory, no_write, Reply, reply, refuse, restart_sing_box, read_state, save_state,
}

-- `currentNodeInfo`
pub record NodeInfo : Type 0 where
  pub managed : Bool
  pub label : String
  pub uri : String
  pub applied_at : Option Moment
  pub protocol : String
  pub server : String
  pub port : ℤ

-- `statusResponse`
pub record StatusResponse : Type 0 where
  pub status : Status
  pub helper_version : String
  pub current_node : Option NodeInfo

-- `previewResponse`; the configuration is the JSON value.
pub record PreviewResponse : Type 0 where
  pub display : Display
  pub label : String
  pub config : Json

-- `reachInfo`, with the error of the probe.
pub record ReachInfo : Type 0 where
  pub network : String
  pub error : Option ProbeError

-- The parts of the field `restart_error`.
pub record Problems : Type 0 where
  pub restart : Option RestartFault
  pub state_save : Option StoreError
  pub trimming : Option BackupError

-- `applyResponse`; it reports a restart if `restart` has no problem.
pub record ApplyResponse : Type 0 where
  pub display : Display
  pub label : String
  pub backup_path : String
  pub config_size : ℕ
  pub reach : ReachInfo
  pub problems : Problems

-- What the probes find, and the run of the init script, with its error.
pub record Outside : Type 0 where
  pub machine : Machine
  pub run : String → Option String

abbrev pub error_of {ℓ κ} : {E : Type ℓ} {A : Type κ} → Result E A → Option E
error_of (ok _) = none
error_of (err e) = some e

module _ (g : Platform) (k : Codec) (f : Faults k.Content) (w : Outside) where
  -- `readCurrentOutbound`
  unfoldable pub current_outbound : Server → Disk k.Content → Option Snapshot
  current_outbound s d =
      read_current_outbound
        (elim (read_file f s.config_path d) [ err _ ↦ none | ok raw ↦ k.parse_json raw ])

  unfoldable pub unmanaged : Snapshot → NodeInfo
  unmanaged o = record {
    managed = false;
    label = "";
    uri = "";
    applied_at = none;
    protocol = protocol_label o.kind;
    server = o.server;
    port = o.server_port;
  }

  -- The metadata of the state file, if its node has the server and the port of the configuration.
  unfoldable pub described : Snapshot → Option State → NodeInfo
  unfolding unmanaged
  described o none = unmanaged o
  described o (some st) = elim (parse g st.uri) [
    | err _ ↦ unmanaged o
    | ok n ↦
        if n.outbound.server == o.server && eq_ℤ n.outbound.server_port o.server_port
        then record (unmanaged o) {
          managed = true;
          label = st.label;
          uri = st.uri;
          applied_at = some st.applied_at;
        }
        else unmanaged o
  ]

  -- The answer of `handleStatus`, with the node.
  unfoldable pub status_response : Server → Option NodeInfo → StatusResponse
  status_response s node = record {
    status = collect_status w.machine s.settings.tun_interface_name;
    helper_version = s.version;
    current_node = node;
  }

  -- `handleStatus`
  unfoldable pub handle_status : String → Server → Disk k.Content → Reply StatusResponse
  unfolding described
  handle_status method s d =
      if not (method == "GET") then refuse 405 wrong_method else elim (current_outbound s d) [
        | none ↦ reply (status_response s none)
        | some o ↦ reply (status_response s (some (described o (read_state k f s d))))
      ]

  -- `handlePreview`
  unfoldable pub handle_preview : String → Option String → Server → Reply PreviewResponse
  handle_preview method body s =
      if not (method == "POST") then refuse 405 wrong_method else elim body [
        | none ↦ refuse 400 invalid_json
        | some uri ↦ elim (parse g uri) [
          | err e ↦ refuse 422 (bad_uri e)
          | ok n ↦ elim (render_json g (some n) s.settings) [
            | none ↦ refuse 500 no_render
            | some j ↦ reply (record { display = n.display; label = n.label; config = j })
          ]
        ]
      ]

  -- The steps of `handleApply` behind the parsing, from the last to the first: the restart, the
  -- state file and the trimming; the write; the directory; the backup.
  pub finished :
      Server
      → String
      → ParsedNode
      → String
      → k.Content
      → Moment
      → Disk k.Content
      → ApplyResponse × Disk k.Content
  finished s uri n bak body at d =
      let network = proto_network n.outbound.kind in
      let (stored, d1) = save_state k f s uri n.label at d in
      let (trimmed, d2) = trim k f s.config_path s.keep_backups d1 in
      (
        record {
          display = n.display;
          label = n.label;
          backup_path = bak;
          config_size = k.size body;
          reach = record {
            network = network;
            error = reach w.machine network n.outbound.server n.outbound.server_port;
          };
          problems = record {
            restart = restart_sing_box k f w.run s.init_script d;
            state_save = error_of stored;
            trimming = error_of trimmed;
          };
        },
        d2,
      )

  pub written :
      Server
      → String
      → ParsedNode
      → String
      → k.Content
      → Moment
      → Result FileError (Unit {0}) × Disk k.Content
      → Reply ApplyResponse × Disk k.Content
  unfolding finished
  written s uri n bak body at (err e, d) = (refuse 500 (no_write e), d)
  written s uri n bak body at (ok _, d) =
      let (r, d') = finished s uri n bak body at d in (reply r, d')

  pub backed_up :
      Server
      → String
      → ParsedNode
      → k.Content
      → Moment
      → Result BackupError String × Disk k.Content
      → Reply ApplyResponse × Disk k.Content
  unfolding written
  backed_up s uri n body at (err e, d) = (refuse 500 (no_backup e), d)
  backed_up s uri n body at (ok bak, d) = elim (make_dir f (dir_of s.config_path)) [
    | err e ↦ (refuse 500 (no_directory e), d)
    | ok _ ↦ written s uri n bak body at (write_file f s.config_path body d)
  ]

  pub apply_node :
      Server
      → String
      → ParsedNode
      → Moment
      → Moment
      → Disk k.Content
      → Reply ApplyResponse × Disk k.Content
  unfolding backed_up
  apply_node s uri n now at d = elim (render_json g (some n) s.settings) [
    | none ↦ (refuse 500 no_render, d)
    | some j ↦ backed_up s uri n (k.json j) at (create k f s.config_path now d)
  ]

  -- `handleApply`. The moment `now` names the backup, and `at` is stored in the state.
  unfoldable pub handle_apply :
      String
      → Option String
      → Server
      → Moment
      → Moment
      → Disk k.Content
      → Reply ApplyResponse × Disk k.Content
  unfolding apply_node
  handle_apply method body s now at d =
      if not (method == "POST") then (refuse 405 wrong_method, d) else elim body [
        | none ↦ (refuse 400 invalid_json, d)
        | some uri ↦ elim (parse g uri) [
          | err e ↦ (refuse 422 (bad_uri e), d)
          | ok n ↦ apply_node s uri n now at d
        ]
      ]
