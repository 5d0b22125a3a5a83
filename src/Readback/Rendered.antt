-- ===== src/Readback/Rendered.antt =====
-- What is read back from a rendered configuration.
use sing_box_helper.Prelude.{
  true, false, List, [], ◌∷◌, ◌++◌, Option, none, some, String, ◌==◌, ℤ, pos, negsuc, ◌≡◌, refl,
  sym, ap, append-nil, ok, arith, eq_ℤ, eq_ℤ_iff, eq_iff, Bool-cases, inl, inr, ◌∙◌,
}
use sing_box_helper.Text.{equal_fold}
use sing_box_helper.Platform.{Platform}
use sing_box_helper.Json.{
  Json, int, str, members, Fields, field, str_omit, int_omit, list_of, pointer_omit, list_omit,
}
use sing_box_helper.Parser.Types.{Outbound, ParsedNode}
use sing_box_helper.Parser.Common.{IsPort}
use sing_box_helper.Parser.Dispatch.{parse}
use sing_box_helper.Parser.Shape.{parse-IsWellFormed}
use sing_box_helper.Config.Settings.{Settings}
use sing_box_helper.Config.Types.{node, direct}
use sing_box_helper.Config.Encode.{
  outbound_fields, any_outbound_json, config_json, tls_json, obfs_json, transport_json,
  experimental_json,
}
use sing_box_helper.Config.Render.{config_of, render_json}
use sing_box_helper.Readback.{
  Snapshot, zero_snapshot, decode_str, decode_int, is_int64, decode_member, decode_members,
  decode_snapshot, decode_items, decode_outbounds, decode_doc_members, decode_doc,
  read_current_outbound, summary_outbound,
}

-- The decoder on the fields of an object.
abbrev decode_fields : Snapshot → Fields → Option Snapshot
decode_fields s ms = decode_members s (members ms)

-- Fields that the decoder reads as `s'` from `s`, whatever follows them.
abbrev Gives : Fields → Snapshot → Snapshot → Type 0
Gives ms s s' = (rest : Fields) → decode_fields s (ms ++ rest) ≡ decode_fields s' rest

-- A key that is none of the four.
abbrev Skipped : String → Type 0
Skipped key = (s : Snapshot) (v : Json) → decode_member s key v ≡ some s

skip_field : (key : String) (v : Json) (s : Snapshot) → Skipped key → Gives (field key v) s s
unfolding decode_members
skip_field key v s h rest = rw (decode_members, h s v)

skip_str : (key v : String) (s : Snapshot) → Skipped key → Gives (str_omit key v) s s
unfolding str_omit
skip_str key v s h rest = elim (Bool-cases (v == "")) [
  | inl e ↦ rw e
  | inr e ↦ rw e (skip_field key (str v) s h rest)
]

skip_pointer {ℓ} :
    {A : Type ℓ} (encode : A → Json) (key : String) (o : Option A) (s : Snapshot)
    → Skipped key
    → Gives (pointer_omit encode key o) s s
unfolding pointer_omit
skip_pointer encode key none s h rest = refl
skip_pointer encode key (some a) s h rest = skip_field key (encode a) s h rest

server_field :
    (kind tag server : String)
    → Gives
        (str_omit "server" server)
        (record zero_snapshot { kind = kind; tag = tag })
        (record zero_snapshot { kind = kind; tag = tag; server = server })
unfolding str_omit decode_members decode_member decode_str equal_fold
server_field kind tag server rest = elim (Bool-cases (server == "")) [
  | inl e ↦ rw (e, (eq_iff server "").0 e)
  | inr e ↦ rw e
]

port_member :
    (s : Snapshot) (port : ℤ)
    → is_int64 port ≡ true
    → decode_member s "server_port" (int port) ≡ some (record s { server_port = port })
unfolding decode_member decode_int equal_fold
port_member s port h = rw h

port_field :
    (kind tag server : String) (port : ℤ)
    → is_int64 port ≡ true
    → Gives
        (int_omit "server_port" port)
        (record zero_snapshot { kind = kind; tag = tag; server = server })
        (record { kind = kind; tag = tag; server = server; server_port = port })
unfolding int_omit decode_members
port_field kind tag server port h rest = elim (Bool-cases (eq_ℤ port (pos 0))) [
  | inl e ↦ rw (e, (eq_ℤ_iff port (pos 0)).0 e)
  | inr e ↦ rw (
    e,
    decode_members,
    port_member (record zero_snapshot { kind = kind; tag = tag; server = server }) port h,
  )
]

-- The four fields of an outbound, as they are read back.
abbrev pub snapshot_of : Outbound → Snapshot
snapshot_of o = record {
  kind = o.kind;
  tag = o.tag;
  server = o.server;
  server_port = o.server_port;
}

decode_outbound :
    (o : Outbound)
    → is_int64 o.server_port ≡ true
    → decode_snapshot (any_outbound_json (node o)) ≡ some (snapshot_of o)
unfolding any_outbound_json outbound_fields decode_snapshot decode_members decode_member decode_str
    equal_fold
decode_outbound o h =
    server_field o.kind o.tag o.server _
    ∙ port_field o.kind o.tag o.server o.server_port h _
    ∙ skip_str "password" o.password s (λ _ _. refl) _
    ∙ skip_str "uuid" o.uuid s (λ _ _. refl) _
    ∙ skip_str "flow" o.flow s (λ _ _. refl) _
    ∙ skip_str "version" o.version s (λ _ _. refl) _
    ∙ skip_str "username" o.username s (λ _ _. refl) _
    ∙ skip_pointer tls_json "tls" o.tls s (λ _ _. refl) _
    ∙ skip_pointer obfs_json "obfs" o.obfs s (λ _ _. refl) _
    ∙ ap (decode_fields s) (sym (append-nil (pointer_omit transport_json "transport" o.transport)))
    ∙ skip_pointer transport_json "transport" o.transport s (λ _ _. refl) []
  where
    s : Snapshot
    s = snapshot_of o

-- The document: only the key "outbounds" is read.
abbrev decode_doc_fields : List Snapshot → Fields → Option (List Snapshot)
decode_doc_fields ss ms = decode_doc_members ss (members ms)

skip_doc {ℓ} :
    {A : Type ℓ} (encode : A → Json) (key : String) (o : Option A) (ss : List Snapshot)
    (rest : Fields)
    → equal_fold key "outbounds" ≡ false
    → decode_doc_fields ss (pointer_omit encode key o ++ rest) ≡ decode_doc_fields ss rest
unfolding pointer_omit decode_doc_members
skip_doc encode key none ss rest h = refl
skip_doc encode key (some a) ss rest h = rw (decode_doc_members, h)

read_doc :
    (v : Json) (ss ss' : List Snapshot) (rest : Fields)
    → decode_outbounds v ≡ some ss'
    → decode_doc_fields ss (field "outbounds" v ++ rest) ≡ decode_doc_fields ss' rest
unfolding decode_doc_members equal_fold
read_doc v ss ss' rest h = rw (decode_doc_members, h)

IsPort-is_int64 : (n : ℤ) → IsPort n → is_int64 n ≡ true
IsPort-is_int64 (pos n) h = ground arith
IsPort-is_int64 (negsuc n) h = absurd (omega arith)

abbrev pub direct_snapshot : Snapshot
direct_snapshot = record zero_snapshot { kind = "direct"; tag = "direct" }

decode_two :
    (o : Outbound)
    → is_int64 o.server_port ≡ true
    → decode_outbounds (
        list_of any_outbound_json
          (node o ∷ direct (record { kind = "direct"; tag = "direct" }) ∷ []))
      ≡ some (snapshot_of o ∷ direct_snapshot ∷ [])
unfolding decode_outbounds decode_items
decode_two o h =
    rw (decode_items, decode_outbound o h)
      (unfold any_outbound_json decode_snapshot decode_members decode_member decode_str
          equal_fold in
        refl)

decode_rendered :
    (g : Platform) (o : Outbound) (s : Settings)
    → is_int64 o.server_port ≡ true
    → decode_doc (config_json (config_of g o s)) ≡ some (snapshot_of o ∷ direct_snapshot ∷ [])
unfolding decode_doc config_json config_of decode_doc_members list_omit equal_fold pointer_omit
decode_rendered g o s h =
    let e = (config_of g o s).experimental in
    let ss = snapshot_of o ∷ direct_snapshot ∷ [] in
    read_doc _ [] ss (pointer_omit experimental_json "experimental" e) (decode_two o h)
    ∙ ap (decode_doc_fields ss) (sym (append-nil (pointer_omit experimental_json "experimental" e)))
    ∙ skip_doc experimental_json "experimental" e ss [] refl

-- The configuration rendered for a parsed node is read back as that node, by the status page
-- and by the list of backups alike: its type, tag, server and port.
pub read-render :
    (g : Platform) (raw : String) (n : ParsedNode) (s : Settings)
    → parse g raw ≡ ok n
    → (read_current_outbound (render_json g (some n) s) ≡ some (snapshot_of n.outbound))
      × (summary_outbound (render_json g (some n) s) ≡ some (snapshot_of n.outbound))
unfolding render_json read_current_outbound summary_outbound
read-render g raw n s h =
    let w = parse-IsWellFormed g raw n h in
    let tag : (n.outbound.tag == "proxy") ≡ true = rw w.tag_is in
    let e =
      decode_rendered g n.outbound s (IsPort-is_int64 n.outbound.server_port w.port_in_range) in
    (rw (read_current_outbound, e, tag), rw (summary_outbound, e, tag))
