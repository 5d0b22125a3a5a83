-- ===== src/Web/Nodes/Managed.antt =====
-- internal/web/handlers.go: the status page after a node was applied.
use sing_box_helper.Prelude.{
  true, false, none, some, String, ◌==◌, Result, ok, err, eq_ℤ_iff, ◌≡◌, refl, subst, sym, eq_refl,
}
use sing_box_helper.Platform.{Platform}
use sing_box_helper.Stamp.{Moment}
use sing_box_helper.Paths.{clean, dir_of, base_of}
use sing_box_helper.Backup.{stamp_of_name}
use sing_box_helper.Backup.Spared.{trim-spares, trim-live}
use sing_box_helper.Files.{FileError, Faults, Disk, file_at, write_file, make_dir}
use sing_box_helper.Files.Laws.{write_file-ok, lookup-insert_same, read_file-some}
use sing_box_helper.Codec.{Codec, IsLawful}
use sing_box_helper.Config.Encode.{config_json}
use sing_box_helper.Config.Render.{config_of, render_json}
use sing_box_helper.Parser.Types.{ParsedNode, ParseError}
use sing_box_helper.Parser.Dispatch.{parse}
use sing_box_helper.Readback.{protocol_label}
use sing_box_helper.Readback.Rendered.{snapshot_of, read-render}
use sing_box_helper.Backup.{BackupError, create, trim}
use sing_box_helper.State.{StoreError, tmp_path, save}
use sing_box_helper.State.Types.{State}
use sing_box_helper.State.Saved.{Replaced, save-Replaced, load-some}
use sing_box_helper.State.Beside.{save-lookup}
use sing_box_helper.Web.{Server, Reply, reply, refuse, no_directory, bad_uri, read_state}
use sing_box_helper.Web.Nodes.{
  ApplyResponse, Outside, finished, written, backed_up, apply_node, handle_apply, handle_status,
  error_of, current_outbound, described, status_response,
}

reply-injective : {A : Type 0} (a b : A) → ◌≡◌ {A = Reply A} (reply a) (reply b) → a ≡ b
reply-injective a b h = cc

module _ (g : Platform) (k : Codec) (f : Faults k.Content) (w : Outside) (s : Server) (uri : String)
    (n : ParsedNode) (at : Moment) where
  abbrev applied : State
  applied = record { uri = uri; label = n.label; applied_at = at }

  -- The configuration and the state are on the disk.
  abbrev Stored : k.Content → Disk k.Content → Type 0
  Stored body d =
      (file_at s.config_path d ≡ some body) × (file_at s.state_path d ≡ some (k.json_state applied))

  module _ (tmp : (clean (tmp_path s.state_path) == clean s.state_path) ≡ false)
      (tmp_config : (clean (tmp_path s.state_path) == clean s.config_path) ≡ false)
      (state_config : (clean s.state_path == clean s.config_path) ≡ false)
      (tidy : clean s.config_path ≡ s.config_path)
      (no_backup : stamp_of_name s.config_path (base_of (clean s.state_path)) ≡ none) where
    trim-Stored :
        (body : k.Content) (d : Disk k.Content)
        → Stored body d
        → Stored body (trim k f s.config_path s.keep_backups d).1
    trim-Stored body d (live, stored) = (
      rw (trim-live k f s.config_path s.keep_backups d tidy, live),
      rw (trim-spares k f s.config_path (clean s.state_path) s.keep_backups d no_backup, stored),
    )

    save-Stored :
        (body : k.Content) (d : Disk k.Content) (x : Result StoreError (Unit {0}) × Disk k.Content)
        → save k f s.state_path applied d ≡ x
        → file_at s.config_path d ≡ some body
        → error_of x.0 ≡ none
        → Stored body x.1
    save-Stored body d (err e, d1) made live done = cc
    save-Stored body d (ok _, d1) made live done = (
      subst (λ x. file_at s.config_path x.1 ≡ some body) made
          (rw (save-lookup k f (clean s.config_path) s.state_path applied d tmp_config state_config)
            live),
      subst (Replaced s.state_path (k.json_state applied) d) made
          (save-Replaced k f s.state_path d tmp applied),
    )

    finished-Stored :
        (bak : String) (body : k.Content) (d : Disk k.Content)
        → file_at s.config_path d ≡ some body
        → (finished g k f w s uri n bak body at d).0.problems.state_save ≡ none
        → Stored body (finished g k f w s uri n bak body at d).1
    unfolding finished
    finished-Stored bak body d live done =
        trim-Stored body (save k f s.state_path applied d).1
          (save-Stored body d (save k f s.state_path applied d) refl live done)

    written-Stored :
        (bak : String) (body : k.Content) (d : Disk k.Content) (r : ApplyResponse)
        (x : Result FileError (Unit {0}) × Disk k.Content)
        → write_file f s.config_path body d ≡ x
        → (written g k f w s uri n bak body at x).0 ≡ reply r
        → r.problems.state_save ≡ none
        → Stored body (written g k f w s uri n bak body at x).1
    unfolding written
    written-Stored bak body d r (err e, d1) made done clear = cc
    written-Stored bak body d r (ok _, d1) made done clear =
        finished-Stored bak body d1
          (rw (
            write_file-ok f s.config_path body d d1 made,
            lookup-insert_same (clean s.config_path) body d,
          ))
          (subst (λ y. y.problems.state_save ≡ none)
            (sym (reply-injective (finished g k f w s uri n bak body at d1).0 r done)) clear)

    backed_up-Stored :
        (body : k.Content) (r : ApplyResponse) (x : Result BackupError String × Disk k.Content)
        → (backed_up g k f w s uri n body at x).0 ≡ reply r
        → r.problems.state_save ≡ none
        → Stored body (backed_up g k f w s uri n body at x).1
    unfolding backed_up
    backed_up-Stored body r (err e, d) done clear = cc
    backed_up-Stored body r (ok bak, d) done clear = go (make_dir f (dir_of s.config_path)) done
      where
        chosen : Result FileError (Unit {0}) → Reply ApplyResponse × Disk k.Content
        chosen m = elim m [
          | err e ↦ (refuse 500 (no_directory e), d)
          | ok _ ↦ written g k f w s uri n bak body at (write_file f s.config_path body d)
        ]

        go : (m : Result FileError (Unit {0})) → (chosen m).0 ≡ reply r → Stored body (chosen m).1
        go (err e) h = cc
        go (ok _) h = written-Stored bak body d r (write_file f s.config_path body d) refl h clear

    handle_apply-Stored :
        (now : Moment) (d : Disk k.Content) (r : ApplyResponse)
        → parse g uri ≡ ok n
        → (handle_apply g k f w "POST" (some uri) s now at d).0 ≡ reply r
        → r.problems.state_save ≡ none
        → Stored
            (k.json (config_json (config_of g n.outbound s.settings)))
            (handle_apply g k f w "POST" (some uri) s now at d).1
    unfolding handle_apply apply_node render_json
    handle_apply-Stored now d r parsed done clear =
        subst (λ p. (chosen p).0 ≡ reply r → Stored body (chosen p).1) (sym parsed)
          (λ h. backed_up-Stored body r (create k f s.config_path now d) h clear) done
      where
        body : k.Content
        body = k.json (config_json (config_of g n.outbound s.settings))

        chosen : Result ParseError ParsedNode → Reply ApplyResponse × Disk k.Content
        chosen p = elim p [
          | err e ↦ (refuse 422 (bad_uri e), d)
          | ok m ↦ apply_node g k f w s uri m now at d
        ]

    current_outbound-Stored :
        (law : IsLawful k) (d : Disk k.Content)
        → f.read s.config_path ≡ false
        → parse g uri ≡ ok n
        → Stored (k.json (config_json (config_of g n.outbound s.settings))) d
        → current_outbound g k f w s d ≡ some (snapshot_of n.outbound)
    unfolding current_outbound render_json
    current_outbound-Stored law d readable parsed (live, _) =
        let config = config_of g n.outbound s.settings in
        rw (
          read_file-some f s.config_path (k.json (config_json config)) d readable live,
          law.parse_json-json config,
          (read-render g uri n s.settings parsed).0,
        )

    read_state-Stored :
        (law : IsLawful k) (body : k.Content) (d : Disk k.Content)
        → f.read s.state_path ≡ false
        → Stored body d
        → read_state k f s d ≡ some applied
    unfolding read_state
    read_state-Stored law body d readable (_, stored) =
        rw (read_state, load-some k f s.state_path law applied d readable stored)

    described-applied :
        parse g uri ≡ ok n
        → described g k f w (snapshot_of n.outbound) (some applied) ≡ (record {
          managed = true;
          label = n.label;
          uri = uri;
          applied_at = some at;
          protocol = protocol_label n.outbound.kind;
          server = n.outbound.server;
          port = n.outbound.server_port;
        })
    unfolding described
    described-applied parsed = rw (
      described,
      parsed,
      eq_refl n.outbound.server,
      (eq_ℤ_iff n.outbound.server_port n.outbound.server_port).1 refl,
    )

    -- After an apply whose state file was saved, the status page reports the node as managed, with
    -- its label, URI, time, protocol, server and port, also when the restart failed, and whatever
    -- number of backups is kept. The path of the configuration is clean, the state file is neither
    -- that file nor named as its backup, the state's temporary file is another file, the two files
    -- can be read, and the encoders keep their documents.
    pub handle_status-handle_apply :
        (law : IsLawful k) (now : Moment) (d : Disk k.Content) (r : ApplyResponse)
        → f.read s.config_path ≡ false
        → f.read s.state_path ≡ false
        → parse g uri ≡ ok n
        → (handle_apply g k f w "POST" (some uri) s now at d).0 ≡ reply r
        → r.problems.state_save ≡ none
        → handle_status g k f w "GET" s (handle_apply g k f w "POST" (some uri) s now at d).1
          ≡ reply (
              status_response g k f w s (
                some (record {
                  managed = true;
                  label = n.label;
                  uri = uri;
                  applied_at = some at;
                  protocol = protocol_label n.outbound.kind;
                  server = n.outbound.server;
                  port = n.outbound.server_port;
                })))
    unfolding handle_status
    handle_status-handle_apply law now d r readable readable' parsed done clear =
        let d' = (handle_apply g k f w "POST" (some uri) s now at d).1 in
        let kept = handle_apply-Stored now d r parsed done clear in
        let body = k.json (config_json (config_of g n.outbound s.settings)) in
        rw (
          current_outbound-Stored law d' readable parsed kept,
          read_state-Stored law body d' readable' kept,
          described-applied parsed,
        )
