-- ===== src/Web/History/Kept.antt =====
-- internal/web/handlers.go: what the requests of the page of backups leave on the disk.
use sing_box_helper.Prelude.{
  Bool, true, false, not, none, some, Option, String, ◌==◌, Result, ok, err, if◌then◌else◌, ◌≡◌,
  refl, ap, ◌∙◌, List, Bool-cases, inl, inr,
}
use sing_box_helper.Stamp.{Moment}
use sing_box_helper.Files.{Faults, Disk, lookup, file_at}
use sing_box_helper.Codec.{Codec}
use sing_box_helper.Backup.{
  Entry, BackupError, failed_write, list_backups, delete, restore, backup_path, is_backup_key,
  failed_read, failed_stat, not_a_backup, failed_snapshot, failed_list, failed_create, copy_failed,
  failed_open, failed_remove,
}
use sing_box_helper.Paths.{clean}
use sing_box_helper.Backup.Replaced.{restore-lookup}
use sing_box_helper.Backup.Delete.{Deleted, delete-Deleted}
use sing_box_helper.Backup.Restore.{Saved, Restored, restore-Restored}
use sing_box_helper.Web.{
  Server, Reply, reply, refuse, failed_history, wrong_method, invalid_json, missing_file,
}
use sing_box_helper.Web.History.{
  HistoryResponse, backups, deleted, RestoreResponse, list_reply, deletion_reply, handle_backups,
  restore_reply, handle_backups_restore,
}

module _ (k : Codec) (f : Faults k.Content) (s : Server) (d : Disk k.Content) where
  -- A deletion that is reported has removed its file, and any other request leaves the disk.
  abbrev pub Answered : Reply HistoryResponse × Disk k.Content → Type 0
  Answered (reply (deleted file), d') = file_at file d' ≡ none
  Answered (reply (backups _ _), d') = d' ≡ d
  Answered (refuse _ _, d') = d' ≡ d

  list_reply-Answered : (r : Result BackupError (List Entry)) → Answered (list_reply k f s r, d)
  unfolding list_reply
  list_reply-Answered (ok _) = refl
  list_reply-Answered (err _) = refl

  deletion_reply-Answered :
      (file : String) (x : Result BackupError (Unit {0}) × Disk k.Content)
      → Deleted file d x
      → Answered (deletion_reply k f file x)
  unfolding deletion_reply
  deletion_reply-Answered file (ok _, d1) gone = gone
  deletion_reply-Answered file (err _, d1) same = same

  pub deletion_reply-disk :
      (file : String) (x : Result BackupError (Unit {0}) × Disk k.Content)
      → (deletion_reply k f file x).1 ≡ x.1
  unfolding deletion_reply
  deletion_reply-disk file (ok _, d1) = refl
  deletion_reply-disk file (err _, d1) = refl

  -- A request to the page of backups changes no file but a backup of the configuration, whatever
  -- its method and its file. A deletion that is reported has removed the file, and any other answer
  -- comes with the disk as it was.
  pub handle_backups-Answered :
      (method file key : String)
      → is_backup_key s.config_path key ≡ false
      → (lookup key (handle_backups k f method file s d).1 ≡ lookup key d)
        × Answered (handle_backups k f method file s d)
  unfolding handle_backups
  handle_backups-Answered method file key other =
      go (method == "GET") (method == "DELETE") (file == "")
    where
      served : Bool → Bool → Bool → Reply HistoryResponse × Disk k.Content
      served is_get is_delete is_empty =
          if is_get
          then (list_reply k f s (list_backups k f s.config_path d), d)
          else if is_delete
          then (if is_empty
              then (refuse 400 missing_file, d)
              else deletion_reply k f file (delete k f s.config_path file d))
          else (refuse 405 wrong_method, d)

      go :
          (is_get is_delete is_empty : Bool)
          → (lookup key (served is_get is_delete is_empty).1 ≡ lookup key d)
            × Answered (served is_get is_delete is_empty)
      go true is_delete is_empty = (refl, list_reply-Answered (list_backups k f s.config_path d))
      go false false is_empty = (refl, refl)
      go false true true = (refl, refl)
      go false true false =
          let (same, gone) = delete-Deleted k f s.config_path file key d other in
          (
            ap (lookup key) (deletion_reply-disk file (delete k f s.config_path file d)) ∙ same,
            deletion_reply-Answered file (delete k f s.config_path file d) gone,
          )

  module _ (run : String → Option String) (now : Moment) where
    abbrev pub PutBack : Reply RestoreResponse × Disk k.Content → Type 0
    PutBack (reply r, d') =
        (file_at s.config_path d' ≡ file_at r.restored d)
        × Saved k f s.config_path r.backup_of_previous d d'
    PutBack (refuse _ (failed_history (failed_write _)), d') =
        Saved k f s.config_path (backup_path s.config_path now) d d'
    PutBack (refuse _ _, d') = file_at s.config_path d' ≡ file_at s.config_path d

    restore_reply-PutBack :
        (file : String) (x : Result BackupError String × Disk k.Content)
        → Restored k f s.config_path file now d x
        → PutBack (restore_reply k f run file s x)
    unfolding restore_reply
    restore_reply-PutBack file (ok bak, d1) h = h
    restore_reply-PutBack file (err (failed_write _), d1) h = h
    restore_reply-PutBack file (err (failed_read _), d1) h = h
    restore_reply-PutBack file (err (failed_stat _), d1) h = h
    restore_reply-PutBack file (err (not_a_backup _), d1) h = h
    restore_reply-PutBack file (err (failed_snapshot _), d1) h = h
    restore_reply-PutBack file (err (failed_list _), d1) h = h
    restore_reply-PutBack file (err (failed_create _), d1) h = h
    restore_reply-PutBack file (err (copy_failed _), d1) h = h
    restore_reply-PutBack file (err (failed_open _), d1) h = h
    restore_reply-PutBack file (err (failed_remove _), d1) h = h

    -- A restore that the page reports has given the live file the content of the chosen backup and
    -- keeps the old content in the backup that the answer names, whether sing-box restarts or not.
    -- One that is refused for the last write has saved the old content, and any other refusal
    -- leaves the live file as it was.
    pub handle_backups_restore-PutBack :
        (method : String) (body : Option String)
        → PutBack (handle_backups_restore k f run method body s now d)
    unfolding handle_backups_restore
    handle_backups_restore-PutBack method body = go (method == "POST") body
      where
        go :
            (is_post : Bool) (b : Option String)
            → PutBack (
                if not is_post then (refuse 405 wrong_method, d) else elim b [
                  | none ↦ (refuse 400 invalid_json, d)
                  | some file ↦
                      if file == ""
                      then (refuse 400 missing_file, d)
                      else restore_reply k f run file s (restore k f s.config_path file now d)
                ])
        go false b = refl
        go true none = refl
        go true (some file) = elim (Bool-cases (file == "")) [
          | inl t ↦ rw t refl
          | inr t ↦ rw t (
              restore_reply-PutBack file (restore k f s.config_path file now d)
                (restore-Restored k f s.config_path file now d))
        ]

    pub restore_reply-disk :
        (file : String) (x : Result BackupError String × Disk k.Content)
        → (restore_reply k f run file s x).1 ≡ x.1
    unfolding restore_reply
    restore_reply-disk file (ok bak, d1) = refl
    restore_reply-disk file (err e, d1) = refl

    -- A restore request changes no file that exists but the live one.
    pub handle_backups_restore-lookup :
        (key : String) (c : k.Content)
        → (clean s.config_path == key) ≡ false
        → (method : String) (body : Option String) → lookup key d ≡ some c
        → lookup key (handle_backups_restore k f run method body s now d).1 ≡ some c
    unfolding handle_backups_restore
    handle_backups_restore-lookup key c other method body there = go (method == "POST") body
      where
        wanted : String → Bool → Reply RestoreResponse × Disk k.Content
        wanted file is_empty =
            if is_empty
            then (refuse 400 missing_file, d)
            else restore_reply k f run file s (restore k f s.config_path file now d)

        put : (file : String) (b : Bool) → lookup key (wanted file b).1 ≡ some c
        put file true = there
        put file false =
            ap (lookup key) (restore_reply-disk file (restore k f s.config_path file now d))
            ∙ restore-lookup k f key s.config_path c other file now d there

        go :
            (is_post : Bool) (b : Option String)
            → lookup key
                (if◌then◌else◌ {A = Reply RestoreResponse × Disk k.Content}
                  (not is_post)
                  (refuse 405 wrong_method, d)
                  (elim b as (λ _. Reply RestoreResponse × Disk k.Content) [
                    | none ↦ (refuse 400 invalid_json, d)
                    | some file ↦ wanted file (file == "")
                  ])).1
              ≡ some c
        go false b = there
        go true none = there
        go true (some file) = put file (file == "")
