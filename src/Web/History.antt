-- ===== src/Web/History.antt =====
-- internal/web/handlers.go: handleBackups and handleBackupsRestore.
pub mod Kept
pub mod Phased
use sing_box_helper.Prelude.{
  ℤ, Bool, not, List, Option, none, some, String, ◌==◌, Result, ok, err, if◌then◌else◌,
}
use sing_box_helper.Stamp.{Moment}
use sing_box_helper.Files.{Faults, Disk}
use sing_box_helper.Codec.{Codec}
use sing_box_helper.Backup.{Entry, BackupError, list_backups, restore, delete}
use sing_box_helper.Web.{
  Server, RestartFault, wrong_method, invalid_json, missing_file, failed_history, Reply, reply,
  refuse, restart_sing_box,
}

-- `backupsResponse`, or the answer to a deletion.
pub data HistoryResponse : Type 0 where
  backups : List Entry → ℤ → HistoryResponse
  deleted : String → HistoryResponse

-- `restoreResponse`; it reports a restart if `restart` has no problem.
pub record RestoreResponse : Type 0 where
  pub restored : String
  pub backup_of_previous : String
  pub restart : Option RestartFault

module _ (k : Codec) (f : Faults k.Content) where
  pub list_reply : Server → Result BackupError (List Entry) → Reply HistoryResponse
  list_reply s (err e) = refuse 500 (failed_history e)
  list_reply s (ok all) = reply (backups all s.keep_backups)

  pub deletion_reply :
      String
      → Result BackupError (Unit {0}) × Disk k.Content
      → Reply HistoryResponse × Disk k.Content
  deletion_reply file (err e, d) = (refuse 422 (failed_history e), d)
  deletion_reply file (ok _, d) = (reply (deleted file), d)

  -- `handleBackups`, with the value of the query's `file`.
  unfoldable pub handle_backups :
      String → String → Server → Disk k.Content → Reply HistoryResponse × Disk k.Content
  unfolding list_reply deletion_reply
  handle_backups method file s d =
      if method == "GET"
      then (list_reply s (list_backups k f s.config_path d), d)
      else if method == "DELETE"
      then (if file == ""
          then (refuse 400 missing_file, d)
          else deletion_reply file (delete k f s.config_path file d))
      else (refuse 405 wrong_method, d)

  pub restore_reply :
      (String → Option String)
      → String
      → Server
      → Result BackupError String × Disk k.Content
      → Reply RestoreResponse × Disk k.Content
  restore_reply run file s (err e, d) = (refuse 422 (failed_history e), d)
  restore_reply run file s (ok prev, d) = (
    reply (record {
      restored = file;
      backup_of_previous = prev;
      restart = restart_sing_box k f run s.init_script d;
    }),
    d,
  )

  -- `handleBackupsRestore`; the body is the value of its field `file`.
  unfoldable pub handle_backups_restore :
      (String → Option String)
      → String
      → Option String
      → Server
      → Moment
      → Disk k.Content
      → Reply RestoreResponse × Disk k.Content
  unfolding restore_reply
  handle_backups_restore run method body s now d =
      if not (method == "POST") then (refuse 405 wrong_method, d) else elim body [
        | none ↦ (refuse 400 invalid_json, d)
        | some file ↦
            if file == ""
            then (refuse 400 missing_file, d)
            else restore_reply run file s (restore k f s.config_path file now d)
      ]
