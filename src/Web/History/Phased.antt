-- ===== src/Web/History/Phased.antt =====
-- internal/web/handlers.go: the pages of backups as turns of writers.
use sing_box_helper.Prelude.{
  ◌≡◌, refl, ◌⊎◌, eq_iff, sym, subst, Bool, true, false, not, none, some, Option, String, ◌==◌,
  if◌then◌else◌, Bool-cases, inl, inr,
}
use sing_box_helper.Stamp.{Moment}
use sing_box_helper.Stamp.Printed.{IsCivil}
use sing_box_helper.Backup.Writers.Restored.{restore-Turns}
use sing_box_helper.Backup.Writers.Turn.{fresh, Turns, begun}
use sing_box_helper.Files.{Faults, Disk}
use sing_box_helper.Codec.{Codec}
use sing_box_helper.Backup.{delete, restore}
use sing_box_helper.Web.{Server, Reply, refuse, wrong_method, invalid_json, missing_file}
use sing_box_helper.Web.History.{
  RestoreResponse, handle_backups, restore_reply, handle_backups_restore,
}
use sing_box_helper.Web.History.Kept.{deletion_reply-disk, restore_reply-disk}

module _ (k : Codec) (f : Faults k.Content) (s : Server) (d : Disk k.Content) where
  -- A request to the page of backups changes nothing, or is a deletion.
  abbrev pub Deletes : String → String → Disk k.Content → Type 0
  Deletes method file d' =
      (d' ≡ d) ⊎ ((method ≡ "DELETE") × (d' ≡ (delete k f s.config_path file d).1))

  pub handle_backups-Deletes :
      (method file : String) → Deletes method file (handle_backups k f method file s d).1
  unfolding handle_backups
  handle_backups-Deletes method file = elim (Bool-cases (method == "GET")) [
    | inl t ↦ rw t (inl refl)
    | inr t ↦ elim (Bool-cases (method == "DELETE")) [
      | inl u ↦ elim (Bool-cases (file == "")) [
        | inl v ↦ rw (t, u, v) (inl refl)
        | inr v ↦
            rw (t, u, v)
              (inr (
                (eq_iff method "DELETE").0 u,
                deletion_reply-disk k f s d file (delete k f s.config_path file d),
              ))
      ]
      | inr u ↦ rw (t, u) (inl refl)
    ]
  ]

module _ (k : Codec) (f : Faults k.Content) (s : Server) (d : Disk k.Content)
    (run : String → Option String) (now : Moment) where
  -- What the turn has reached.
  abbrev Reached : Disk k.Content → Type 0
  Reached = Turns k s.config_path s.state_path s.settings_path s.keep_backups d

  pub handle_backups_restore-Turns :
      IsCivil now
      → (method : String) (body : Option String)
      → Reached (handle_backups_restore k f run method body s now d).1
  unfolding handle_backups_restore
  handle_backups_restore-Turns civil method body = go (method == "POST") body
    where
      wanted : String → Bool → Reply RestoreResponse × Disk k.Content
      wanted file is_empty =
          if is_empty
          then (refuse 400 missing_file, d)
          else restore_reply k f run file s (restore k f s.config_path file now d)

      put : (file : String) (b : Bool) → Reached (wanted file b).1
      put file true = (fresh, begun)
      put file false =
          subst Reached
            (sym (restore_reply-disk k f s d run now file (restore k f s.config_path file now d)))
            (restore-Turns k f s.config_path s.state_path s.settings_path s.keep_backups d file now
              d civil begun)

      go :
          (is_post : Bool) (b : Option String)
          → Reached
              (if◌then◌else◌ {A = Reply RestoreResponse × Disk k.Content}
                (not is_post)
                (refuse 405 wrong_method, d)
                (elim b as (λ _. Reply RestoreResponse × Disk k.Content) [
                  | none ↦ (refuse 400 invalid_json, d)
                  | some file ↦ wanted file (file == "")
                ])).1
      go false b = (fresh, begun)
      go true none = (fresh, begun)
      go true (some file) = put file (file == "")
