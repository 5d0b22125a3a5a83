-- ===== src/Backup/Writers/Kept.antt =====
-- internal/backup/backup.go: the content that overlapping writers of the live configuration replace.
use sing_box_helper.Prelude.{
  ℤ, ℕ, false, none, some, String, ◌==◌, Result, ok, err, ◌≡◌, refl, sym, ap, ◌∙◌, ◌⊎◌, inl, inr,
  eq_iff, Bool-cases,
}
use sing_box_helper.Paths.{clean, base_of}
use sing_box_helper.Paths.Names.{IsPlain, EndsIn}
use sing_box_helper.Stamp.{Moment}
use sing_box_helper.Stamp.Printed.{IsCivil, whole}
use sing_box_helper.Files.{Faults, Disk, lookup, file_at}
use sing_box_helper.Files.Laws.{write_file-lookup}
use sing_box_helper.Codec.{Codec}
use sing_box_helper.Backup.Trimmed.{TrimmedOut, trim-TrimmedOut}
use sing_box_helper.Backup.Spared.{trim-spares}
use sing_box_helper.Backup.Delete.{delete-lookup, delete-other}
use sing_box_helper.Backup.Names.{is_backup_key-none}
use sing_box_helper.Backup.{delete, trim, BackupError, create, stamp_of_name}
use sing_box_helper.Backup.Create.{create-lookup, create-Copied}
use sing_box_helper.Backup.Found.{belongs_here-backup_path}
use sing_box_helper.Backup.Restore.{create-live}
use sing_box_helper.State.{tmp_path, save, save_settings}
use sing_box_helper.State.Beside.{save-lookup, save_settings-lookup}
use sing_box_helper.Backup.Writers.{
  TakesOut, SomeTakesOut, trimming, deleting, Shared, joined, Phase, copying, writing, leaving,
  storing, setting, Phases, at_start, then_one, IsSeparate, InBackup,
}

module _ (k : Codec) (config state settings : String) (apart : IsSeparate config state settings)
    (name : String) (plain : IsPlain name) (ends : EndsIn config name) (c : k.Content) where
  -- The first content is in a backup, or still in the live file with no writer past its copy.
  abbrev IsSafe : Shared k.Content → Type 0
  IsSafe (d, n) = InBackup config c d ⊎ ((n ≡ 0) × (file_at config d ≡ some c))

  key-differs :
      (other key : String) (m : Moment)
      → stamp_of_name config (base_of other) ≡ none
      → stamp_of_name config (base_of key) ≡ some m
      → (other == key) ≡ false
  key-differs other key m unnamed named = elim (Bool-cases (other == key)) [
    | inl t ↦ let same : other ≡ key = (eq_iff other key).0 t in cc
    | inr t ↦ t
  ]

  copied-IsSafe :
      (f : Faults k.Content) (now : Moment) (d : Disk k.Content) (n : ℕ)
      (x : Result BackupError String × Disk k.Content)
      → IsCivil now
      → create k f config now d ≡ x
      → n ≡ 0
      → file_at config d ≡ some c
      → IsSafe (x.1, joined x.0 n)
  copied-IsSafe f now d n (err e, d1) civil made idle live =
      inr (idle, ap (λ x. file_at config x.1) (sym made) ∙ (create-live k f config now d ∙ live))
  copied-IsSafe f now d n (ok bak, d1) civil made idle live =
      elim (create-Copied k f config bak now d d1 made) [
        | inl (_, gone, _) ↦ cc
        | inr (same, _, there) ↦
            let (_, named) = belongs_here-backup_path config name plain ends now civil in
            inl (clean bak, whole now, rw same named, there ∙ live)
      ]

  copying-IsSafe :
      (f : Faults k.Content) (now : Moment) (d : Disk k.Content) (n : ℕ)
      → IsCivil now
      → IsSafe (d, n)
      → IsSafe ((create k f config now d).1, joined (create k f config now d).0 n)
  copying-IsSafe f now d n civil (inl (key, m, named, here)) =
      inl (key, m, named, create-lookup k f config key now d c here)
  copying-IsSafe f now d n civil (inr (idle, live)) =
      copied-IsSafe f now d n (create k f config now d) civil refl idle live

  -- A change of other files keeps both cases.
  others-IsSafe :
      (d d' : Disk k.Content) (n : ℕ)
      → ((key : String)
          → lookup key d ≡ some c
          → (m : Moment) → stamp_of_name config (base_of key) ≡ some m
          → lookup key d' ≡ some c)
      → (file_at config d ≡ some c → file_at config d' ≡ some c)
      → IsSafe (d, n)
      → IsSafe (d', n)
  others-IsSafe d d' n backups live (inl (key, m, named, here)) =
      inl (key, m, named, backups key here m named)
  others-IsSafe d d' n backups live (inr (idle, there)) = inr (idle, live there)

  trimming-IsSafe :
      (f : Faults k.Content) (keep : ℤ) (d : Disk k.Content) (n : ℕ)
      → IsSafe (d, n)
      → IsSafe ((trim k f config keep d).1, n) ⊎ TrimmedOut k f config keep c d
  trimming-IsSafe f keep d n (inr (idle, live)) =
      inl (inr (idle, trim-spares k f config (clean config) keep d apart.live ∙ live))
  trimming-IsSafe f keep d n (inl (key, m, named, here)) =
      elim (trim-TrimmedOut k f config key c keep d here) [
        | inl there ↦ inl (inl (key, m, named, there))
        | inr out ↦ inr out
      ]

  deleting-IsSafe :
      (f : Faults k.Content) (file : String) (d : Disk k.Content) (n : ℕ)
      → IsSafe (d, n)
      → IsSafe ((delete k f config file d).1, n) ⊎ (file_at file d ≡ some c)
  deleting-IsSafe f file d n (inr (idle, live)) =
      let unnamed = is_backup_key-none config (clean config) apart.live in
      inl (inr (idle, delete-lookup k f config file (clean config) d unnamed ∙ live))
  deleting-IsSafe f file d n (inl (key, m, named, here)) = elim (Bool-cases (clean file == key)) [
    | inl t ↦ inr (ap (λ x. lookup x d) ((eq_iff (clean file) key).0 t) ∙ here)
    | inr t ↦ inl (inl (key, m, named, delete-other k f config file key d t ∙ here))
  ]

  Phase-IsSafe :
      (v w : Shared k.Content) (step : Phase k config state settings v w)
      → IsSafe v
      → IsSafe w ⊎ TakesOut k config state settings c v w step
  Phase-IsSafe v w (trimming f keep d n) safe = trimming-IsSafe f keep d n safe
  Phase-IsSafe v w (deleting f file d n) safe = deleting-IsSafe f file d n safe
  Phase-IsSafe v w (copying f now d n civil) safe = inl (copying-IsSafe f now d n civil safe)
  Phase-IsSafe v w (writing f body d n) (inl (key, m, named, here)) = inl (
      inl (
        key,
        m,
        named,
        write_file-lookup f key config body d (key-differs (clean config) key m apart.live named)
            ∙ here,
      ))
  Phase-IsSafe v w (writing f body d n) (inr (idle, live)) = cc
  Phase-IsSafe v w (leaving d n) (inl saved) = inl (inl saved)
  Phase-IsSafe v w (leaving d n) (inr (idle, live)) = cc
  Phase-IsSafe v w (storing f st d n) safe = inl (
      others-IsSafe d (save k f state st d).1 n
        (λ key here m named.
          save-lookup k f key state st d
            (key-differs (clean (tmp_path state)) key m apart.state_tmp named)
            (key-differs (clean state) key m apart.state_file named)
          ∙ here)
        (λ live.
          save-lookup k f (clean config) state st d apart.not_state_tmp apart.not_state ∙ live)
        safe)
  Phase-IsSafe v w (setting f s d n) safe = inl (
      others-IsSafe d (save_settings k f settings s d).1 n
        (λ key here m named.
          save_settings-lookup k f key settings s d
            (key-differs (clean (tmp_path settings)) key m apart.settings_tmp named)
            (key-differs (clean settings) key m apart.settings_file named)
          ∙ here)
        (λ live.
          save_settings-lookup k f (clean config) settings s d apart.not_settings_tmp
            apart.not_settings
          ∙ live)
        safe)

  Phases-IsSafe :
      (v w : Shared k.Content) (run : Phases k config state settings v w)
      → IsSafe v
      → IsSafe w ⊎ SomeTakesOut k config state settings c v w run
  Phases-IsSafe v w at_start safe = inl safe
  Phases-IsSafe v w (then_one u w' before step) safe = elim (Phases-IsSafe v u before safe) [
    | inl still ↦ elim (Phase-IsSafe u w step still) [
      | inl then ↦ inl then
      | inr out ↦ inr (inr out)
    ]
    | inr out ↦ inr (inl out)
  ]

  -- However many writers of the live configuration overlap, in whatever order their steps come and
  -- whichever of their calls fail, the content that the live file had before the first of them is
  -- not lost: it is still there, or in a file that is named as a backup, unless one of the steps is
  -- a Delete that is given a file with that content, or a Trim that removes one as a file behind
  -- the entries that it is to keep. No writer is past its copy at the start. The configuration, the state and the settings
  -- with their temporary files are separate and not named as backups, and the path of the
  -- configuration ends in a plain name.
  pub Phases-kept :
      (d d' : Disk k.Content) (n : ℕ)
      → file_at config d ≡ some c
      → (run : Phases k config state settings (d, 0) (d', n))
      → (file_at config d' ≡ some c)
        ⊎ (InBackup config c d' ⊎ SomeTakesOut k config state settings c (d, 0) (d', n) run)
  Phases-kept d d' n live run = elim (Phases-IsSafe (d, 0) (d', n) run (inr (refl, live))) [
    | inl (inl saved) ↦ inr (inl saved)
    | inl (inr (_, there)) ↦ inl there
    | inr out ↦ inr (inr out)
  ]
