-- ===== src/Backup/Restore.antt =====
-- internal/backup/backup.go: what Restore and Delete leave on the disk.
use sing_box_helper.Prelude.{
  Bool, true, false, not, none, some, String, if◌then◌else◌, Result, ok, err, ◌≡◌, refl, ◌⊎◌, inl,
  inr, Option-cases, subst, ap,
}
use sing_box_helper.Paths.{clean}
use sing_box_helper.Stamp.{Moment}
use sing_box_helper.Files.{
  FileError, not_exist, exists, failed, Faults, Disk, insert, read_file, stat_file, write_file,
  file_at,
}
use sing_box_helper.Files.Laws.{
  lookup-differs_from, write_file-lookup, write_file-ok, lookup-insert_same, read_file-ok,
  stat_file-ok,
}
use sing_box_helper.Codec.{Codec}
use sing_box_helper.Backup.{
  BackupError, failed_write, failed_read, failed_stat, not_a_backup, put_back, restore, create,
  created, backup_path, belongs_here,
}
use sing_box_helper.Backup.Create.{create-lookup, create-Copied}

module _ (k : Codec) (f : Faults k.Content) where
  created-absent :
      (config bak : String) (r : Result FileError k.Content) (d : Disk k.Content)
      → file_at config d ≡ none
      → read_file f config d ≡ r
      → (created k f bak r d).1 ≡ d
  unfolding created
  created-absent config bak (err (not_exist _)) d gone e = refl
  created-absent config bak (err (exists _)) d gone e = refl
  created-absent config bak (err (failed _)) d gone e = refl
  created-absent config bak (ok c) d gone e = cc (read_file-ok f config c d e)

  -- Create leaves the live file as it was.
  pub create-live :
      (config : String) (now : Moment) (d : Disk k.Content)
      → file_at config (create k f config now d).1 ≡ file_at config d
  unfolding create
  create-live config now d = elim (Option-cases (file_at config d)) [
    | inl gone ↦
        rw (created-absent config (backup_path config now) (read_file f config d) d gone refl)
    | inr (c, here) ↦ rw (create-lookup k f config (clean config) now d c here, here)
  ]

  -- The old live content is at `bak`, unless there was none.
  abbrev pub Saved : String → String → Disk k.Content → Disk k.Content → Type 0
  Saved config bak d d' = (file_at config d ≡ none) ⊎ (file_at bak d' ≡ file_at config d)

  abbrev pub Restored :
      String
      → String
      → Moment
      → Disk k.Content
      → Result BackupError String × Disk k.Content
      → Type 0
  Restored config file now d (ok bak, d') =
      (file_at config d' ≡ file_at file d) × Saved config bak d d'
  Restored config file now d (err (failed_write _), d') = Saved config (backup_path config now) d d'
  Restored config file now d (err _, d') = file_at config d' ≡ file_at config d

  -- The write to the live file leaves the copy alone.
  pub write-Saved :
      (config bak : String) (now : Moment) (body : k.Content) (d d1 : Disk k.Content)
      → create k f config now d ≡ (ok bak, d1)
      → Saved config bak d (write_file f config body d1).1
        × Saved config (backup_path config now) d (write_file f config body d1).1
  write-Saved config bak now body d d1 made = elim (create-Copied k f config bak now d d1 made) [
    | inl (_, gone, _) ↦ (inl gone, inl gone)
    | inr (same, free, there) ↦ elim (Option-cases (file_at config d)) [
      | inl gone ↦ (inl gone, inl gone)
      | inr (c, live) ↦
          let kept : file_at bak (write_file f config body d1).1 ≡ file_at config d = rw (
            write_file-lookup f (clean bak) config body d1
                (lookup-differs_from (clean config) (clean bak) c d live free),
            there,
          ) in
          (inr kept, inr (rw (← same, kept)))
    ]
  ]

  write-Restored :
      (config file bak : String) (now : Moment) (d d1 : Disk k.Content) (body : k.Content)
      (x : Result FileError (Unit {0}) × Disk k.Content)
      → file_at file d ≡ some body
      → create k f config now d ≡ (ok bak, d1)
      → write_file f config body d1 ≡ x
      → Restored config file now d
          (elim x.0 [ err e ↦ (err (failed_write e), x.1) | ok _ ↦ (ok bak, x.1) ])
  write-Restored config file bak now d d1 body (err e, d2) here made wrote =
      let (_, saved) = write-Saved config bak now body d d1 made in
      subst (Saved config (backup_path config now) d) (ap (λ x. x.1) wrote) saved
  write-Restored config file bak now d d1 body (ok _, d2) here made wrote =
      let (saved, _) = write-Saved config bak now body d d1 made in
      let end : d2 ≡ insert (clean config) body d1 = write_file-ok f config body d1 d2 wrote in
      (
        rw (end, lookup-insert_same (clean config) body d1, here),
        subst (Saved config bak d) (ap (λ x. x.1) wrote) saved,
      )

  read-Restored :
      (config file bak : String) (now : Moment) (d d1 : Disk k.Content) (c : k.Content)
      (r : Result FileError k.Content)
      → file_at file d ≡ some c
      → create k f config now d ≡ (ok bak, d1)
      → read_file f file d1 ≡ r
      → Restored config file now d (elim r [
        | err e ↦ (err (failed_read e), d1)
        | ok body ↦
            let (w, d') = write_file f config body d1 in
            elim w [ err e ↦ (err (failed_write e), d') | ok _ ↦ (ok bak, d') ]
      ])
  read-Restored config file bak now d d1 c (err e) here made got =
      rw (← (create-live config now d), made)
  read-Restored config file bak now d d1 c (ok body) here made got =
      let same : file_at file d ≡ some body = cc (
        here,
        create-lookup k f config (clean file) now d c here,
        read_file-ok f file body d1 got,
        made,
      ) in
      write-Restored config file bak now d d1 body (write_file f config body d1) same made refl

  put_back-Restored :
      (config file : String) (now : Moment) (d : Disk k.Content) (c : k.Content)
      (x : Result BackupError String × Disk k.Content)
      → file_at file d ≡ some c
      → create k f config now d ≡ x
      → Restored config file now d (put_back k f config file x)
  unfolding put_back
  put_back-Restored config file now d c (err e, d1) here made =
      rw (← (create-live config now d), made)
  put_back-Restored config file now d c (ok bak, d1) here made =
      read-Restored config file bak now d d1 c (read_file f file d1) here made refl

  -- A Restore that succeeds gives the live file the content of the chosen backup, and leaves the
  -- old live content in the backup that it returns. One that fails in its last write has saved the
  -- old live content, and one that fails before leaves the live file as it was.
  pub restore-Restored :
      (config file : String) (now : Moment) (d : Disk k.Content)
      → Restored config file now d (restore k f config file now d)
  unfolding restore
  restore-Restored config file now d = go (belongs_here config file) (stat_file f file d) refl
    where
      go :
          (b : Bool) (r : Result FileError k.Content)
          → stat_file f file d ≡ r
          → Restored config file now d (
              if not b then (err (not_a_backup file), d) else elim r [
                | err e ↦ (err (failed_stat e), d)
                | ok _ ↦ put_back k f config file (create k f config now d)
              ])
      go false r e = refl
      go true (err _) e = refl
      go true (ok c) e =
          put_back-Restored config file now d c (create k f config now d)
            (stat_file-ok f file c d e) refl
