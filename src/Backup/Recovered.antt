-- ===== src/Backup/Recovered.antt =====
-- internal/backup/backup.go: a backup that was made can be listed and put back.
use sing_box_helper.Prelude.{false, List, none, some, String, ok, ◌≡◌, sym, ◌∙◌, ap, Any, Any-map}
use sing_box_helper.Paths.{clean, base_of, dir_of, join_path}
use sing_box_helper.Paths.Names.{IsPlain, EndsIn}
use sing_box_helper.Stamp.{Moment}
use sing_box_helper.Stamp.Printed.{IsCivil, whole}
use sing_box_helper.Files.{Faults, no_fault, readable, Disk, insert, file_at}
use sing_box_helper.Files.Laws.{
  read_file-some, stat_file-some, create_copy-free, write_file-calm, lookup-insert_same,
  lookup-insert_other, lookup-differs, lookup-differs_from,
}
use sing_box_helper.Codec.{Codec}
use sing_box_helper.Backup.{
  Entry, list_backups, listed, create, created, copied, restore, put_back, backup_path,
}
use sing_box_helper.Backup.Complete.{list_backups_complete}
use sing_box_helper.Backup.Found.{belongs_here-backup_path}

-- No call of the file system fails.
pub record IsCalm {C : Type 0} (f : Faults C) : Type 0 where
  pub stat_ok : (path : String) → f.stat path ≡ false
  pub read_ok : (path : String) → f.read path ≡ false
  pub create_ok : (path : String) → f.create path ≡ false
  pub write_ok : (path : String) → f.write path ≡ no_fault
  pub list_ok : (path : String) → f.list path ≡ readable
  pub info_ok : (path : String) → f.info path ≡ false

module _ (k : Codec) (f : Faults k.Content) (calm : IsCalm f) where
  -- Create succeeds where the name of the moment is free.
  create-free :
      (config : String) (now : Moment) (c : k.Content) (d : Disk k.Content)
      → file_at config d ≡ some c
      → file_at (backup_path config now) d ≡ none
      → create k f config now d
        ≡ (ok (backup_path config now), insert (clean (backup_path config now)) c d)
  unfolding create created copied
  create-free config now c d live free = rw (
    read_file-some f config c d (calm.read_ok config) live,
    created,
    create_copy-free f (backup_path config now) k.empty c d
        (calm.create_ok (backup_path config now)) (calm.write_ok (backup_path config now)) free,
  )

  -- A backup can be put back: where no call fails, Restore of a backup that Create made gives the
  -- live file the content that it had at the Create, and keeps the later content in a new backup,
  -- provided that the names of both moments were free and that the backup is still as it was. The
  -- path of the configuration ends in a plain name, and the moment of the backup is one of the
  -- calendar, with a year of four digits.
  pub restore-create :
      (config name : String) (earlier now : Moment) (c c' : k.Content) (d d' : Disk k.Content)
      → IsPlain name
      → EndsIn config name
      → IsCivil earlier
      → file_at config d ≡ some c
      → file_at (backup_path config earlier) d ≡ none
      → file_at (backup_path config earlier) d'
        ≡ file_at (backup_path config earlier) (create k f config earlier d).1
      → file_at config d' ≡ some c'
      → file_at (backup_path config now) d' ≡ none
      → (d'' : Disk k.Content) × (restore k f config (backup_path config earlier) now d'
          ≡ (ok (backup_path config now), d''))
        × (file_at config d'' ≡ some c)
        × (file_at (backup_path config now) d'' ≡ some c')
  unfolding restore put_back
  restore-create config name earlier now c c' d d' plain ends civil live free kept live' free' =
      let bak = backup_path config earlier in
      let next = backup_path config now in
      let d1 = insert (clean next) c' d' in
      let (known, _) = belongs_here-backup_path config name plain ends earlier civil in
      let saved : file_at bak d' ≡ some c =
        rw (kept, create-free config earlier c d live free, lookup-insert_same (clean bak) c d) in
      let there : file_at bak d1 ≡ some c = rw (
        lookup-insert_other (clean bak) (clean next) c' d'
            (lookup-differs (clean bak) (clean next) c d' saved free'),
        saved,
      ) in
      (
        insert (clean config) c d1,
        rw
            (
              known,
              stat_file-some f bak c d' (calm.stat_ok bak) saved,
              create-free config now c' d' live' free',
              put_back,
              read_file-some f bak c d1 (calm.read_ok bak) there,
              write_file-calm f config c d1 (calm.write_ok config),
            )
            (ap (λ x. (ok next, x.1)) (write_file-calm f config c d1 (calm.write_ok config))),
        lookup-insert_same (clean config) c d1,
        rw (
          lookup-insert_other (clean next) (clean config) c d1
              (lookup-differs_from (clean config) (clean next) c' d' live' free'),
          lookup-insert_same (clean next) c' d',
        ),
      )

  -- List finds the backup that Create has made of a live file, with its size and the moment of its
  -- creation without the fraction of the second, where no call fails and the name of the moment was
  -- free. The path of the configuration ends in a plain name, and the moment of the backup is one
  -- of the calendar, with a year of four digits.
  list_backups-create :
      (config name : String) (now : Moment) (c : k.Content) (d : Disk k.Content)
      → IsPlain name
      → EndsIn config name
      → IsCivil now
      → file_at config d ≡ some c
      → file_at (backup_path config now) d ≡ none
      → (all : List Entry) × (list_backups k f config (create k f config now d).1 ≡ ok all)
        × Any
            (λ e.
              (e.name ≡ base_of (clean (backup_path config now)))
              × (e.created_at ≡ whole now)
              × (e.size ≡ k.size c))
            all
  list_backups-create config name now c d plain ends civil live free =
      let bak = clean (backup_path config now) in
      let d' = insert bak c d in
      let (known, stamp) = belongs_here-backup_path config name plain ends now civil in
      let (all, listed, found) =
        list_backups_complete k f config bak c d' (calm.list_ok (dir_of config)) known
          (lookup-insert_same bak c d) (calm.info_ok (join_path (dir_of config) (base_of bak))) in
      rw (create-free config now c d live free) (
        all,
        listed,
        Any-map _ _
            (λ y (same, at, size).
              (same, (let e : some y.created_at ≡ some (whole now) = sym at ∙ stamp in cc), size))
            all found,
      )
