-- ===== src/Backup.antt =====
-- internal/backup/backup.go. The configuration's path is an argument, and the files are a state.
pub mod Names
pub mod Create
pub mod Restore
pub mod Replaced
pub mod Delete
pub mod Trim
pub mod Spared
pub mod Found
pub mod Recovered
pub mod Complete
pub mod Sorted
pub mod Counted
pub mod Bounded
pub mod Trimmed
pub mod Writers
use Prim.Native.String
use sing_box_helper.Prelude.{
  ℕ, Bool, true, false, not, ◌&&◌, ◌||◌, List, [], ◌∷◌, Option, none, some, String, ◌==◌, leb,
  if◌then◌else◌, Result, ok, err, length, drop, ℤ, pos, negsuc,
}
use sing_box_helper.Text.{strip_prefix}
use sing_box_helper.Paths.{clean, dir_of, base_of, join_path}
use sing_box_helper.Stamp.{Moment, after, format_stamp, parse_stamp}
use sing_box_helper.Files.{
  FileError, not_exist, exists, failed, Faults, Disk, stat_file, read_file, write_file, remove_file,
  create_copy, read_dir,
}
use sing_box_helper.Codec.{Codec}
use sing_box_helper.Readback.{Snapshot, summary_outbound}

-- An error is the step that failed, with the error of the file system.
pub data BackupError : Type 0 where
  not_a_backup : String → BackupError
  copy_failed : String → BackupError
  failed_open failed_create failed_list failed_stat failed_read failed_write failed_remove :
      FileError → BackupError
  failed_snapshot : BackupError → BackupError

-- `summary` is the outbound that `summarise` prints; `none` is its empty text.
pub record Entry : Type 0 where
  pub file : String
  pub name : String
  pub created_at : Moment
  pub size : ℕ
  pub summary : Option Snapshot

-- The moment in the name of a backup of `config`, if it is one.
unfoldable pub stamp_of_name : String → String → Option Moment
stamp_of_name config name = elim (strip_prefix (String.◌++◌ (base_of config) ".bak-") name) [
  | none ↦ none
  | some stamp ↦ parse_stamp stamp
]

-- `belongsHere`
abbrev is_some {ℓ} : {A : Type ℓ} → Option A → Bool
is_some none = false
is_some (some _) = true

unfoldable pub is_backup_key : String → String → Bool
is_backup_key config key =
    if not (dir_of key == dir_of config)
    then false
    else is_some (stamp_of_name config (base_of key))

abbrev pub belongs_here : String → String → Bool
belongs_here config file = is_backup_key config (clean file)

-- `ConfigPath + ".bak-" + time.Now().Format(nameLayout)`
abbrev pub backup_path : String → Moment → String
backup_path config now = String.◌++◌ config (String.◌++◌ ".bak-" (format_stamp now))

-- A sort by `CreatedAt`, the newest first; the order of equal ones is not fixed by `sort.Slice`.
unfoldable pub insert_entry : Entry → List Entry → List Entry
insert_entry e [] = e ∷ []
insert_entry e (x ∷ xs) =
    if after x.created_at e.created_at then x ∷ insert_entry e xs else e ∷ x ∷ xs

unfoldable pub sort_entries : List Entry → List Entry
sort_entries [] = []
sort_entries (e ∷ es) = insert_entry e (sort_entries es)

module _ (k : Codec) (f : Faults k.Content) where
  -- One round of the loop of `List`; `none` is `continue`.
  unfoldable pub entry_of : String → Disk k.Content → String × k.Content → Option Entry
  entry_of config d (name, content) = elim (stamp_of_name config name) [
    | none ↦ none
    | some created ↦
        let file = join_path (dir_of config) name in
        if f.info file
        then none
        else some (record {
          file = file;
          name = name;
          created_at = created;
          size = k.size content;
          summary =
              summary_outbound
                (elim (read_file f file d) [ err _ ↦ none | ok body ↦ k.parse_json body ]);
        })
  ]

  unfoldable pub entries_of : String → Disk k.Content → List (String × k.Content) → List Entry
  entries_of config d [] = []
  entries_of config d (x ∷ xs) =
      let rest = entries_of config d xs in
      elim (entry_of config d x) [ none ↦ rest | some e ↦ e ∷ rest ]

  -- `List`
  pub listed :
      String
      → Disk k.Content
      → Result FileError (List (String × k.Content))
      → Result BackupError (List Entry)
  listed config d (err (not_exist _)) = ok []
  listed config d (err e) = err (failed_list e)
  listed config d (ok xs) = ok (sort_entries (entries_of config d xs))

  unfoldable pub list_backups : String → Disk k.Content → Result BackupError (List Entry)
  unfolding listed
  list_backups config d = listed config d (read_dir f (dir_of config) d)

  -- `Create`
  unfoldable pub copied :
      String → Result FileError Bool × Disk k.Content → Result BackupError String × Disk k.Content
  copied bak (err e, d) = (err (failed_create e), d)
  copied bak (ok true, d) = (ok bak, d)
  copied bak (ok false, d) = (err (copy_failed bak), (remove_file f bak d).1)

  unfoldable pub created :
      String
      → Result FileError k.Content
      → Disk k.Content
      → Result BackupError String × Disk k.Content
  unfolding copied
  created bak (err (not_exist _)) d = (ok "", d)
  created bak (err e) d = (err (failed_open e), d)
  created bak (ok content) d = copied bak (create_copy f k.empty bak content d)

  unfoldable pub create :
      String → Moment → Disk k.Content → Result BackupError String × Disk k.Content
  unfolding created
  create config now d = created (backup_path config now) (read_file f config d) d

  -- `Restore` behind its two guards.
  pub put_back :
      String
      → String
      → Result BackupError String × Disk k.Content
      → Result BackupError String × Disk k.Content
  put_back config file (err e, d) = (err (failed_snapshot e), d)
  put_back config file (ok bak, d) = elim (read_file f file d) [
    | err e ↦ (err (failed_read e), d)
    | ok body ↦
        let (r, d') = write_file f config body d in
        elim r [ err e ↦ (err (failed_write e), d') | ok _ ↦ (ok bak, d') ]
  ]

  unfoldable pub restore :
      String → String → Moment → Disk k.Content → Result BackupError String × Disk k.Content
  unfolding put_back
  restore config file now d =
      if not (belongs_here config file)
      then (err (not_a_backup file), d)
      else elim (stat_file f file d) [
        | err e ↦ (err (failed_stat e), d)
        | ok _ ↦ put_back config file (create config now d)
      ]

  -- `Delete`
  unfoldable pub delete :
      String → String → Disk k.Content → Result BackupError (Unit {0}) × Disk k.Content
  delete config file d =
      if not (belongs_here config file)
      then (err (not_a_backup file), d)
      else let (r, d') = remove_file f file d in
        elim r [ err e ↦ (err (failed_remove e), d') | ok _ ↦ (ok tt, d') ]

  -- The loop of `Trim`: the files that it removed, and the files that are left.
  unfoldable pub remove_all : List Entry → Disk k.Content → List String × Disk k.Content
  remove_all [] d = ([], d)
  remove_all (e ∷ es) d =
      let (r, d') = remove_file f e.file d in
      let (removed, d'') = remove_all es d' in
      (elim r [ err _ ↦ removed | ok _ ↦ e.file ∷ removed ], d'')

  -- `Trim` for a positive number to keep.
  pub trim_list :
      ℕ
      → Result BackupError (List Entry)
      → Disk k.Content
      → Result BackupError (List String) × Disk k.Content
  trim_list keep (err e) d = (err e, d)
  trim_list keep (ok all) d =
      if leb (length all) keep
      then (ok [], d)
      else let (removed, d') = remove_all (drop keep all) d in (ok removed, d')

  -- `Trim`
  unfoldable pub trim :
      String → ℤ → Disk k.Content → Result BackupError (List String) × Disk k.Content
  unfolding trim_list
  trim config (negsuc _) d = (ok [], d)
  trim config (pos ℕ.zero) d = (ok [], d)
  trim config (pos (ℕ.suc n)) d = trim_list (ℕ.suc n) (list_backups config d) d
