-- ===== src/Files.antt =====
-- Package os, on the regular files that the program handles: their contents by clean path, and an
-- environment that decides which calls fail. Symbolic links and permissions are left out.
pub mod Laws
use sing_box_helper.Prelude.{
  Bool, true, false, List, [], ◌∷◌, Option, none, some, String, ◌==◌, if◌then◌else◌, Result, ok,
  err,
}
use sing_box_helper.Paths.{clean, dir_of, base_of}

pub data FileError : Type 0 where
  not_exist exists failed : String → FileError

-- A call of `os.WriteFile` or `io.Copy`: it succeeds, or is refused before the file is touched, or
-- stops with this in the file.
pub data Fault (C : Type 0) : Type 0 where
  no_fault refused : Fault C
  cut : C → Fault C

-- What `os.ReadDir` finds at a path.
pub data DirFault : Type 0 where
  readable missing unreadable : DirFault

-- Which calls fail, by the path they are given.
pub record Faults (C : Type 0) : Type 0 where
  pub stat : String → Bool
  pub read : String → Bool
  pub create : String → Bool
  pub write : String → Fault C
  pub remove : String → Bool
  pub rename : String → Bool
  pub mkdir : String → Bool
  pub list : String → DirFault
  pub info : String → Bool

abbrev pub Disk : Type 0 → Type 0
Disk C = List (String × C)

module _ {C : Type 0} where
  unfoldable pub lookup : String → Disk C → Option C
  lookup path [] = none
  lookup path ((p, c) ∷ d) = if p == path then some c else lookup path d

  unfoldable pub insert : String → C → Disk C → Disk C
  insert path c [] = (path, c) ∷ []
  insert path c ((p, b) ∷ d) = if p == path then (path, c) ∷ d else (p, b) ∷ insert path c d

  unfoldable pub erase : String → Disk C → Disk C
  erase path [] = []
  erase path ((p, b) ∷ d) = let rest = erase path d in if p == path then rest else (p, b) ∷ rest

  -- The file at a path.
  abbrev pub file_at : String → Disk C → Option C
  file_at path d = lookup (clean path) d

  pub found : String → Option C → Result FileError C
  found path none = err (not_exist path)
  found path (some c) = ok c

  -- `os.Stat`
  unfoldable pub stat_file : Faults C → String → Disk C → Result FileError C
  unfolding found
  stat_file f path d = if f.stat path then err (failed path) else found path (file_at path d)

  -- `os.ReadFile`, and `os.Open` with the reading that follows.
  unfoldable pub read_file : Faults C → String → Disk C → Result FileError C
  unfolding found
  read_file f path d = if f.read path then err (failed path) else found path (file_at path d)

  pub write_at : Fault C → String → C → Disk C → Result FileError (Unit {0}) × Disk C
  write_at no_fault path c d = (ok tt, insert (clean path) c d)
  write_at refused path c d = (err (failed path), d)
  write_at (cut b) path c d = (err (failed path), insert (clean path) b d)

  -- `os.WriteFile`
  unfoldable pub write_file : Faults C → String → C → Disk C → Result FileError (Unit {0}) × Disk C
  unfolding write_at
  write_file f path c d = write_at (f.write path) path c d

  -- `os.Remove`
  unfoldable pub remove_file : Faults C → String → Disk C → Result FileError (Unit {0}) × Disk C
  remove_file f path d = if f.remove path then (err (failed path), d) else elim (file_at path d) [
    | none ↦ (err (not_exist path), d)
    | some _ ↦ (ok tt, erase (clean path) d)
  ]

  -- `os.Rename`
  unfoldable pub rename_file :
      Faults C → String → String → Disk C → Result FileError (Unit {0}) × Disk C
  rename_file f from to d =
      if f.rename from then (err (failed from), d) else elim (file_at from d) [
        | none ↦ (err (not_exist from), d)
        | some c ↦ (ok tt, insert (clean to) c (erase (clean from) d))
      ]

  -- `os.OpenFile` with O_CREATE and O_EXCL, whose file is empty, and `io.Copy` into it. The pair of
  -- flags says whether the file was created, and whether the copy is complete.
  pub copy_into : Fault C → C → String → C → Disk C → Disk C × Bool
  copy_into no_fault empty path c d = (insert (clean path) c d, true)
  copy_into refused empty path c d = (insert (clean path) empty d, false)
  copy_into (cut b) empty path c d = (insert (clean path) b d, false)

  unfoldable pub create_copy : Faults C → C → String → C → Disk C → Result FileError Bool × Disk C
  unfolding copy_into
  create_copy f empty path c d =
      if f.create path then (err (failed path), d) else elim (file_at path d) [
        | some _ ↦ (err (exists path), d)
        | none ↦ let (d', whole) = copy_into (f.write path) empty path c d in (ok whole, d')
      ]

  -- The names and contents of the regular files in a directory.
  unfoldable pub files_in : String → Disk C → List (String × C)
  files_in dir [] = []
  files_in dir ((p, c) ∷ d) =
      let rest = files_in dir d in if dir_of p == dir then (base_of p, c) ∷ rest else rest

  unfoldable pub read_at : DirFault → String → Disk C → Result FileError (List (String × C))
  unfolding files_in
  read_at readable dir d = ok (files_in dir d)
  read_at missing dir d = err (not_exist dir)
  read_at unreadable dir d = err (failed dir)

  -- `os.ReadDir`, without the subdirectories.
  unfoldable pub read_dir : Faults C → String → Disk C → Result FileError (List (String × C))
  unfolding read_at
  read_dir f dir d = read_at (f.list dir) dir d

  -- `os.MkdirAll`: the directories are not part of the disk.
  unfoldable pub make_dir : Faults C → String → Result FileError (Unit {0})
  make_dir f path = if f.mkdir path then err (failed path) else ok tt
