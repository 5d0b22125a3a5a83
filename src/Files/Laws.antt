-- ===== src/Files/Laws.antt =====
-- The laws of the files.
use sing_box_helper.Prelude.{
  true, false, [], ◌∷◌, none, some, String, ◌==◌, if◌then◌else◌, ◌≡◌, refl, arith, eq_iff,
  Option-cases, inl, inr, eq_refl, ok, err,
}
use sing_box_helper.Paths.{clean}
use sing_box_helper.Files.{
  Disk, Faults, Fault, no_fault, refused, cut, lookup, insert, erase, remove_file, write_file,
  create_copy, write_at, copy_into, read_file, stat_file, not_exist, FileError, rename_file,
}

module _ {C : Type 0} where
  pub lookup-insert :
      (k j : String) (c : C) (d : Disk C)
      → lookup k (insert j c d) ≡ (if j == k then some c else lookup k d)
  unfolding lookup insert
  lookup-insert k j c [] = refl
  lookup-insert k j c ((i, b) ∷ d) =
      ground (arith, eq_iff i j, eq_iff i k, eq_iff j k, lookup-insert k j c d)

  pub lookup-erase :
      (k j : String) (d : Disk C) → lookup k (erase j d) ≡ (if j == k then none else lookup k d)
  unfolding lookup erase
  lookup-erase k j [] = ground arith
  lookup-erase k j ((i, b) ∷ d) =
      ground (arith, eq_iff i j, eq_iff i k, eq_iff j k, lookup-erase k j d)

  -- A file that exists is in the way of no other path's creation.
  pub lookup-differs :
      (k j : String) (b : C) (d : Disk C)
      → lookup k d ≡ some b
      → lookup j d ≡ none
      → (j == k) ≡ false
  lookup-differs k j b d here free = ground (arith, eq_iff j k)

  pub lookup-differs_from :
      (k j : String) (b : C) (d : Disk C)
      → lookup k d ≡ some b
      → lookup j d ≡ none
      → (k == j) ≡ false
  lookup-differs_from k j b d here free = ground (arith, eq_iff k j)

  pub lookup-insert_other :
      (k j : String) (c : C) (d : Disk C) → (j == k) ≡ false → lookup k (insert j c d) ≡ lookup k d
  lookup-insert_other k j c d e = rw (lookup-insert k j c d, e)

  pub lookup-erase_other :
      (k j : String) (d : Disk C) → (j == k) ≡ false → lookup k (erase j d) ≡ lookup k d
  lookup-erase_other k j d e = rw (lookup-erase k j d, e)

  pub lookup-insert_same : (k : String) (c : C) (d : Disk C) → lookup k (insert k c d) ≡ some c
  lookup-insert_same k c d = rw (lookup-insert k k c d, eq_refl k)

  pub remove_file-lookup :
      (f : Faults C) (k path : String) (d : Disk C)
      → (clean path == k) ≡ false
      → lookup k (remove_file f path d).1 ≡ lookup k d
  unfolding remove_file
  remove_file-lookup f k path d e = ground (arith, lookup-erase_other k (clean path) d e)

  pub remove_file-gone :
      (f : Faults C) (path : String) (d d' : Disk C)
      → remove_file f path d ≡ (ok tt, d')
      → lookup (clean path) d' ≡ none
  unfolding remove_file
  remove_file-gone f path d d' done =
      ground (arith, lookup-erase (clean path) (clean path) d, eq_refl (clean path))

  write_at-lookup :
      (w : Fault C) (k path : String) (c : C) (d : Disk C)
      → (clean path == k) ≡ false
      → lookup k (write_at w path c d).1 ≡ lookup k d
  unfolding write_at
  write_at-lookup no_fault k path c d e = lookup-insert_other k (clean path) c d e
  write_at-lookup refused k path c d e = refl
  write_at-lookup (cut b) k path c d e = lookup-insert_other k (clean path) b d e

  pub write_file-lookup :
      (f : Faults C) (k path : String) (c : C) (d : Disk C)
      → (clean path == k) ≡ false
      → lookup k (write_file f path c d).1 ≡ lookup k d
  unfolding write_file
  write_file-lookup f k path c d e = write_at-lookup (f.write path) k path c d e

  copy_into-lookup :
      (w : Fault C) (k path : String) (empty c : C) (d : Disk C)
      → (clean path == k) ≡ false
      → lookup k (copy_into w empty path c d).0 ≡ lookup k d
  unfolding copy_into
  copy_into-lookup no_fault k path empty c d e = lookup-insert_other k (clean path) c d e
  copy_into-lookup refused k path empty c d e = lookup-insert_other k (clean path) empty d e
  copy_into-lookup (cut b) k path empty c d e = lookup-insert_other k (clean path) b d e

  pub create_copy-lookup :
      (f : Faults C) (k path : String) (b empty c : C) (d : Disk C)
      → lookup k d ≡ some b
      → lookup k (create_copy f empty path c d).1 ≡ some b
  unfolding create_copy
  create_copy-lookup f k path b empty c d here = ground (
    arith,
    copy_into-lookup (f.write path) k path empty c d,
    lookup-differs k (clean path) b d here,
  )

  -- A copy that is complete went to a path that was free.
  copy_into-whole :
      (w : Fault C) (path : String) (empty c : C) (d : Disk C)
      → (copy_into w empty path c d).1 ≡ true
      → (copy_into w empty path c d).0 ≡ insert (clean path) c d
  unfolding copy_into
  copy_into-whole no_fault path empty c d h = refl
  copy_into-whole refused path empty c d h = cc
  copy_into-whole (cut b) path empty c d h = cc

  pub create_copy-whole :
      (f : Faults C) (path : String) (empty c : C) (d d' : Disk C)
      → create_copy f empty path c d ≡ (ok true, d')
      → (lookup (clean path) d ≡ none) × (d' ≡ insert (clean path) c d)
  unfolding create_copy
  create_copy-whole f path empty c d d' done =
      ground (arith, copy_into-whole (f.write path) path empty c d)

  pub create_copy-part :
      (f : Faults C) (path : String) (empty c : C) (d d' : Disk C)
      → create_copy f empty path c d ≡ (ok false, d')
      → lookup (clean path) d ≡ none
  unfolding create_copy
  create_copy-part f path empty c d d' done = ground arith

  pub read_file-ok :
      (f : Faults C) (path : String) (c : C) (d : Disk C)
      → read_file f path d ≡ ok c
      → lookup (clean path) d ≡ some c
  unfolding read_file
  read_file-ok f path c d e = ground arith

  pub read_file-not_exist :
      (f : Faults C) (path why : String) (d : Disk C)
      → read_file f path d ≡ err (not_exist why)
      → lookup (clean path) d ≡ none
  unfolding read_file
  read_file-not_exist f path why d e = ground arith

  pub stat_file-ok :
      (f : Faults C) (path : String) (c : C) (d : Disk C)
      → stat_file f path d ≡ ok c
      → lookup (clean path) d ≡ some c
  unfolding stat_file
  stat_file-ok f path c d e = ground arith

  pub write_file-ok :
      (f : Faults C) (path : String) (c : C) (d d' : Disk C)
      → write_file f path c d ≡ (ok tt, d')
      → d' ≡ insert (clean path) c d
  unfolding write_file write_at
  write_file-ok f path c d d' e = go (f.write path) e
    where
      go : (w : Fault C) → write_at w path c d ≡ (ok tt, d') → d' ≡ insert (clean path) c d
      go no_fault done = cc
      go refused done = cc
      go (cut b) done = cc

  -- A removal that fails changes nothing.
  pub remove_file-err :
      (f : Faults C) (path : String) (d d' : Disk C) (why : FileError)
      → remove_file f path d ≡ (err why, d')
      → d' ≡ d
  unfolding remove_file
  remove_file-err f path d d' why e = ground arith

  pub rename_file-lookup :
      (f : Faults C) (k from to : String) (d : Disk C)
      → (clean from == k) ≡ false
      → (clean to == k) ≡ false
      → lookup k (rename_file f from to d).1 ≡ lookup k d
  unfolding rename_file
  rename_file-lookup f k from to d e e' = elim (Option-cases (lookup (clean from) d)) [
    | inl gone ↦ ground arith
    | inr (c, here) ↦ ground (
      arith,
      lookup-insert_other k (clean to) c (erase (clean from) d) e',
      lookup-erase_other k (clean from) d e,
    )
  ]

  -- A rename that fails changes nothing.
  pub rename_file-err :
      (f : Faults C) (from to : String) (d d' : Disk C) (why : FileError)
      → rename_file f from to d ≡ (err why, d')
      → d' ≡ d
  unfolding rename_file
  rename_file-err f from to d d' why e = ground arith

  pub rename_file-ok :
      (f : Faults C) (from to : String) (d d' : Disk C)
      → rename_file f from to d ≡ (ok tt, d')
      → lookup (clean to) d' ≡ lookup (clean from) d
  unfolding rename_file
  rename_file-ok f from to d d' e = elim (Option-cases (lookup (clean from) d)) [
    | inl gone ↦ ground arith
    | inr (c, here) ↦ ground (arith, lookup-insert_same (clean to) c (erase (clean from) d))
  ]

  pub read_file-some :
      (f : Faults C) (path : String) (c : C) (d : Disk C)
      → f.read path ≡ false
      → lookup (clean path) d ≡ some c
      → read_file f path d ≡ ok c
  unfolding read_file
  read_file-some f path c d readable here = ground arith

  pub stat_file-some :
      (f : Faults C) (path : String) (c : C) (d : Disk C)
      → f.stat path ≡ false
      → lookup (clean path) d ≡ some c
      → stat_file f path d ≡ ok c
  unfolding stat_file
  stat_file-some f path c d readable here = ground arith

  pub create_copy-free :
      (f : Faults C) (path : String) (empty c : C) (d : Disk C)
      → f.create path ≡ false
      → f.write path ≡ no_fault
      → lookup (clean path) d ≡ none
      → create_copy f empty path c d ≡ (ok true, insert (clean path) c d)
  unfolding create_copy copy_into
  create_copy-free f path empty c d e w free = rw (e, free, w)

  pub write_file-calm :
      (f : Faults C) (path : String) (c : C) (d : Disk C)
      → f.write path ≡ no_fault
      → write_file f path c d ≡ (ok tt, insert (clean path) c d)
  unfolding write_file write_at
  write_file-calm f path c d w = rw w
