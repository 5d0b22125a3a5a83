-- ===== src/Backup/Trimmed.antt =====
-- internal/backup/backup.go: a file that Trim removes is behind the entries that it keeps.
use sing_box_helper.Prelude.{
  ℕ, zero, suc, ◌<◌, ℤ, pos, negsuc, false, List, [], ◌∷◌, drop, some, String, ◌==◌, Result, ok,
  err, ◌≡◌, refl, ap, ◌∙◌, ◌⊎◌, inl, inr, arith, All, Any, Bool-cases, eq_iff,
}
use sing_box_helper.Paths.{clean}
use sing_box_helper.Files.{Faults, Disk, lookup}
use sing_box_helper.Codec.{Codec}
use sing_box_helper.Backup.{BackupError, Entry, list_backups, trim, trim_list}
use sing_box_helper.Backup.Trim.{trim-lookup}

-- A Trim of that disk removes a file with the content, as one of those behind the entries that it
-- is to keep.
abbrev pub TrimmedOut :
    (k : Codec) → Faults k.Content → String → ℤ → k.Content → Disk k.Content → Type 0
TrimmedOut k f config keep c d =
    (n : ℕ) × (all : List Entry) × (key : String) × (keep ≡ pos n)
    × (0 < n)
    × (list_backups k f config d ≡ ok all)
    × (lookup key d ≡ some c)
    × Any (λ e. clean e.file ≡ key) (drop n all)

among :
    (key : String) (es : List Entry)
    → All (λ e. (clean e.file == key) ≡ false) es ⊎ Any (λ e. clean e.file ≡ key) es
among key [] = inl tt
among key (e ∷ es) = elim (Bool-cases (clean e.file == key)) [
  | inl t ↦ inr (inl ((eq_iff (clean e.file) key).0 t))
  | inr t ↦ elim (among key es) [ inl others ↦ inl (t, others) | inr found ↦ inr (inr found) ]
]

module _ (k : Codec) (f : Faults k.Content) (config key : String) (c : k.Content) where
  trim_list-err :
      (n : ℕ) (d : Disk k.Content) (why : BackupError)
      → list_backups k f config d ≡ err why
      → (trim k f config (pos (suc n)) d).1 ≡ d
  unfolding trim trim_list
  trim_list-err n d why failed = rw failed refl

  -- A file that is there before a Trim is there after it, unless the Trim has removed it as one
  -- behind the entries that it keeps.
  pub trim-TrimmedOut :
      (keep : ℤ) (d : Disk k.Content)
      → lookup key d ≡ some c
      → (lookup key (trim k f config keep d).1 ≡ some c) ⊎ TrimmedOut k f config keep c d
  unfolding trim
  trim-TrimmedOut (negsuc n) d here = inl here
  trim-TrimmedOut (pos zero) d here = inl here
  trim-TrimmedOut (pos (suc n)) d here = go (list_backups k f config d) refl
    where
      go :
          (r : Result BackupError (List Entry))
          → list_backups k f config d ≡ r
          → (lookup key (trim k f config (pos (suc n)) d).1 ≡ some c)
            ⊎ TrimmedOut k f config (pos (suc n)) c d
      go (err why) listed = inl (ap (lookup key) (trim_list-err n d why listed) ∙ here)
      go (ok all) listed = elim (among key (drop (suc n) all)) [
        | inl others ↦ inl (trim-lookup k f config key (suc n) d all listed others ∙ here)
        | inr found ↦ inr (suc n, all, key, refl, omega arith, listed, here, found)
      ]
