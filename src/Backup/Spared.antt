-- ===== src/Backup/Spared.antt =====
-- internal/backup/backup.go: the files that Trim leaves alone.
use sing_box_helper.Prelude.{
  ℕ, zero, suc, false, List, [], ◌∷◌, none, some, String, ◌==◌, Result, ok, err, ◌≡◌, refl, sym,
  ◌∙◌, arith, eq_iff, Bool-cases, inl, inr, drop, All, All-drop, ℤ, pos, negsuc,
}
use sing_box_helper.Paths.{clean, dir_of, base_of, join_path}
use sing_box_helper.Paths.Names.{IsPlain, EndsIn, base_of-EndsIn, clean-EndsIn}
use sing_box_helper.Files.{Faults, Disk, lookup, file_at}
use sing_box_helper.Codec.{Codec}
use sing_box_helper.Backup.{BackupError, Entry, list_backups, trim_list, trim, stamp_of_name}
use sing_box_helper.Backup.Names.{join_path-EndsIn, none-ne-some, stamp_of_name-live}
use sing_box_helper.Backup.Trim.{Named, list_backups-Listed, remove_all-lookup}

module _ (k : Codec) (f : Faults k.Content) where
  -- The file of a listed entry is none that is not named as a backup.
  name-differs :
      (config key : String) (e : Entry)
      → stamp_of_name config (base_of key) ≡ none
      → stamp_of_name config e.name ≡ some e.created_at
      → IsPlain e.name
      → e.file ≡ join_path (dir_of config) e.name
      → (clean e.file == key) ≡ false
  name-differs config key e other stamp plain file = elim (Bool-cases (clean e.file == key)) [
    | inl t ↦
        let ends : EndsIn (clean e.file) e.name = rw file (
          clean-EndsIn (join_path (dir_of config) e.name) e.name plain
            (join_path-EndsIn (dir_of config) e.name plain)) in
        let base : base_of key ≡ e.name =
          rw (← (eq_iff (clean e.file) key).0 t)
            (base_of-EndsIn (clean e.file) e.name plain ends) in
        absurd (none-ne-some {a = e.created_at} (sym other ∙ rw base stamp))
    | inr t ↦ t
  ]

  Named-differs :
      (config key : String) (es : List Entry)
      → stamp_of_name config (base_of key) ≡ none
      → All (Named config) es
      → All (λ e. (clean e.file == key) ≡ false) es
  Named-differs config key [] other named = tt
  Named-differs config key (e ∷ es) other ((stamp, plain, file), named) =
      (name-differs config key e other stamp plain file, Named-differs config key es other named)

  trim_list-lookup :
      (config key : String) (keep : ℕ) (d : Disk k.Content) (r : Result BackupError (List Entry))
      → list_backups k f config d ≡ r
      → stamp_of_name config (base_of key) ≡ none
      → lookup key (trim_list k f keep r d).1 ≡ lookup key d
  trim_list-lookup config key keep d (err e) h other = unfold trim_list in refl
  trim_list-lookup config key keep d (ok all) h other =
      let (_, named) = list_backups-Listed k f config d all h in
      unfold trim_list in
      ground (
        arith,
        remove_all-lookup k f key (drop keep all) d (
            All-drop (λ e. (clean e.file == key) ≡ false) keep all
              (Named-differs config key all other named)),
      )

  -- Trim changes no file but one that is named as a backup of the configuration, whatever number
  -- it is to keep.
  pub trim-spares :
      (config key : String) (keep : ℤ) (d : Disk k.Content)
      → stamp_of_name config (base_of key) ≡ none
      → lookup key (trim k f config keep d).1 ≡ lookup key d
  unfolding trim
  trim-spares config key (negsuc n) d other = refl
  trim-spares config key (pos zero) d other = refl
  trim-spares config key (pos (suc n)) d other =
      trim_list-lookup config key (suc n) d (list_backups k f config d) refl other

  -- The live configuration is spared, where its path is clean.
  pub trim-live :
      (config : String) (keep : ℤ) (d : Disk k.Content)
      → clean config ≡ config
      → file_at config (trim k f config keep d).1 ≡ file_at config d
  trim-live config keep d tidy =
      rw tidy (trim-spares config config keep d (stamp_of_name-live config))
