-- ===== src/Backup/Found.antt =====
-- internal/backup/backup.go: the backup that Create made is one that the other operations know.
use Prim.Native.String.{String, ◌++◌, [], ◌∷◌}
use text.Mathlib.TextLemmas.{nil-append, cons-append, append_assoc}
use sing_box_helper.Prelude.{
  Bool, true, false, [], ◌∷◌, some, nat_eq, if◌then◌else◌, ◌≡◌, refl, sym, ◌∙◌, inl, inr, eq_refl,
  ℕ, ◌/◌, ◌%◌,
}
use sing_box_helper.Text.{strip_prefix}
use sing_box_helper.Paths.{clean, base_of, dir_of}
use sing_box_helper.Paths.Names.{NoSlash, IsPlain, EndsIn, base_of-EndsIn, clean-EndsIn}
use sing_box_helper.Paths.Dirs.{dir_of-clean, dir_of-sibling}
use sing_box_helper.Stamp.{Moment, digit_char, two, format_stamp}
use sing_box_helper.Stamp.Printed.{IsCivil, whole, parse_stamp-format_stamp}
use sing_box_helper.Backup.{stamp_of_name, is_backup_key, belongs_here, backup_path}
use sing_box_helper.Backup.Names.{
  strip_prefix-cons, stamp_of_name-none, strip_none, strip_one, strip_two, differs,
}

strip_prefix-append : (p s : String) → strip_prefix p (p ++ s) ≡ some s
strip_prefix-append [] s = rw (nil-append s) (unfold strip_prefix in refl)
strip_prefix-append (c ∷ p) s =
    rw (cons-append c p s, strip_prefix-cons c p (p ++ s), strip_prefix-append p s)

NoSlash-append : (s t : String) → NoSlash s → NoSlash t → NoSlash (s ++ t)
NoSlash-append [] t h h' = rw (nil-append t) h'
NoSlash-append (c ∷ s) t (h, hs) h' = rw (cons-append c s t) (h, NoSlash-append s t hs h')

pick : (b : Bool) (s t : String) → NoSlash s → NoSlash t → NoSlash (if b then s else t)
pick true s t h h' = h
pick false s t h h' = h'

digit_char-NoSlash : (n : ℕ) → NoSlash (digit_char n)
unfolding digit_char
digit_char-NoSlash n =
    pick (nat_eq n 0) "0"
      (if nat_eq n 1
        then "1"
        else (if nat_eq n 2
            then "2"
            else (if nat_eq n 3
                then "3"
                else (if nat_eq n 4
                    then "4"
                    else (if nat_eq n 5
                        then "5"
                        else (if nat_eq n 6
                            then "6"
                            else (if nat_eq n 7
                                then "7"
                                else (if nat_eq n 8 then "8" else "9"))))))))
      (refl, tt)
      (pick (nat_eq n 1) "1"
        (if nat_eq n 2
          then "2"
          else (if nat_eq n 3
              then "3"
              else (if nat_eq n 4
                  then "4"
                  else (if nat_eq n 5
                      then "5"
                      else (if nat_eq n 6
                          then "6"
                          else (if nat_eq n 7 then "7" else (if nat_eq n 8 then "8" else "9")))))))
        (refl, tt)
        (pick (nat_eq n 2) "2"
          (if nat_eq n 3
            then "3"
            else (if nat_eq n 4
                then "4"
                else (if nat_eq n 5
                    then "5"
                    else (if nat_eq n 6
                        then "6"
                        else (if nat_eq n 7 then "7" else (if nat_eq n 8 then "8" else "9"))))))
          (refl, tt)
          (pick (nat_eq n 3) "3"
            (if nat_eq n 4
              then "4"
              else (if nat_eq n 5
                  then "5"
                  else (if nat_eq n 6
                      then "6"
                      else (if nat_eq n 7 then "7" else (if nat_eq n 8 then "8" else "9")))))
            (refl, tt)
            (pick (nat_eq n 4) "4"
              (if nat_eq n 5
                then "5"
                else (if nat_eq n 6
                    then "6"
                    else (if nat_eq n 7 then "7" else (if nat_eq n 8 then "8" else "9"))))
              (refl, tt)
              (pick (nat_eq n 5) "5"
                (if nat_eq n 6
                  then "6"
                  else (if nat_eq n 7 then "7" else (if nat_eq n 8 then "8" else "9")))
                (refl, tt)
                (pick (nat_eq n 6) "6"
                  (if nat_eq n 7 then "7" else (if nat_eq n 8 then "8" else "9")) (refl, tt)
                  (pick (nat_eq n 7) "7" (if nat_eq n 8 then "8" else "9") (refl, tt)
                    (pick (nat_eq n 8) "8" "9" (refl, tt) (refl, tt)))))))))

two-NoSlash : (n : ℕ) → NoSlash (two n)
unfolding two
two-NoSlash n =
    NoSlash-append (digit_char (n / 10 % 10)) (digit_char (n % 10))
      (digit_char-NoSlash (n / 10 % 10)) (digit_char-NoSlash (n % 10))

two_and-NoSlash : (n : ℕ) (s : String) → NoSlash s → NoSlash (two n ++ s)
two_and-NoSlash n s h = NoSlash-append (two n) s (two-NoSlash n) h

format_stamp-NoSlash : (m : Moment) → NoSlash (format_stamp m)
unfolding format_stamp
format_stamp-NoSlash m = two_and-NoSlash (m.year / 100) _ (
    two_and-NoSlash (m.year % 100) _ (
      two_and-NoSlash m.month _ (
        two_and-NoSlash m.day _ (
          NoSlash-append "-" _ (refl, tt)
            (two_and-NoSlash m.hour _ (two_and-NoSlash m.minute _ (two-NoSlash m.second)))))))

-- What Create appends to the path of the configuration.
abbrev suffix_of : Moment → String
suffix_of now = ".bak-" ++ format_stamp now

-- The last segment of the path of a configuration.
module _ (config name : String) (plain : IsPlain name) (ends : EndsIn config name) (now : Moment)
    (civil : IsCivil now) where
  suffix-NoSlash : NoSlash (name ++ suffix_of now)
  suffix-NoSlash = NoSlash-append name (suffix_of now) plain.no_slash (
      NoSlash-append ".bak-" (format_stamp now) (refl, (refl, (refl, (refl, (refl, tt)))))
        (format_stamp-NoSlash now))

  stamp_of_suffix : stamp_of_name config (name ++ suffix_of now) ≡ some (whole now)
  unfolding stamp_of_name
  stamp_of_suffix = rw (
    stamp_of_name,
    base_of-EndsIn config name plain ends,
    sym (append_assoc name ".bak-" (format_stamp now)),
    strip_prefix-append (name ++ ".bak-") (format_stamp now),
    parse_stamp-format_stamp now civil,
  )

  suffix-IsPlain : IsPlain (name ++ suffix_of now)
  suffix-IsPlain =
      let b = base_of config in
      let full = name ++ suffix_of now in
      record {
        not_empty =
            differs config full "" (whole now) stamp_of_suffix
              (stamp_of_name-none config "" (strip_none b));
        not_dot =
            differs config full "." (whole now) stamp_of_suffix
              (stamp_of_name-none config "." (strip_one b "."));
        not_dots =
            differs config full ".." (whole now) stamp_of_suffix
              (stamp_of_name-none config ".." (strip_two b "." "."));
        no_slash = suffix-NoSlash;
      }

  backup_path-EndsIn : EndsIn (backup_path config now) (name ++ suffix_of now)
  backup_path-EndsIn = elim ends [
    | inl e ↦ inl (rw e)
    | inr (front, e) ↦ inr (
      front,
      rw (
        e,
        append_assoc front ("/" ++ name) (suffix_of now),
        append_assoc "/" name (suffix_of now),
      ),
    )
  ]

  base_of-backup_path : base_of (clean (backup_path config now)) ≡ name ++ suffix_of now
  base_of-backup_path =
      base_of-EndsIn (clean (backup_path config now)) (name ++ suffix_of now) suffix-IsPlain (
        clean-EndsIn (backup_path config now) (name ++ suffix_of now) suffix-IsPlain
          backup_path-EndsIn)

  pub dir_of-backup_path : dir_of (clean (backup_path config now)) ≡ dir_of config
  dir_of-backup_path =
      dir_of-clean (backup_path config now) (name ++ suffix_of now) suffix-IsPlain
        backup_path-EndsIn
      ∙ dir_of-sibling config name (suffix_of now) plain.no_slash suffix-NoSlash ends

  -- The path that Create gives a backup is accepted by Restore and Delete, and List reads the
  -- moment of its creation from its name, without the fraction of the second. The path of the
  -- configuration ends in a plain name, and the moment of the backup is one of the calendar, with a
  -- year of four digits.
  pub belongs_here-backup_path :
      (belongs_here config (backup_path config now) ≡ true)
      × (stamp_of_name config (base_of (clean (backup_path config now))) ≡ some (whole now))
  belongs_here-backup_path =
      let named = rw (← base_of-backup_path) at stamp_of_suffix in
      (unfold is_backup_key in rw (dir_of-backup_path, eq_refl (dir_of config), named), named)
