-- ===== src/Backup/Names.antt =====
-- internal/backup/backup.go: what the name of a backup looks like.
use Prim.Native.Char.{Char}
use Prim.Native.String.{String, ◌++◌, [], ◌∷◌}
use text.Mathlib.TextLemmas.{nil-append, cons-append}
use sing_box_helper.Prelude.{
  false, List, [], ◌∷◌, Option, none, some, ◌==◌, ◌≡◌, refl, sym, ◌∙◌, ◌⊎◌, inl, inr, arith, eq_iff,
  Bool-cases, All,
}
use sing_box_helper.Text.{strip_prefix, split}
use sing_box_helper.Paths.{base_of, last_or, join_path}
use sing_box_helper.Paths.Names.{NoSlash, IsPlain, EndsIn, split-NoSlash, clean-EndsIn}
use sing_box_helper.Stamp.{Moment}
use sing_box_helper.Backup.{is_backup_key, stamp_of_name}

pub strip_prefix-cons : (c : Char) (p s : String) → strip_prefix (c ∷ p) (c ∷ s) ≡ strip_prefix p s
unfolding strip_prefix
strip_prefix-cons c p s = ground arith

-- A name is not a longer version of itself.
strip_prefix-longer : (s : String) → strip_prefix (s ++ ".bak-") s ≡ none
unfolding strip_prefix
strip_prefix-longer [] = refl
strip_prefix-longer (c ∷ s) =
    rw (cons-append c s ".bak-", strip_prefix-cons c (s ++ ".bak-") s, strip_prefix-longer s)

-- No text of at most two characters has the name of a backup.
pub strip_none : (s : String) → strip_prefix (s ++ ".bak-") "" ≡ none
strip_none [] = rw (nil-append ".bak-") (unfold strip_prefix in refl)
strip_none (c ∷ s) = rw (cons-append c s ".bak-") (unfold strip_prefix in refl)

pub strip_one : (s : String) (c : Char) → strip_prefix (s ++ ".bak-") (c ∷ []) ≡ none
unfolding strip_prefix
strip_one [] c = ground arith
strip_one (b ∷ s) c = rw (cons-append b s ".bak-") (ground (arith, strip_none s))

pub strip_two : (s : String) (c d : Char) → strip_prefix (s ++ ".bak-") (c ∷ d ∷ []) ≡ none
unfolding strip_prefix
strip_two [] c d = ground arith
strip_two (b ∷ s) c d = rw (cons-append b s ".bak-") (ground (arith, strip_one s d))

pub stamp_of_name-none :
    (config name : String)
    → strip_prefix (base_of config ++ ".bak-") name ≡ none
    → stamp_of_name config name ≡ none
unfolding stamp_of_name
stamp_of_name-none config name e = rw (stamp_of_name, e)

last_or-NoSlash :
    (d : String) (segs : List String)
    → (d ≡ "/") ⊎ NoSlash d
    → All NoSlash segs
    → (last_or d segs ≡ "/") ⊎ NoSlash (last_or d segs)
last_or-NoSlash d [] h hs = h
last_or-NoSlash d (s ∷ segs) h (h', hs) = elim (Bool-cases (s == "")) [
  | inl t ↦ rw t (last_or-NoSlash d segs h hs)
  | inr t ↦ rw t (last_or-NoSlash s segs (inr h') hs)
]

-- The live file is no backup of itself.
pub stamp_of_name-live : (config : String) → stamp_of_name config (base_of config) ≡ none
stamp_of_name-live config =
    stamp_of_name-none config (base_of config) (strip_prefix-longer (base_of config))

pub is_backup_key-live : (config : String) → is_backup_key config config ≡ false
unfolding is_backup_key
is_backup_key-live config = ground (arith, stamp_of_name-live config)

-- The last segment of a path has no slash, unless the path is one of slashes.
base_of-NoSlash : (path : String) → (base_of path ≡ "/") ⊎ NoSlash (base_of path)
unfolding base_of
base_of-NoSlash path = elim (Bool-cases (path == "")) [
  | inl t ↦ rw t (inr (refl, tt))
  | inr t ↦ rw t (last_or-NoSlash "/" (split b'/' path) (inl refl) (split-NoSlash path))
]

pub none-ne-some : {A : Type 0} {a : A} → ◌≡◌ {A = Option A} none (some a) → ⊥
none-ne-some e = cc

pub differs :
    (config name other : String) (m : Moment)
    → stamp_of_name config name ≡ some m
    → stamp_of_name config other ≡ none
    → (name == other) ≡ false
differs config name other m e none_of = elim (Bool-cases (name == other)) [
  | inl t ↦ let same : name ≡ other = (eq_iff name other).0 t in cc
  | inr t ↦ t
]

-- The name of a backup, as a directory lists it, is a segment that Clean keeps.
pub stamp_of_name-IsPlain :
    (config path : String) (m : Moment)
    → stamp_of_name config (base_of path) ≡ some m
    → IsPlain (base_of path)
stamp_of_name-IsPlain config path m e =
    let name = base_of path in
    let b = base_of config in
    elim (base_of-NoSlash path) [
      | inl slash ↦
          let no_name = stamp_of_name-none config "/" (strip_one b "/") in
          absurd (none-ne-some {a = m} (sym no_name ∙ rw (← slash) e))
      | inr clear ↦ record {
        not_empty = differs config name "" m e (stamp_of_name-none config "" (strip_none b));
        not_dot = differs config name "." m e (stamp_of_name-none config "." (strip_one b "."));
        not_dots =
            differs config name ".." m e (stamp_of_name-none config ".." (strip_two b "." "."));
        no_slash = clear;
      }
    ]

pub join_path-EndsIn : (dir name : String) → IsPlain name → EndsIn (join_path dir name) name
unfolding join_path
join_path-EndsIn dir name p = elim (Bool-cases (dir == "")) [
  | inl t ↦ rw (t, p.not_empty) (clean-EndsIn name name p (inl refl))
  | inr t ↦ rw t (clean-EndsIn (dir ++ ("/" ++ name)) name p (inr (dir, refl)))
]

-- A file whose name is none of a backup's is no backup.
pub is_backup_key-none :
    (config key : String)
    → stamp_of_name config (base_of key) ≡ none
    → is_backup_key config key ≡ false
unfolding is_backup_key
is_backup_key-none config key h = ground (arith, h)
