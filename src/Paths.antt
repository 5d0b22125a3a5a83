-- ===== src/Paths.antt =====
-- Package path/filepath, on a system where "/" separates.
pub mod Names
pub mod Dirs
use Prim.Native.String.{String, ◌++◌, [], ◌∷◌}
use sing_box_helper.Prelude.{Bool, false, List, [], ◌∷◌, ◌==◌, if◌then◌else◌}
use sing_box_helper.Text.{split}

abbrev pub is_rooted : List String → Bool
is_rooted (s ∷ _ ∷ _) = s == ""
is_rooted _ = false

-- One segment; the stack has the last segment kept at its head.
pub step : Bool → List String → String → List String
step rooted [] seg =
    if seg == ""
    then []
    else if seg == "."
    then []
    else if seg == ".."
    then (if rooted then [] else ".." ∷ [])
    else seg ∷ []
step rooted (top ∷ stack) seg =
    if seg == ""
    then top ∷ stack
    else if seg == "."
    then top ∷ stack
    else if seg == ".."
    then (if top == ".." then ".." ∷ top ∷ stack else stack)
    else seg ∷ top ∷ stack

pub steps : Bool → List String → List String → List String
unfolding step
steps rooted stack [] = stack
steps rooted stack (seg ∷ segs) = steps rooted (step rooted stack seg) segs

-- The segments of a stack joined, the head last.
pub joined : List String → String
joined [] = ""
joined (s ∷ []) = s
joined (s ∷ t ∷ stack) = joined (t ∷ stack) ++ ("/" ++ s)

-- The path of a stack.
pub rendered : Bool → List String → String
unfolding joined
rendered rooted stack =
    if rooted then "/" ++ joined stack else if joined stack == "" then "." else joined stack

-- `filepath.Clean`
unfoldable pub clean : String → String
unfolding split steps rendered
clean path =
    let segs = split b'/' path in rendered (is_rooted segs) (steps (is_rooted segs) [] segs)

-- The text up to the last slash, with it.
abbrev pub front : List String → String
front [] = ""
front (s ∷ []) = ""
front (s ∷ t ∷ segs) = s ++ ("/" ++ front (t ∷ segs))

-- `filepath.Dir`
unfoldable pub dir_of : String → String
unfolding clean
dir_of path = clean (front (split b'/' path))

abbrev pub last_or : String → List String → String
last_or d [] = d
last_or d (s ∷ segs) = if s == "" then last_or d segs else last_or s segs

-- `filepath.Base`: the last segment that is not empty.
unfoldable pub base_of : String → String
unfolding split
base_of path = if path == "" then "." else last_or "/" (split b'/' path)

-- `filepath.Join` of two parts.
unfoldable pub join_path : String → String → String
unfolding clean
join_path dir name =
    if dir == "" then (if name == "" then "" else clean name) else clean (dir ++ ("/" ++ name))
