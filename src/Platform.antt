-- ===== src/Platform.antt =====
-- What the program takes from packages net/url, net and unicode: the operations, as parameters.
use sing_box_helper.Prelude.{
  ℕ, Bool, Char, String, Option, List, [], ◌∷◌, ◌==◌, ◌≡◌, if◌then◌else◌, Result, ok,
}
use sing_box_helper.Text.{to_lower}

pub record UserInfo : Type 0 where
  pub username : String
  pub password : Option String

-- `url.URL`, with the results of its methods `Hostname`, `Port` and `Query`. The query is the list
-- of its decoded pairs, in order.
pub record Url : Type 0 where
  pub scheme : String
  pub user : Option UserInfo
  pub hostname : String
  pub port : String
  pub query : List (String × String)
  pub fragment : String

-- `url.Values.Get`: the first value of the key, or "".
unfoldable pub query_get : List (String × String) → String → String
query_get [] key = ""
query_get ((k, v) ∷ q) key = if k == key then v else query_get q key

-- `look_path` says whether `exec.LookPath` finds a program, and `run_ip` is the standard output of
-- the program at a path, run with `-4 addr show` and an interface, or `none` if that fails.
-- `lower_wide` is `unicode.ToLower` outside ASCII. An error of `url.Parse` is its text. An address
-- is the slice of 16 bytes that `net.ParseIP` returns.
pub record Platform : Type 0 where
  pub lower_wide : Char → Char
  pub parse_url : String → Result String Url
  pub query_unescape : String → Option String
  pub parse_ip : String → Option (List ℕ)
  pub look_path : String → Bool
  pub run_ip : String → String → Option String

-- `url.Parse` returns the scheme in lower case.
abbrev pub LowersScheme : Platform → Type 0
LowersScheme g =
    (raw : String) (u : Url) → g.parse_url raw ≡ ok u → to_lower g.lower_wide u.scheme ≡ u.scheme
