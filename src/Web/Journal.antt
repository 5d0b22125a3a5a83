-- ===== src/Web/Journal.antt =====
-- internal/web/handlers.go: handleLogs and readSingBoxLog.
pub mod Limit
pub mod Recent
use sing_box_helper.Prelude.{
  ℕ, ◌-◌, Bool, not, ◌&&◌, ◌||◌, List, [], map, Option, none, some, String, ◌==◌, ℤ, pos, ltb,
  ltb_ℤ, leb_ℤ, pos_part, Result, ok, err, if◌then◌else◌, length, drop, kept,
}
use Prim.Native.String.{◌++◌}
use sing_box_helper.Text.{to_lower, split, contains, atoi}
use sing_box_helper.Platform.{Platform}
use sing_box_helper.Logbuf.{Bytes, Line, tail}
use sing_box_helper.Web.{Server, wrong_method, unknown_source, Reply, reply, refuse}

pub data Note : Type 0 where
  no_ndmc no_buffer : Note
  ndmc_failed : String → Note

-- `logsResponse`
pub record LogsResponse : Type 0 where
  pub source : String
  pub lines : List String
  pub note : Option Note

-- The output of `ndmc -c "show log once"` or its error, the format of the clock, and the text of
-- the bytes of a line.
pub record Console : Type 0 where
  pub show_log : Result String String
  pub clock : ℕ → String
  pub text : Bytes → String

-- The number of lines that the query asks for.
unfoldable pub line_limit : String → ℤ
line_limit v =
    if not (v == "")
    then elim (atoi v) [
      | none ↦ pos 200
      | some x ↦ if ltb_ℤ (pos 0) x && leb_ℤ x (pos 2000) then x else pos 200
    ]
    else pos 200

unfoldable pub mentions : Platform → String → Bool
mentions g line =
    let ll = to_lower g.lower_wide line in contains "sing-box" ll || contains "singbox" ll

-- The end of `readSingBoxLog`: the last lines of those that were found.
unfoldable pub last_lines : ℤ → List String → List String
last_lines n found =
    if ltb_ℤ n (pos (length found)) then drop (length found - pos_part n) found else found

-- `readSingBoxLog`
unfoldable pub read_sing_box_log :
    Platform → Console → ℤ → Result String (List String × Option Note)
read_sing_box_log g c n =
    if not (g.look_path "ndmc") then ok ([], some no_ndmc) else elim c.show_log [
      | err e ↦ err e
      | ok out ↦ ok (last_lines n (kept (mentions g) (split b'\n' out)), none)
    ]

pub system_reply : String → Result String (List String × Option Note) → LogsResponse
system_reply src (err e) = record { source = src; lines = []; note = some (ndmc_failed e) }
system_reply src (ok (lines, note)) = record { source = src; lines = lines; note = note }

pub shown_line : Console → Line → String
shown_line c l = c.clock l.when ++ (" " ++ c.text l.text)

-- `handleLogs`, with the values of the query's `source` and `lines`.
unfoldable pub handle_logs :
    Platform → Console → String → String → String → Server → Reply LogsResponse
unfolding system_reply shown_line
handle_logs g c method source lines s =
    if not (method == "GET")
    then refuse 405 wrong_method
    else let src = if source == "" then "singbox" else source in
      let n = line_limit lines in
      if src == "singbox"
      then reply (system_reply src (read_sing_box_log g c n))
      else if src == "helper"
      then elim s.logs [
        | none ↦ reply (record { source = src; lines = []; note = some no_buffer })
        | some b ↦
            reply (record { source = src; lines = map (shown_line c) (tail n b); note = none })
      ]
      else refuse 400 unknown_source
