-- ===== src/Examples/Service.antt =====
-- The pages of backups, logs and diagnostics.
use sing_box_helper.Prelude.{
  false, ℕ, ◌≡◌, ◌≤◌, min, refl, true, List, [], ◌∷◌, map, kept, keep_last, All, none, some, ok,
  String, pos,
}
use sing_box_helper.Text.{split, strip_prefix, atoi, contains, to_lower}
use sing_box_helper.Files.{lookup}
use sing_box_helper.Logbuf.Ring.{text_of}
use sing_box_helper.Logbuf.Stream.{stored, complete}
use sing_box_helper.Platform.{Platform}
use sing_box_helper.Web.{reply}
use sing_box_helper.Web.History.{handle_backups, handle_backups_restore}
use sing_box_helper.Web.History.Kept.{
  Answered, handle_backups-Answered, PutBack, handle_backups_restore-PutBack,
}
use sing_box_helper.Web.Journal.{
  Console, line_limit, mentions, last_lines, read_sing_box_log, shown_line, handle_logs,
}
use sing_box_helper.Web.Journal.Limit.{Asked}
use sing_box_helper.Web.Journal.Recent.{IsRecent, handle_logs-IsRecent, length-handle_logs}
use sing_box_helper.Config.Settings.{default_settings}
use sing_box_helper.Cli.{served}
use sing_box_helper.Logbuf.{trim_cr}
use sing_box_helper.Logbuf.Stream.{remainder}
use sing_box_helper.Logbuf.Writes.{arrivals, stream}
use sing_box_helper.Cli.Pump.{received, Read, Piped, pass_on, pumped, handle_logs-pumped}
use sing_box_helper.Examples.Toy.{toy}
use sing_box_helper.Examples.Storage.{codec, calm, disk, moment, config, storage}
use sing_box_helper.Examples.Pages.{home, quiet}

handle_backups-Answered_example :
    (lookup config
        (handle_backups codec calm "DELETE" "/opt/config.json.bak-20260101-000000" home disk).1
      ≡ lookup config disk)
    × Answered codec calm home disk
        (handle_backups codec calm "DELETE" "/opt/config.json.bak-20260101-000000" home disk)
unfolding storage
handle_backups-Answered_example =
    handle_backups-Answered codec calm home disk "DELETE" "/opt/config.json.bak-20260101-000000"
      config refl

handle_backups_restore-PutBack_example : PutBack codec calm home disk quiet moment (
    handle_backups_restore codec calm quiet "POST"
      (some "/opt/config.json.bak-20260101-000000")
      home
      moment
      disk)
handle_backups_restore-PutBack_example =
    handle_backups_restore-PutBack codec calm home disk quiet moment "POST"
      (some "/opt/config.json.bak-20260101-000000")

abbrev keenetic : Platform
keenetic = record toy { look_path = λ _. true }

abbrev system_log : String
system_log = "I: Sing-Box started\nW: wifi\nI: singbox: tun up\nE: sing-box: dial"

abbrev pub console : Console
console = record { show_log = ok system_log; clock = λ _. "10:20:30"; text = λ _. "line" }

logs : Unit {0}
unfolding handle_logs line_limit atoi read_sing_box_log mentions contains strip_prefix to_lower
    last_lines split
logs = tt

two_lines_test :
    handle_logs keenetic console "GET" "" "2" home
    ≡ reply (record {
      source = "singbox";
      lines = "I: singbox: tun up" ∷ "E: sing-box: dial" ∷ [];
      note = none;
    })
unfolding logs
two_lines_test = refl

handle_logs-IsRecent_example :
    (n : ℕ) × (shown : List String) × (line_limit "2" ≡ pos n)
    × (n ≤ 2000)
    × (handle_logs keenetic console "GET" "singbox" "2" home
        ≡ reply (record { source = "singbox"; lines = shown; note = none }))
    × All (λ line. mentions keenetic line ≡ true) shown
    × IsRecent n (kept (mentions keenetic) (split b'\n' system_log)) shown
handle_logs-IsRecent_example = handle_logs-IsRecent keenetic console "2" system_log home refl refl

length-handle_logs_example : (n : ℕ) × Asked "2" n × (2 ≤ n)
unfolding logs
length-handle_logs_example =
    length-handle_logs keenetic console "" "2" home
      (record {
        source = "singbox";
        lines = "I: singbox: tun up" ∷ "E: sing-box: dial" ∷ [];
        note = none;
      })
      refl

-- The pipe gives "a\nb", nothing, "c\n", and ends before "d\n".
abbrev reads : List Read
reads =
    record { now = 1; chunk = b'a' ∷ b'\n' ∷ b'b' ∷ []; ended = false }
    ∷ record { now = 2; chunk = []; ended = false }
    ∷ record { now = 3; chunk = b'c' ∷ b'\n' ∷ []; ended = true }
    ∷ record { now = 4; chunk = b'd' ∷ b'\n' ∷ []; ended = false }
    ∷ []

abbrev piped : Piped
piped = pumped reads ([], served "1.0" "/opt/etc/singbox-helper/config.yaml" default_settings)

handed_test : piped.0 ≡ b'a' ∷ b'\n' ∷ b'b' ∷ b'c' ∷ b'\n' ∷ []
unfolding pumped pass_on
handed_test = refl

-- The second line has waited for its newline.
arrivals_test :
    arrivals [] (received reads)
    ≡ record { when = 1; text = b'a' ∷ [] } ∷ record { when = 3; text = b'b' ∷ b'c' ∷ [] } ∷ []
unfolding arrivals complete stored remainder trim_cr
arrivals_test = refl

handle_logs-pumped_example :
    (n : ℕ) × Asked "1" n
    × (piped.0 ≡ stream (received reads))
    × (handle_logs toy console "GET" "helper" "1" piped.1
        ≡ reply (record {
          source = "helper";
          lines = map (shown_line console) (keep_last (min n 500) (arrivals [] (received reads)));
          note = none;
        }))
    × (map text_of (arrivals [] (received reads)) ≡ stored (complete piped.0))
handle_logs-pumped_example =
    handle_logs-pumped toy console "1.0" "/opt/etc/singbox-helper/config.yaml" "1" default_settings
      reads
