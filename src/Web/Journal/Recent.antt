-- ===== src/Web/Journal/Recent.antt =====
-- internal/web/handlers.go: which lines the page of logs shows.
use sing_box_helper.Prelude.{
  [], ℕ, ◌-◌, ◌≤◌, ◌<◌, min, Bool, true, false, not, ◌&&◌, List, [], ◌++◌, map, Option, none, some,
  String, ◌==◌, ℤ, pos, negsuc, leb, leb_ℤ, ltb_ℤ, Result, ok, err, if◌then◌else◌, length, take,
  kept, All, ◌≡◌, refl, ◌⊎◌, inl, inr, arith, Bool-cases, length-map, length-drop, take-append-drop,
  keep_last, All-drop, kept-All,
}
use sing_box_helper.Text.{split, atoi}
use sing_box_helper.Platform.{Platform}
use sing_box_helper.Logbuf.{Bytes, Buffer, new, tail}
use sing_box_helper.Logbuf.Ring.{text_of}
use sing_box_helper.Logbuf.Stream.{stored, complete}
use sing_box_helper.Logbuf.Writes.{arrivals, write_all, stream, tail-write_all}
use sing_box_helper.Web.Journal.Limit.{Asked, line_limit-Asked}
use sing_box_helper.Web.{Server, reply, refuse, unknown_source}
use sing_box_helper.Web.Journal.{
  Note, no_ndmc, no_buffer, LogsResponse, Console, line_limit, mentions, last_lines,
  read_sing_box_log, system_reply, shown_line, handle_logs,
}

-- A number of lines that can be asked for.
abbrev pub InLimits : ℤ → Type 0
InLimits x = (n : ℕ) × (x ≡ pos n) × (0 < n) × (n ≤ 2000)

asked-InLimits :
    (o : Option ℤ)
    → InLimits (elim o [
      | none ↦ pos 200
      | some x ↦ if ltb_ℤ (pos 0) x && leb_ℤ x (pos 2000) then x else pos 200
    ])
asked-InLimits none = (200, refl, omega arith, omega arith)
asked-InLimits (some (negsuc x)) = (200, ground arith, omega arith, omega arith)
asked-InLimits (some (pos x)) =
    elim (Bool-cases (ltb_ℤ (pos 0) (pos x) && leb_ℤ (pos x) (pos 2000))) [
      | inl t ↦ rw t (x, refl, ground arith, ground arith)
      | inr t ↦ rw t (200, refl, omega arith, omega arith)
    ]

pub line_limit-InLimits : (v : String) → InLimits (line_limit v)
unfolding line_limit
line_limit-InLimits v = elim (Bool-cases (v == "")) [
  | inl t ↦ rw t (200, refl, omega arith, omega arith)
  | inr t ↦ rw t (asked-InLimits (atoi v))
]

length-tail : (n : ℕ) (b : Buffer) → 0 < n → length (tail (pos n) b) ≤ n
unfolding tail
length-tail n b h = elim (Bool-cases (leb (length b.lines) n)) [
  | inl t ↦ rw t (ground arith)
  | inr t ↦ rw t (ground (arith, length-drop (length b.lines - n) b.lines))
]

-- What was found ends in the lines that are shown; the lines in front of them are left out only if
-- the full number is shown.
pub record IsRecent (n : ℕ) (found shown : List String) : Type 0 where
  pub earlier : List String
  pub ends : earlier ++ shown ≡ found
  pub full : (length shown ≡ n) ⊎ (earlier ≡ [])
  pub bounded : length shown ≤ n

last_lines-IsRecent : (n : ℕ) (found : List String) → IsRecent n found (last_lines (pos n) found)
unfolding last_lines
last_lines-IsRecent n found = elim (Bool-cases (ltb_ℤ (pos n) (pos (length found)))) [
  | inl t ↦ rw t (record {
    earlier = take (length found - n) found;
    ends = take-append-drop (length found - n) found;
    full = inl (ground (arith, length-drop (length found - n) found));
    bounded = ground (arith, length-drop (length found - n) found);
  })
  | inr t ↦ rw t (record { earlier = []; ends = refl; full = inr refl; bounded = ground arith })
]

last_lines-All :
    (g : Platform) (n : ℕ) (log : List String)
    → All (λ x. mentions g x ≡ true) (last_lines (pos n) (kept (mentions g) log))
unfolding last_lines
last_lines-All g n log =
    let found = kept (mentions g) log in
    elim (Bool-cases (ltb_ℤ (pos n) (pos (length found)))) [
      | inl t ↦ rw t (All-drop _ (length found - n) found (kept-All (mentions g) log))
      | inr t ↦ rw t (kept-All (mentions g) log)
    ]

module _ (g : Platform) (c : Console) where
  -- The page of the system log, where the router's log can be read, shows lines of the log that
  -- mention sing-box, in its order, and no more of them than the limit that is taken from the
  -- query, which is at most 2000. Lines that mention it are left out only in front of those that
  -- are shown, and only if the limit is reached.
  pub handle_logs-IsRecent :
      (v out : String) (s : Server)
      → g.look_path "ndmc" ≡ true
      → c.show_log ≡ ok out
      → (n : ℕ) × (shown : List String) × (line_limit v ≡ pos n)
        × (n ≤ 2000)
        × (handle_logs g c "GET" "singbox" v s
            ≡ reply (record { source = "singbox"; lines = shown; note = none }))
        × All (λ line. mentions g line ≡ true) shown
        × IsRecent n (kept (mentions g) (split b'\n' out)) shown
  unfolding handle_logs read_sing_box_log system_reply
  handle_logs-IsRecent v out s there got =
      let (n, limit, some_lines, few) = line_limit-InLimits v in
      let found = kept (mentions g) (split b'\n' out) in
      (
        n,
        last_lines (pos n) found,
        limit,
        few,
        rw (there, got, limit),
        last_lines-All g n (split b'\n' out),
        last_lines-IsRecent n found,
      )

  length-read :
      (n : ℕ) (r : Result String (List String × Option Note)) (src : String)
      → read_sing_box_log g c (pos n) ≡ r
      → length (system_reply src r).lines ≤ n
  unfolding read_sing_box_log system_reply
  length-read n (err e) src h = omega arith
  length-read n (ok (lines, note)) src h = go (g.look_path "ndmc") c.show_log h
    where
      found : Bool → Result String String → Result String (List String × Option Note)
      found b o = if not b then ok ([], some no_ndmc) else elim o [
        | err e ↦ err e
        | ok out ↦ ok (last_lines (pos n) (kept (mentions g) (split b'\n' out)), none)
      ]

      go : (b : Bool) (o : Result String String) → found b o ≡ ok (lines, note) → length lines ≤ n
      go false o e = ground arith
      go true (err x) e = cc
      go true (ok out) e =
          let log = kept (mentions g) (split b'\n' out) in
          let same : last_lines (pos n) log ≡ lines = cc in
          rw (← same) (last_lines-IsRecent n log).bounded

  -- No answer of the page of logs has more lines than the query asks for: the number of the query,
  -- if it has one and that is between 1 and 2000, and else 200.
  pub length-handle_logs :
      (source v : String) (s : Server) (r : LogsResponse)
      → handle_logs g c "GET" source v s ≡ reply r
      → (n : ℕ) × Asked v n × (length r.lines ≤ n)
  unfolding handle_logs system_reply
  length-handle_logs source v s r answer =
      let (n, limit, some_lines, asked) = line_limit-Asked v in
      let src = if source == "" then "singbox" else source in
      (
        n,
        asked,
        go n some_lines (src == "singbox") (src == "helper") src s.logs (line_limit v) limit answer,
      )
    where
      go :
          (n : ℕ)
          → 0 < n
          → (is_system is_helper : Bool) (src : String) (logs : Option Buffer) (x : ℤ) → x ≡ pos n
          → (if is_system
              then reply (system_reply src (read_sing_box_log g c x))
              else if is_helper
              then elim logs [
                | none ↦ reply (record { source = src; lines = []; note = some no_buffer })
                | some b ↦
                    reply
                      (record { source = src; lines = map (shown_line c) (tail x b); note = none })
              ]
              else refuse 400 unknown_source)
            ≡ reply r
          → length r.lines ≤ n
      go n h true is_helper src logs x l e =
          let same : system_reply src (read_sing_box_log g c x) ≡ r = cc in
          rw (← same, l) (length-read n (read_sing_box_log g c (pos n)) src refl)
      go n h false true src none x l e =
          let same : record { source = src; lines = []; note = some no_buffer } ≡ r = cc in
          rw (← same) (omega arith)
      go n h false true src (some b) x l e =
          let shown = map (shown_line c) (tail x b) in
          let same : record { source = src; lines = shown; note = none } ≡ r = cc in
          rw (← same, length-map (shown_line c) (tail x b), l) (length-tail n b h)
      go n h false false src logs x l e = cc

  -- The page of the helper's own log, on a buffer that was new before any sequence of writes, shows
  -- the last of the lines that have arrived, as many as the query asks for and the buffer allows,
  -- oldest first, each with the time of the write that brought its newline. Their texts are the
  -- complete, non-empty lines of all the bytes that were written.
  pub handle_logs-write_all :
      (m : ℤ) (ps : List (ℕ × Bytes)) (v : String) (s : Server)
      → s.logs ≡ some (write_all ps (new m))
      → (n : ℕ) × Asked v n
        × (handle_logs g c "GET" "helper" v s
            ≡ reply (record {
              source = "helper";
              lines = map (shown_line c) (keep_last (min n (new m).max) (arrivals [] ps));
              note = none;
            }))
        × (map text_of (arrivals [] ps) ≡ stored (complete (stream ps)))
  unfolding handle_logs
  handle_logs-write_all m ps v s logs_are =
      let (n, limit, some_lines, asked) = line_limit-Asked v in
      let (shown, texts) = tail-write_all m n ps some_lines in
      (n, asked, rw (logs_are, limit, shown) refl, texts)
