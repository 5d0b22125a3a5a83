-- ===== src/Cli/Pump.antt =====
-- cmd/singbox-helper/main.go: the goroutine of runServer that copies what the helper prints on its
-- standard error to the original one and into the buffer of the server.
use mathlib.Core.Option
use sing_box_helper.Prelude.{
  ℕ, Bool, List, [], ◌∷◌, ◌++◌, map, none, some, String, if◌then◌else◌, ◌≡◌, refl, sym, ◌∙◌, ap,
  pos, min, keep_last, ltb, length, append_assoc, append-nil, Bool-cases, inl, inr,
}
use sing_box_helper.Platform.{Platform}
use sing_box_helper.Config.Settings.{Settings}
use sing_box_helper.Logbuf.{Bytes, Buffer, new, write}
use sing_box_helper.Logbuf.Stream.{complete, stored}
use sing_box_helper.Logbuf.Ring.{text_of}
use sing_box_helper.Logbuf.Writes.{arrivals, write_all, stream}
use sing_box_helper.Web.{Server, new_server, reply}
use sing_box_helper.Web.Journal.{Console, handle_logs, shown_line}
use sing_box_helper.Web.Journal.Limit.{Asked}
use sing_box_helper.Web.Journal.Recent.{handle_logs-write_all}
use sing_box_helper.Cli.{served}

-- A read from the pipe: its moment, the bytes that came, and whether it reports an error or the end.
pub record Read : Type 0 where
  pub now : ℕ
  pub chunk : Bytes
  pub ended : Bool

-- What was handed to the original standard error, and the server.
abbrev pub Piped : Type 0
Piped = Bytes × Server

-- One round of the loop, up to the test of the error.
unfoldable pub pass_on : Read → Piped → Piped
pass_on r (out, s) =
    if ltb 0 (length r.chunk)
    then (out ++ r.chunk, record s { logs = Option.map (write r.now r.chunk) s.logs })
    else (out, s)

-- The loop. Behind the last of the reads it waits.
unfoldable pub pumped : List Read → Piped → Piped
pumped [] p = p
pumped (r ∷ rs) p = let rest = pumped rs (pass_on r p) in if r.ended then pass_on r p else rest

write_all-append :
    (ps qs : List (ℕ × Bytes)) (b : Buffer) → write_all (ps ++ qs) b ≡ write_all qs (write_all ps b)
write_all-append [] qs b = refl
write_all-append ((now, p) ∷ ps) qs b = write_all-append ps qs (write now p b)

stream-append : (ps qs : List (ℕ × Bytes)) → stream (ps ++ qs) ≡ stream ps ++ stream qs
stream-append [] qs = refl
stream-append ((now, p) ∷ ps) qs =
    rw (stream-append ps qs) (sym (append_assoc p (stream ps) (stream qs)))

-- What comes from the pipe up to the first error: the moments and the bytes of the reads that have
-- some.
abbrev chunk_of : Read → List (ℕ × Bytes)
chunk_of r = if ltb 0 (length r.chunk) then (r.now, r.chunk) ∷ [] else []

abbrev pub received : List Read → List (ℕ × Bytes)
received [] = []
received (r ∷ rs) = let rest = received rs in chunk_of r ++ (if r.ended then [] else rest)

-- The buffer `b` takes the writes, and the original standard error their bytes.
Passes : Buffer → Bytes → Piped → List (ℕ × Bytes) → Type 0
Passes b out (out', s) ps = (out' ≡ out ++ stream ps) × (s.logs ≡ some (write_all ps b))

pass_on-Passes :
    (r : Read) (out : Bytes) (s : Server) (b : Buffer)
    → s.logs ≡ some b
    → Passes b out (pass_on r (out, s)) (chunk_of r)
unfolding pass_on Passes
pass_on-Passes r out s b h = elim (Bool-cases (ltb 0 (length r.chunk))) [
  | inl e ↦ rw (e, h) (rw append-nil refl, refl)
  | inr e ↦ rw (e, h) (rw append-nil refl, refl)
]

Passes-then :
    (b : Buffer) (out : Bytes) (p q : Piped) (ps qs : List (ℕ × Bytes))
    → Passes b out p ps
    → ((b' : Buffer) → p.1.logs ≡ some b' → Passes b' p.0 q qs)
    → Passes b out q (ps ++ qs)
unfolding Passes
Passes-then b out p (out', s) ps qs (handed, buffered) further =
    let (handed', buffered') = further (write_all ps b) buffered in
    (
      handed' ∙ rw (handed, stream-append ps qs) (append_assoc out (stream ps) (stream qs)),
      buffered' ∙ ap some (sym (write_all-append ps qs b)),
    )

pumped-Passes :
    (rs : List Read) (p : Piped) (b : Buffer)
    → p.1.logs ≡ some b
    → Passes b p.0 (pumped rs p) (received rs)
unfolding pumped Passes pass_on
pumped-Passes [] (out, s) b h = (rw append-nil refl, h)
pumped-Passes (r ∷ rs) (out, s) b h = elim (Bool-cases r.ended) [
  | inl e ↦ rw (e, append-nil) (pass_on-Passes r out s b h)
  | inr e ↦ rw e (
      Passes-then b out (pass_on r (out, s)) (pumped rs (pass_on r (out, s))) (chunk_of r)
        (received rs) (pass_on-Passes r out s b h) (pumped-Passes rs (pass_on r (out, s))))
]

-- From the start of the server on, however what the helper prints is cut into reads and wherever
-- the reads end, the page of the helper's own log shows the last of the lines that have arrived
-- from the pipe: as many as the query asks for, and 500 at most, oldest first, each with the time of
-- the read that brought its newline. Their texts are the complete, non-empty lines of exactly the
-- bytes that were handed to the original standard error, which are those of the reads up to the
-- first error.
pub handle_logs-pumped :
    (g : Platform) (c : Console) (version path v : String) (settings : Settings) (rs : List Read)
    → let (out, s) = pumped rs ([], served version path settings) in
      (n : ℕ) × Asked v n
      × (out ≡ stream (received rs))
      × (handle_logs g c "GET" "helper" v s
          ≡ reply (record {
            source = "helper";
            lines = map (shown_line c) (keep_last (min n 500) (arrivals [] (received rs)));
            note = none;
          }))
      × (map text_of (arrivals [] (received rs)) ≡ stored (complete out))
unfolding new new_server served Passes
handle_logs-pumped g c version path v settings rs =
    let p : Piped = ([], served version path settings) in
    let (handed, buffered) = pumped-Passes rs p (new (pos 500)) refl in
    let (n, asked, page, texts) =
      handle_logs-write_all g c (pos 500) (received rs) v (pumped rs p).1 buffered in
    (n, asked, handed, page, rw handed texts)
