-- ===== src/Examples/Logs.antt =====
-- The log ring.
use sing_box_helper.Prelude.{ℕ, ◌≡◌, refl, List, [], ◌∷◌, pos, map, keep_last, arith, none, ◌++◌}
use sing_box_helper.Logbuf.{
  Bytes, Buffer, new, append_locked, break_line, trim_cr, store_line, drain, write, tail,
}
use sing_box_helper.Logbuf.Ended.{write-drain}
use sing_box_helper.Logbuf.Stream.{complete, remainder, stored}
use sing_box_helper.Logbuf.Ring.{text_of}
use sing_box_helper.Logbuf.Writes.{write_all, stream, write_all-new}

logs : Unit {0}
unfolding new append_locked break_line trim_cr store_line drain write tail complete remainder stored
logs = tt

-- "a\nb\r", "\n\nc\nd"
abbrev writes : List (ℕ × Bytes)
writes = (1, b'a' ∷ b'\n' ∷ b'b' ∷ b'\r' ∷ []) ∷ (2, b'\n' ∷ b'\n' ∷ b'c' ∷ b'\n' ∷ b'd' ∷ []) ∷ []

ring_test : map text_of (write_all writes (new (pos 2))).lines ≡ (b'b' ∷ []) ∷ (b'c' ∷ []) ∷ []
unfolding logs
ring_test = refl

write_all-new_example :
    (map text_of (write_all writes (new (pos 2))).lines
      ≡ keep_last (new (pos 2)).max (stored (complete (stream writes))))
    × ((write_all writes (new (pos 2))).pending ≡ remainder (stream writes))
write_all-new_example = write_all-new (pos 2) writes

abbrev waiting : Buffer
waiting = record { lines = []; max = 2; pending = b'd' ∷ [] }

write-drain_example :
    (drain 9 3 (record waiting { pending = waiting.pending ++ b'x' ∷ b'\n' ∷ [] })
      ≡ write 3 (b'x' ∷ b'\n' ∷ []) waiting)
    × (break_line (write 3 (b'x' ∷ b'\n' ∷ []) waiting).pending ≡ none)
write-drain_example = write-drain 9 3 (b'x' ∷ b'\n' ∷ []) waiting (omega arith)
