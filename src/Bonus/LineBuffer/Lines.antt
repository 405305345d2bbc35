-- ===== src/Bonus/LineBuffer/Lines.antt =====
-- The queue of bonus/irc/LineBuffer.cpp holds the lines of the stream, however it arrives.
use irc.Common.{
  ℕ, zero, suc, ◌<◌, ◌≡◌, refl, ◌∙◌, ◌++◌, map, map-append, some, Text, arith, length, append-nil,
  append_assoc, Option-cases, inl, inr,
}
use irc.Common.Lines.{
  find_char, lines_of, lines_of-absent, lines_of-found, lines_of-append, find_char-lt_length,
  length-drop,
}
use irc.Bonus.LineBuffer.{LineBuffer, push_line, push_lines, without_return, append}

-- The buffer after all its lines have gone to the queue.
abbrev pub drained : LineBuffer → LineBuffer
drained b = record {
  buffer = (lines_of b.buffer).1;
  lines = b.lines ++ map without_return (lines_of b.buffer).0;
}

-- Enough rounds drain the buffer.
push_lines-drained :
    (rounds : ℕ) (b : LineBuffer)
    → length b.buffer < rounds
    → push_lines rounds b ≡ some (drained b)
unfolding push_lines push_line
push_lines-drained zero b h = absurd (omega arith)
push_lines-drained (suc rounds) b h = elim (Option-cases (find_char 10 b.buffer)) [
  | inl absent ↦
      rw (push_lines, absent, lines_of-absent b.buffer absent) (rw (append-nil b.lines) refl)
  | inr (n, found) ↦
      rw (push_lines, found, lines_of-found b.buffer n found)
        (push_lines-drained rounds (push_line n b) (
            omega (arith, length-drop (suc n) b.buffer, find_char-lt_length 10 b.buffer n found, h))
          ∙ simp append_assoc refl)
]

pub append-drained :
    (bytes : Text) (b : LineBuffer)
    → append bytes b ≡ drained (record b { buffer = b.buffer ++ bytes })
unfolding append
append-drained bytes b =
    let filled = record b { buffer = b.buffer ++ bytes } in
    rw (append, push_lines-drained (suc (length filled.buffer)) filled (omega arith)) refl

-- It makes no difference whether bytes are received at once or in two parts.
pub append-append : (s t : Text) (b : LineBuffer) → append t (append s b) ≡ append (s ++ t) b
append-append s t b =
    rw (append-drained s b, append-drained (s ++ t) b, append-drained t)
      (rw (← append_assoc b.buffer s t, lines_of-append (b.buffer ++ s) t)
        (simp (map-append, append_assoc) refl))
