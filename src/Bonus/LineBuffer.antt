-- ===== src/Bonus/LineBuffer.antt =====
-- bonus/irc/LineBuffer.cpp: the bytes received so far, cut into lines.
pub mod Lines
use irc.Common.{
  ℕ, zero, suc, ◌-◌, Bool, not, ◌&&◌, List, [], ◌∷◌, ◌++◌, Option, none, some, Text, ◌==◌,
  if◌then◌else◌, length, take, drop, get_or, is_empty,
}
use irc.Common.Lines.{find_char}

pub record LineBuffer : Type 0 where
  pub buffer : Text
  -- std::queue: the front comes first
  pub lines : List Text

-- LineBuffer::LineBuffer()
abbrev pub line_buffer : LineBuffer
line_buffer = record { buffer = []; lines = [] }

-- A line less the carriage return at its end.
unfoldable pub without_return : Text → Text
without_return line =
    if not (is_empty line) && get_or line (length line - 1) 0 == 13
    then take (length line - 1) line
    else line

-- The line that ends at `n` goes from the buffer to the queue.
unfoldable pub push_line : ℕ → LineBuffer → LineBuffer
push_line n b = record {
  buffer = drop (suc n) b.buffer;
  lines = b.lines ++ without_return (take n b.buffer) ∷ [];
}

-- The loop of append. `none` means that the rounds ran out.
unfoldable pub push_lines : ℕ → LineBuffer → Option LineBuffer
push_lines zero b = none
push_lines (suc rounds) b = elim (find_char 10 b.buffer) [
  | none ↦ some b
  | some n ↦ push_lines rounds (push_line n b)
]

-- Each round takes a byte at least.
unfoldable pub append : Text → LineBuffer → LineBuffer
append bytes b =
    let filled = record b { buffer = b.buffer ++ bytes } in
    elim (push_lines (suc (length filled.buffer)) filled) [ none ↦ filled | some b' ↦ b' ]

unfoldable pub has_line : LineBuffer → Bool
has_line b = not (is_empty b.lines)

unfoldable pub pop_front : List Text → Text × List Text
pop_front [] = ([], [])
pop_front (line ∷ rest) = (line, rest)

-- popLine()
unfoldable pub pop_line : LineBuffer → Text × LineBuffer
pop_line b = let (line, rest) = pop_front b.lines in (line, record b { lines = rest })
