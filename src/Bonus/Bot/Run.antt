-- ===== src/Bonus/Bot/Run.antt =====
-- The rounds of bonus/Bot.cpp: whatever the server sends, the lines that the bot queues stay lines.
use irc.Protocol.Message.{Message}
use irc.Common.{
  ℕ, ap, sym, subst, ◌∙◌, ◌-◌, true, false, not, ◌≡◌, refl, List, [], ◌∷◌, ◌++◌, Text, arith, ◌==◌,
  if◌then◌else◌, all, all-append, all-take, map, length, Bool-cases, inl, inr,
}
use irc.Common.Lines.{lines_of, join_byte}
use irc.Protocol.Parser.{parse}
use irc.Protocol.Parser.Bytes.{all-parse}
use irc.Network.Connection.{Received, bytes, end_of_stream, recv_error}
use irc.Bonus.LineBuffer.{LineBuffer, without_return, append, pop_line, pop_front}
use irc.Bonus.LineBuffer.Lines.{append-drained}
use irc.Bonus.Bot.{
  Bot, Result, ok, handle_message, handle_privmsg, build_command_reply, send_reply, enqueue,
  handle_lines, read_from_server,
}
use irc.Bonus.Bot.Safety.{is_clean, IsClean, handle_message-IsClean}

join_byte-is_clean :
    (c : ℕ) (ls : List Text) (rest : Text)
    → (c == 10) ≡ false
    → all is_clean ls ≡ true
    → all is_clean (join_byte c ls rest).0 ≡ true
unfolding join_byte
join_byte-is_clean c [] rest h k = refl
join_byte-is_clean c (l ∷ ls) rest h k = ground (arith, h, k)

lines_of-is_clean : (s : Text) → all is_clean (lines_of s).0 ≡ true
unfolding lines_of
lines_of-is_clean [] = refl
lines_of-is_clean (c ∷ s) = elim (Bool-cases (c == 10)) [
  | inl newline ↦ rw (if◌then◌else◌, newline) (lines_of-is_clean s)
  | inr inside ↦
      rw (if◌then◌else◌, inside)
        (join_byte-is_clean c (lines_of s).0 (lines_of s).1 inside (lines_of-is_clean s))
]

all-without_return :
    (ls : List Text) → all is_clean ls ≡ true → all is_clean (map without_return ls) ≡ true
unfolding without_return
all-without_return [] h = refl
all-without_return (l ∷ ls) h =
    ground (arith, all-without_return ls, all-take (λ c. not (c == 10)) (length l - 1) l)

append-lines_clean :
    (s : Text) (b : LineBuffer)
    → all is_clean b.lines ≡ true
    → all is_clean (append s b).lines ≡ true
append-lines_clean s b h = rw (append-drained s b) (
    ground (
      arith,
      all-append is_clean b.lines (map without_return (lines_of (b.buffer ++ s)).0),
      all-without_return (lines_of (b.buffer ++ s)).0,
      lines_of-is_clean (b.buffer ++ s),
      h,
    ))

ok_injective : {a b : Bot} → ◌≡◌ {A = Result Bot} (ok a) (ok b) → a ≡ b
ok_injective h = cc

pop_front-clean :
    (ls : List Text)
    → all is_clean ls ≡ true
    → (is_clean (pop_front ls).0 ≡ true) × (all is_clean (pop_front ls).1 ≡ true)
unfolding pop_front
pop_front-clean [] h = (refl, refl)
pop_front-clean (l ∷ ls) h = ground (arith, h)

module _ (now : Text) (now_clean : is_clean now ≡ true) where
  handle_lines-IsClean :
      (waiting : List Text) (b : Bot) → IsClean b → IsClean (handle_lines now waiting b)
  unfolding handle_lines pop_line
  handle_lines-IsClean [] b w = w
  handle_lines-IsClean (line ∷ rest) b w =
      let (popped, left) = pop_front b.line_buffer.lines in
      let clean = pop_front-clean b.line_buffer.lines w.lines_clean in
      let buffer = record b.line_buffer { lines = left } in
      handle_lines-IsClean rest
        (handle_message now (parse popped) (record b { line_buffer = buffer }))
        (handle_message-IsClean now now_clean (parse popped)
          (all-parse (λ c. not (c == 10)) popped clean.0) (record b { line_buffer = buffer })
          (record {
            channel_clean = w.channel_clean;
            lines_clean = clean.1;
            outbox_lines = w.outbox_lines;
          }))

  -- Whatever bytes the server sends, the lines that the bot has queued after reading them have one
  -- newline each, at the end, if they had before, and if the channel that the bot is started with and
  -- the text of the time have none.
  pub read_from_server-IsClean :
      (received : Received) (b b' : Bot)
      → IsClean b
      → read_from_server now received b ≡ ok b'
      → IsClean b'
  unfolding read_from_server
  read_from_server-IsClean recv_error b b' w h = cc
  read_from_server-IsClean end_of_stream b b' w h = cc
  read_from_server-IsClean (bytes s) b b' w h =
      let filled = append s b.line_buffer in
      subst IsClean (ok_injective h) (
        handle_lines-IsClean filled.lines (record b { line_buffer = filled })
          (record {
            channel_clean = w.channel_clean;
            lines_clean = append-lines_clean s b.line_buffer w.lines_clean;
            outbox_lines = w.outbox_lines;
          }))

-- Handling a message leaves what has been received alone.
line_buffer-handle_message :
    (now : Text) (message : Message) (b : Bot)
    → (handle_message now message b).line_buffer ≡ b.line_buffer
unfolding handle_message handle_privmsg build_command_reply send_reply enqueue
line_buffer-handle_message now message b = ground arith

lines-handle_lines :
    (now : Text) (waiting : List Text) (b : Bot)
    → b.line_buffer.lines ≡ waiting
    → (handle_lines now waiting b).line_buffer.lines ≡ []
unfolding handle_lines pop_line pop_front
lines-handle_lines now [] b h = h
lines-handle_lines now (line ∷ rest) b h =
    let (popped, left) = pop_front b.line_buffer.lines in
    let waiting = record b { line_buffer = record b.line_buffer { lines = left } } in
    lines-handle_lines now rest (handle_message now (parse popped) waiting)
      (ground (arith, line_buffer-handle_message now (parse popped) waiting, h))

-- Every line that has arrived is handled before the next bytes are read.
pub lines-read_from_server :
    (now s : Text) (b b' : Bot)
    → read_from_server now (bytes s) b ≡ ok b'
    → b'.line_buffer.lines ≡ []
unfolding read_from_server
lines-read_from_server now s b b' h =
    let filled = append s b.line_buffer in
    ap (λ (x : Bot). x.line_buffer.lines) (sym (ok_injective h))
    ∙ lines-handle_lines now filled.lines (record b { line_buffer = filled }) refl
