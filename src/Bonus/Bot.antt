-- ===== src/Bonus/Bot.antt =====
-- bonus/Bot.cpp: the bot's state, its answers to the messages of the server, and its loop.
pub mod Sending
pub mod Safety
pub mod Answers
pub mod Quitting
pub mod Run
pub mod Connecting
use irc.Common.{
  ℕ, zero, suc, ◌+◌, Bool, true, false, not, ◌&&◌, ◌||◌, List, [], ◌∷◌, ◌++◌, Option, none, some,
  Text, codes, text_eq, ◌==◌, if◌then◌else◌, take, drop, get_or, is_empty,
}
use irc.Common.Lines.{find_char}
use irc.Protocol.Message.{Message, has_param, get_single_param}
use irc.Protocol.Parser.{parse}
use irc.Network.Connection.{Received, bytes, end_of_stream, recv_error, Sent, took, send_failed}
use irc.Bonus.LineBuffer.{LineBuffer, line_buffer, append, pop_line}
use irc.Bonus.Formatter.{pass, nick, user, pong, join, privmsg, quit}

-- The socket of the bot is modelled apart, where it connects.
pub record Bot : Type 0 where
  pub password : Text
  pub channel : Text
  pub nickname : Text
  pub running : Bool
  pub joined : Bool
  pub line_buffer : LineBuffer
  -- std::queue: the front comes first
  pub outbox : List Text

-- A std::runtime_error, by what it says.
pub data Result (A : Type 0) : Type 0 where
  ok : A → Result A
  throws : Text → Result A

-- Bot::Bot(host, port, password, channel, nickname)
unfoldable pub new_bot : Text → Text → Text → Bot
new_bot password channel nickname = record {
  password = password;
  channel = channel;
  nickname = nickname;
  running = true;
  joined = false;
  line_buffer = line_buffer;
  outbox = [];
}

unfoldable pub enqueue : Text → Bot → Bot
enqueue line b = record b { outbox = b.outbox ++ line ∷ [] }

unfoldable pub enqueue_registration : Bot → Bot
unfolding enqueue
enqueue_registration b =
    let first = if not (is_empty b.password) then enqueue (pass b.password) b else b in
    enqueue (user b.nickname (codes "ft_irc bonus bot")) (enqueue (nick b.nickname) first)

-- The position of the first `!`, or else of the first `@`.
unfoldable pub end_of_nick : Text → Option ℕ
end_of_nick prefix = elim (find_char b'!' prefix) [ some n ↦ some n | none ↦ find_char b'@' prefix ]

unfoldable pub sender_nick : Text → Text
unfolding end_of_nick
sender_nick prefix = elim (end_of_nick prefix) [ none ↦ prefix | some n ↦ take n prefix ]

unfoldable pub reply_target : Message → Text
unfolding sender_nick
reply_target message =
    let target = get_single_param 0 message in
    if not (is_empty target) && (get_or target 0 0 == b'#' || get_or target 0 0 == b'&')
    then target
    else sender_nick message.prefix

-- find("!echo ") == 0
abbrev pub is_echo : Text → Bool
is_echo text = text_eq (take 6 text) (codes "!echo ")

-- `now` is currentTimeText().
unfoldable pub build_command_reply : Text → Text → Bot → Text × Bot
unfolding enqueue
build_command_reply now text b =
    if text_eq text (codes "!help")
    then (codes "commands: !help !ping !echo <text> !time !quit", b)
    else if text_eq text (codes "!ping")
    then (codes "pong", b)
    else if is_echo text
    then (drop 6 text, b)
    else if text_eq text (codes "!time")
    then (now, b)
    else if text_eq text (codes "!quit")
    then (
      codes "bye",
      record (enqueue (quit (codes "bonus bot shutting down")) b) { running = false },
    )
    else (codes "unknown command; try !help", b)

unfoldable pub send_reply : Message → Text → Bot → Bot
unfolding enqueue
send_reply message text b =
    if not (is_empty text) then enqueue (privmsg (reply_target message) text) b else b

unfoldable pub handle_privmsg : Text → Message → Bot → Bot
handle_privmsg now message b =
    let text = get_single_param 1 message in
    if not (has_param 1 message)
    then b
    else if is_empty text || not (get_or text 0 0 == b'!')
    then b
    else let (reply, b') = build_command_reply now text b in send_reply message reply b'

unfoldable pub handle_message : Text → Message → Bot → Bot
unfolding enqueue
handle_message now message b =
    if text_eq message.command (codes "PING") && has_param 0 message
    then enqueue (pong (get_single_param 0 message)) b
    else if text_eq message.command (codes "001") && not b.joined
    then record (enqueue (join b.channel) b) { joined = true }
    else if text_eq message.command (codes "PRIVMSG")
    then handle_privmsg now message b
    else b

-- The loop of readFromServer: handling a message leaves the line buffer alone, so the lines that wait
-- when it starts are the rounds that it makes.
unfoldable pub handle_lines : Text → List Text → Bot → Bot
handle_lines now [] b = b
handle_lines now (line ∷ rest) b =
    let (popped, buffer) = pop_line b.line_buffer in
    handle_lines now rest (handle_message now (parse popped) (record b { line_buffer = buffer }))

unfoldable pub read_from_server : Text → Received → Bot → Result Bot
read_from_server now recv_error b = throws (codes "recv failed")
read_from_server now end_of_stream b = throws (codes "server closed connection")
read_from_server now (bytes s) b =
    let filled = append s b.line_buffer in
    ok (handle_lines now filled.lines (record b { line_buffer = filled }))

-- flushOutput: `sent i` is what send() returns at the i-th call. What has gone out comes with the lines
-- that are left.
unfoldable pub flush_lines : (ℕ → Sent) → ℕ → List Text → Result (Text × List Text)
flush_lines sent i [] = ok ([], [])
flush_lines sent i (line ∷ rest) = elim (sent i) [
  | send_failed ↦ throws (codes "send failed")
  | took n ↦
      if n == 0
      then throws (codes "send failed")
      else if not (is_empty (drop n line))
      then ok (take n line, drop n line ∷ rest)
      else elim (flush_lines sent (i + 1) rest) [
        | throws e ↦ throws e
        | ok (wire, left) ↦ ok (take n line ++ wire, left)
      ]
]

unfoldable pub flush_output : (ℕ → Sent) → Bot → Result (Text × Bot)
flush_output sent b = elim (flush_lines sent 0 b.outbox) [
  | throws e ↦ throws e
  | ok (wire, left) ↦ ok (wire, record b { outbox = left })
]

-- What poll() reports, with what recv() and send() then return and the time that is shown.
pub record Polled : Type 0 where
  pub pollin : Bool
  pub pollout : Bool
  -- POLLERR, POLLHUP or POLLNVAL
  pub broken : Bool
  pub received : Received
  pub sent : ℕ → Sent
  pub now : Text

pub data Event : Type 0 where
  poll_failed : Event
  timed_out : Event
  polled : Polled → Event

-- The POLLOUT part of a round.
unfoldable pub flush_if_writable : Polled → Bot → Result (Text × Bot)
flush_if_writable e b = if e.pollout then flush_output e.sent b else ok ([], b)

unfoldable pub handle_polled : Polled → Bot → Result (Text × Bot)
unfolding flush_if_writable
handle_polled e b =
    if e.broken
    then throws (codes "server connection closed")
    else if not e.pollin
    then flush_if_writable e b
    else elim (read_from_server e.now e.received b) [
      | throws text ↦ throws text
      | ok b' ↦ flush_if_writable e b'
    ]

-- One round of the loop of run(), and the bytes that it sends.
unfoldable pub round : Event → Bot → Result (Text × Bot)
unfolding handle_polled
round poll_failed b = throws (codes "poll failed")
round timed_out b = ok ([], b)
round (polled e) b = handle_polled e b

-- The loop of run() over what happens, until `_running` is false.
unfoldable pub run_rounds : List Event → Bot → Result (Text × Bot)
run_rounds [] b = ok ([], b)
run_rounds (e ∷ es) b = if not b.running then ok ([], b) else elim (round e b) [
  | throws text ↦ throws text
  | ok (wire, b') ↦ elim (run_rounds es b') [
    | throws text ↦ throws text
    | ok (later, b'') ↦ ok (wire ++ later, b'')
  ]
]

-- The loop at the end of run(): `sent k i` is what the i-th send() of the k-th round returns. `none`
-- means that the rounds ran out.
unfoldable pub flush_all : ℕ → (ℕ → ℕ → Sent) → Bot → Option (Result (Text × Bot))
flush_all zero sent b = none
flush_all (suc rounds) sent b =
    let rest = λ (b' : Bot). flush_all rounds (λ k. sent (suc k)) b' in
    if is_empty b.outbox then some (ok ([], b)) else elim (flush_output (sent 0) b) [
      | throws text ↦ some (throws text)
      | ok (wire, b') ↦ elim (rest b') [
        | none ↦ none
        | some (throws text) ↦ some (throws text)
        | some (ok (later, b'')) ↦ some (ok (wire ++ later, b''))
      ]
    ]
