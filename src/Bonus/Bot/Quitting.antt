-- ===== src/Bonus/Bot/Quitting.antt =====
-- What bonus/Bot.cpp sends when it is told to quit, and what the server makes of it.
use irc.Common.{
  ℕ, suc, true, false, ◌≡◌, ◌∙◌, refl, ap, [], ◌∷◌, ◌++◌, some, Option, Text, codes, arith, concat,
  length, text_eq, ==_iff, subst,
}
use irc.Protocol.Message.{Message, has_param, get_single_param}
use irc.Protocol.Parser.{parse, upper_command, to_upper}
use irc.Health.{ConnectionHealthMonitor}
use irc.Protocol.Result.{CommandResult}
use irc.State.Server.{ServerState, get_client_by_fd}
use irc.Command.Dispatch.{dispatch, dispatch_to, run_command, handle_quit}
use irc.Network.Connection.{Connection, find_newline, line_before}
use irc.Network.Server.{Server, store_connection, handle_line, read_lines}
use irc.Network.Server.Buffers.{received}
use irc.Network.Server.Lines.{
  connected, found-received, read_lines-found, ran_line, received-ran_line, rest_after,
}
use irc.Bonus.Formatter.{privmsg, quit}
use irc.Bonus.Bot.{
  Bot, enqueue, reply_target, build_command_reply, send_reply, handle_privmsg, handle_message,
}

-- The line with which the bot goes, without its terminator.
abbrev pub quit_line : Text
quit_line = codes "QUIT :bonus bot shutting down"

abbrev pub quit_bytes : Text
quit_bytes = quit (codes "bonus bot shutting down")

parse-quit_line :
    parse quit_line
    ≡ record { prefix = []; command = codes "QUIT"; params = codes "bonus bot shutting down" ∷ [] }
unfolding parse upper_command to_upper
parse-quit_line = refl

running-handle_message :
    (now : Text) (message : Message) (b : Bot)
    → message.command ≡ codes "PRIVMSG"
    → has_param 1 message ≡ true
    → get_single_param 1 message ≡ codes "!quit"
    → (handle_message now message b).running ≡ false
unfolding handle_message handle_privmsg build_command_reply send_reply enqueue text_eq
running-handle_message now message b h k l = simp (h, k, l) refl

-- On a command to quit the bot queues QUIT first, and then its farewell.
outbox-handle_message :
    (now : Text) (message : Message) (b : Bot)
    → message.command ≡ codes "PRIVMSG"
    → has_param 1 message ≡ true
    → get_single_param 1 message ≡ codes "!quit"
    → b.outbox ≡ []
    → (handle_message now message b).outbox
      ≡ quit_bytes ∷ privmsg (reply_target message) (codes "bye") ∷ []
unfolding handle_message handle_privmsg build_command_reply send_reply enqueue text_eq
outbox-handle_message now message b h k l empty = simp (h, k, l, empty) refl

module _ (farewell : Text) where
  find_newline-quit : find_newline (quit_bytes ++ farewell) ≡ some (suc (length quit_line))
  unfolding find_newline quit
  find_newline-quit = refl

  line_before-quit : line_before (suc (length quit_line)) (quit_bytes ++ farewell) ≡ quit_line
  unfolding line_before quit
  line_before-quit = refl

-- The line of the bot asks to disconnect, whoever has sent it.
should_disconnect-dispatch :
    (fd received_at q p : ℕ) (s : ServerState) (m : Option ConnectionHealthMonitor)
    → get_client_by_fd fd s ≡ some p
    → (dispatch fd (parse quit_line) received_at q s m).result.should_disconnect ≡ true
unfolding dispatch dispatch_to run_command handle_quit text_eq
should_disconnect-dispatch fd received_at q p s m found = rw (dispatch, found, parse-quit_line) refl

-- The server after it has run this one line, `rest` being the connection without it.
abbrev pub after_quit : (ServerState → ℕ) → ℕ → ℕ → Connection → Server → Server
after_quit new_channel fd received_at rest v =
    (handle_line fd quit_line received_at (new_channel v.state) (store_connection fd rest v)).1

module _ (new_channel : ServerState → ℕ) (rounds fd received_at p : ℕ) (farewell : Text)
    (v : Server) where
  read_lines-quit :
      received fd v ≡ some (quit_bytes ++ farewell)
      → get_client_by_fd fd v.state ≡ some p
      → (rest : Connection) × (read_lines new_channel (suc rounds) fd received_at v
          ≡ some (false, after_quit new_channel fd received_at rest v))
        × (connected fd (after_quit new_channel fd received_at rest v) ≡ false)
  unfolding handle_line
  read_lines-quit waits known =
      let n = suc (length quit_line) in
      let (c, found, same) = found-received fd v (quit_bytes ++ farewell) waits in
      let newline : find_newline c.recv_buffer ≡ some n = rw same (find_newline-quit farewell) in
      let line : line_before n c.recv_buffer ≡ quit_line = rw same (line_before-quit farewell) in
      let stored = store_connection fd (rest_after n c) v in
      let ran : ran_line new_channel fd received_at n c v
          ≡ handle_line fd quit_line received_at (new_channel v.state) stored =
        ap (λ t. handle_line fd t received_at (new_channel v.state) stored) line in
      let quits : (ran_line new_channel fd received_at n c v).0.should_disconnect ≡ true =
        ap (λ (x : CommandResult × Server). x.0.should_disconnect) ran
        ∙ should_disconnect-dispatch fd received_at (new_channel v.state) p v.state
            (some v.health_monitor) known in
      (
        rest_after n c,
        rw (read_lines-found new_channel fd received_at rounds n c v found newline, quits)
            (ap (λ (x : CommandResult × Server). some (false, x.1)) ran),
        subst (λ (x : CommandResult × Server). connected fd x.1 ≡ false) ran
            (ground
              (arith, received-ran_line new_channel fd received_at fd n c v, quits, ==_iff fd fd)),
      )

-- To the command to quit, in a channel or alone, a bot with nothing in its queue stops, and queues QUIT
-- and then its farewell. Where the server has received these bytes from a client that it knows, and
-- nothing else waits, its loop over the received lines runs the first of them and no other, answers
-- that the client has gone, and has closed its connection.
pub handle_message-quit :
    (now : Text) (message : Message) (b : Bot) (new_channel : ServerState → ℕ)
    (rounds fd received_at p : ℕ) (v : Server)
    → message.command ≡ codes "PRIVMSG"
    → has_param 1 message ≡ true
    → get_single_param 1 message ≡ codes "!quit"
    → b.outbox ≡ []
    → received fd v ≡ some (concat (handle_message now message b).outbox)
    → get_client_by_fd fd v.state ≡ some p
    → ((handle_message now message b).running ≡ false)
      × ((handle_message now message b).outbox
          ≡ quit_bytes ∷ privmsg (reply_target message) (codes "bye") ∷ [])
      × (rest : Connection) × (read_lines new_channel (suc rounds) fd received_at v
          ≡ some (false, after_quit new_channel fd received_at rest v))
      × (connected fd (after_quit new_channel fd received_at rest v) ≡ false)
handle_message-quit now message b new_channel rounds fd received_at p v h k l empty waits known =
    let queued = outbox-handle_message now message b h k l empty in
    let (rest, ran, gone) =
      read_lines-quit new_channel rounds fd received_at p
        (concat (privmsg (reply_target message) (codes "bye") ∷ [])) v
        (waits ∙ ap (λ o. some (concat o)) queued) known in
    (running-handle_message now message b h k l, queued, rest, ran, gone)
