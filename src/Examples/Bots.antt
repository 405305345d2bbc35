-- ===== src/Examples/Bots.antt =====
-- The bonus bot on a short exchange, and the command lines.
use irc.Common.{
  ℕ, true, false, ◌≡◌, ◌⊎◌, refl, arith, [], ◌∷◌, ◌++◌, some, Text, codes, text_eq, concat,
}
use irc.Common.Lines.{find_char}
use irc.Protocol.Message.{Message, has_param, get_single_param}
use irc.Protocol.Parser.{parse, upper_command, to_upper}
use irc.Network.Connection.{bytes, took}
use irc.Bonus.LineBuffer.{
  line_buffer, append, push_lines, push_line, without_return, pop_line, pop_front,
}
use irc.Bonus.LineBuffer.Lines.{append-append}
use irc.Bonus.Formatter.{pass, nick, user, privmsg, join, pong}
use irc.Bonus.Formatter.Parsing.{parse-privmsg, parse-registration}
use irc.Bonus.Bot.{
  Bot, new_bot, ok, throws, enqueue_registration, enqueue, reply_target, handle_message,
  handle_lines, read_from_server, flush_all,
}
use irc.Bonus.Bot.Safety.{IsClean}
use irc.Bonus.Bot.Sending.{is_failure, flush_all-sends}
use irc.Bonus.Bot.Run.{read_from_server-IsClean}
use irc.Network.Connection.{Connection, new_connection}
use irc.Network.Server.{Server, store_connection, read_lines, new_server, accept_client, add_fd}
use irc.Network.Server.Buffers.{received}
use irc.Network.Server.Lines.{connected}
use irc.Common.Map.{find, put, same}
use irc.Examples.Shutdown.{allocator, one_connection}
use irc.Bonus.Bot.Quitting.{quit_bytes, after_quit, handle_message-quit}
use irc.Bonus.Bot.Answers.{has_timed_out-dispatch-pong, monitor-dispatch-pong}
use irc.Protocol.Replies
use irc.Health.{make_ping_token, generate_ping, mark_pong_received, has_timed_out}
use irc.State.Server.{get_client_by_fd}
use irc.Examples.Sessions.{evaluated, accepted_state}
use irc.Examples.Pings.{two_clients}
use irc.Entry.{BotArguments}

abbrev small_bot : Bot
small_bot = new_bot (codes "secret") (codes "#42") (codes "helper")

abbrev registered_bot : Bot
registered_bot = enqueue_registration small_bot

append-append_example :
    append (codes "llo" ++ 13 ∷ 10 ∷ []) (append (codes "he") line_buffer)
    ≡ append (codes "hello" ++ 13 ∷ 10 ∷ []) line_buffer
append-append_example = append-append (codes "he") (codes "llo" ++ 13 ∷ 10 ∷ []) line_buffer

parse-privmsg_example :
    parse (privmsg (codes "#42") (codes "hi: all"))
    ≡ record { prefix = []; command = codes "PRIVMSG"; params = codes "#42" ∷ codes "hi: all" ∷ [] }
parse-privmsg_example = parse-privmsg (codes "#42") (codes "hi: all") refl

parse-registration_example :
    (parse (pass (codes "secret"))
      ≡ record { prefix = []; command = codes "PASS"; params = codes "secret" ∷ [] })
    × (parse (nick (codes "helper"))
        ≡ record { prefix = []; command = codes "NICK"; params = codes "helper" ∷ [] })
    × (parse (user (codes "helper") (codes "a bot")) ≡ record {
      prefix = [];
      command = codes "USER";
      params = codes "helper" ∷ codes "0" ∷ codes "*" ∷ codes "a bot" ∷ [];
    })
parse-registration_example =
    parse-registration (codes "secret") (codes "helper") (codes "a bot") refl refl

-- Three bytes go out at every call.
flush_all-sends_example :
    ((k : ℕ) × (i : ℕ) × (is_failure (took 3) ≡ true)
      × (flush_all 70 (λ _ _. took 3) registered_bot ≡ some (throws (codes "send failed"))))
    ⊎ (flush_all 70 (λ _ _. took 3) registered_bot
        ≡ some (ok (concat registered_bot.outbox, record registered_bot { outbox = [] })))
unfolding enqueue_registration enqueue pass nick user new_bot
flush_all-sends_example = flush_all-sends 70 (λ _ _. took 3) registered_bot (omega arith)

abbrev greeting : Text
greeting = codes ":irc.local 001 helper :Welcome" ++ 13 ∷ 10 ∷ []

abbrev quit_request : Message
quit_request = record {
  prefix = codes "alice!a@host";
  command = codes "PRIVMSG";
  params = codes "#42" ∷ codes "!quit" ∷ [];
}

abbrev example_arguments : BotArguments
example_arguments = record {
  host = codes "localhost";
  port = codes "6667";
  password = codes "secret";
  channel = codes "#42";
  nickname = codes "bonusbot";
}

-- The bot once it has read the greeting.
abbrev greeted_bot : Bot
greeted_bot = record small_bot { joined = true; outbox = join (codes "#42") ∷ [] }

greeted : read_from_server (codes "now") (bytes greeting) small_bot ≡ ok greeted_bot
unfolding read_from_server append push_lines push_line without_return find_char handle_lines
    pop_line pop_front parse text_eq has_param get_single_param handle_message enqueue upper_command
    to_upper new_bot join
greeted = refl

read_from_server-IsClean_example : IsClean greeted_bot
unfolding new_bot
read_from_server-IsClean_example =
    read_from_server-IsClean (codes "now") refl (bytes greeting) small_bot greeted_bot
      (record { channel_clean = refl; lines_clean = refl; outbox_lines = refl }) greeted

found_client : get_client_by_fd 4 accepted_state ≡ some 100
unfolding evaluated
found_client = refl

-- The bot has told the server that it goes.
abbrev told_server : Server
told_server =
    store_connection 4
      (record (new_connection 4) {
        recv_buffer = concat (handle_message (codes "now") quit_request small_bot).outbox;
      })
      one_connection

told_received :
    received 4 told_server
    ≡ some (concat (handle_message (codes "now") quit_request small_bot).outbox)
unfolding received accept_client add_fd new_server new_connection find put same
told_received = refl

told_known : get_client_by_fd 4 told_server.state ≡ some 100
unfolding evaluated accept_client add_fd new_server
told_known = refl

handle_message-quit_example :
    ((handle_message (codes "now") quit_request small_bot).running ≡ false)
    × ((handle_message (codes "now") quit_request small_bot).outbox
        ≡ quit_bytes ∷ privmsg (reply_target quit_request) (codes "bye") ∷ [])
    × (rest : Connection) × (read_lines allocator 1 4 0 told_server
        ≡ some (false, after_quit allocator 4 0 rest told_server))
    × (connected 4 (after_quit allocator 4 0 rest told_server) ≡ false)
unfolding has_param get_single_param new_bot
handle_message-quit_example =
    handle_message-quit (codes "now") quit_request small_bot allocator 0 4 0 100 told_server refl
      refl refl refl told_received told_known

has_timed_out-dispatch-pong_example :
    (handle_message (codes "now") (parse (Replies.ping (make_ping_token 4 1500))) small_bot
      ≡ enqueue (pong (make_ping_token 4 1500)) small_bot)
    × (has_timed_out 4 9000
          (mark_pong_received 4 (make_ping_token 4 1500) 1501 (generate_ping 4 1500 two_clients).1)
        ≡ false)
has_timed_out-dispatch-pong_example =
    let asked = (generate_ping 4 1500 two_clients).1 in
    has_timed_out-dispatch-pong 4 1500 1501 9000 900 100 (codes "now") small_bot accepted_state
      two_clients (mark_pong_received 4 (make_ping_token 4 1500) 1501 asked) found_client
      (monitor-dispatch-pong 4 1501 900 100 (make_ping_token 4 1500) accepted_state asked
        found_client)
