-- ===== src/Bonus/Bot/Answers.antt =====
-- What bonus/Bot.cpp answers: to the PING of the server, and to a command to quit.
use irc.Common.{
  ℕ, false, ◌≡◌, refl, [], ◌∷◌, some, Text, codes, arith, text_eq, text_eq_refl, ==_iff,
}
use irc.Protocol.Message.{has_param, get_single_param}
use irc.Protocol.Parser.{parse, upper_command, to_upper}
use irc.Protocol.Parser.Printing.{parse-print}
use irc.Protocol.Replies
use irc.Health.{
  ConnectionHealthMonitor, generate_ping, make_ping_token, mark_pong_received, has_timed_out,
}
use irc.Health.Laws.{has_timed_out-mark_pong_received}
use irc.State.Server.{ServerState, get_client_by_fd}
use irc.Command.Dispatch.{dispatch, dispatch_to, handle_pong}
use irc.Bonus.Formatter.{pong}
use irc.Bonus.Formatter.Parsing.{parse-pong}
use irc.Bonus.Bot.{Bot, enqueue, handle_message}

-- The server's PING line, as the parser reads it.
parse-ping :
    (token : Text)
    → parse (Replies.ping token)
      ≡ record { prefix = codes "irc.local"; command = codes "PING"; params = token ∷ [] }
unfolding Replies.ping upper_command to_upper
parse-ping token = parse-print (codes "irc.local") (codes "PING") [] token refl refl refl

-- A PING of the server is answered by one line, the PONG with its token.
handle_message-ping :
    (now token : Text) (b : Bot)
    → handle_message now (parse (Replies.ping token)) b ≡ enqueue (pong token) b
unfolding handle_message has_param get_single_param text_eq
handle_message-ping now token b = rw (parse-ping token) refl

-- A PONG of the bot on its way through the server.
pub monitor-dispatch-pong :
    (fd now q p : ℕ) (token : Text) (s : ServerState) (m : ConnectionHealthMonitor)
    → get_client_by_fd fd s ≡ some p
    → (dispatch fd (parse (pong token)) now q s (some m)).monitor
      ≡ some (mark_pong_received fd token now m)
unfolding dispatch dispatch_to handle_pong has_param get_single_param text_eq
monitor-dispatch-pong fd now q p token s m found = rw (dispatch, found, parse-pong token) refl

-- To a PING of the server the bot answers with one line, and once the server has run that line the bot
-- does not time out, however late it is.
pub has_timed_out-dispatch-pong :
    (fd sent received late q p : ℕ) (text : Text) (b : Bot) (s : ServerState)
    (m m' : ConnectionHealthMonitor)
    → get_client_by_fd fd s ≡ some p
    → (dispatch fd
        (parse (pong (make_ping_token fd sent)))
        received
        q
        s
        (some (generate_ping fd sent m).1)).monitor
      ≡ some m'
    → (handle_message text (parse (Replies.ping (make_ping_token fd sent))) b
        ≡ enqueue (pong (make_ping_token fd sent)) b)
      × (has_timed_out fd late m' ≡ false)
has_timed_out-dispatch-pong fd sent received late q p text b s m m' found ran =
    let token = make_ping_token fd sent in
    (
      handle_message-ping text token b,
      ground (
        arith,
        monitor-dispatch-pong fd received q p token s (generate_ping fd sent m).1 found,
        ran,
        has_timed_out-mark_pong_received fd fd sent received late token m,
        text_eq_refl token,
        ==_iff fd fd,
      ),
    )
