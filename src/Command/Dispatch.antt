-- ===== src/Command/Dispatch.antt =====
-- dispatch of src/b/CommandDispatcher.cpp. `now` is the time, and `q` the address that
-- `new Channel` returns, if the command makes a channel.
pub mod Unregistered
pub mod Powerless
use irc.Common.{ℕ, ◌-◌, true, not, Option, none, some, codes, text_eq, is_empty, if◌then◌else◌}
use irc.Health.{ConnectionHealthMonitor, mark_pong_received}
use irc.State.Server.{ServerState, client_at, get_client_by_fd}
use irc.Protocol.Message.{Message, get_param_count, get_single_param, has_param}
use irc.Protocol.Result.{CommandResult, no_result, add_reply}
use irc.Protocol.Replies.{need_more_params, password_mismatch, pong, unknown_command}
use irc.Command.Broadcast.{Outcome, answer}
use irc.Command.Registration.{handle_pass, handle_nick, handle_user}
use irc.Command.Membership.{handle_join, handle_part}
use irc.Command.Texting.{handle_privmsg, handle_notice}
use irc.Command.Moderation.{handle_kick, handle_invite, handle_topic}
use irc.Command.Mode.{handle_mode}

unfoldable pub handle_quit : ServerState → Outcome
handle_quit s = (record no_result { should_disconnect = true }, s)

unfoldable pub handle_ping : ℕ → Message → ℕ → ServerState → Outcome
handle_ping fd msg p s =
    if not (has_param 0 msg)
    then answer fd (need_more_params (client_at p s) msg.command) s
    else answer fd (pong (get_single_param 0 msg)) s

-- NICK and USER are closed until PASS has been accepted.
unfoldable pub guarded : ℕ → ℕ → ServerState → Outcome → Outcome
guarded fd p s handled =
    if not (client_at p s).pass_ok then answer fd password_mismatch s else handled

unfoldable pub handle_pong :
    ℕ
    → Message
    → ℕ
    → ℕ
    → ServerState
    → Option ConnectionHealthMonitor
    → CommandResult × Option ConnectionHealthMonitor
handle_pong fd msg now p s monitor =
    if not (has_param 0 msg)
    then (add_reply fd (need_more_params (client_at p s) (codes "PONG")) no_result, monitor)
    else elim monitor [
      | none ↦ (no_result, none)
      | some m ↦ (
        no_result,
        some (mark_pong_received fd (get_single_param (get_param_count msg - 1) msg) now m),
      )
    ]

unfoldable pub handle_unknown : ℕ → Message → ℕ → ServerState → Outcome
handle_unknown fd msg p s =
    if not (is_empty msg.command)
    then answer fd (unknown_command (client_at p s) msg.command) s
    else (no_result, s)

-- Every command but PONG.
unfoldable pub run_command : ℕ → Message → ℕ → ℕ → ServerState → Outcome
unfolding handle_quit
run_command fd msg q p s =
    if text_eq msg.command (codes "PING")
    then handle_ping fd msg p s
    else if text_eq msg.command (codes "QUIT")
    then handle_quit s
    else if text_eq msg.command (codes "PASS")
    then handle_pass fd msg p s
    else if text_eq msg.command (codes "NICK")
    then guarded fd p s (handle_nick fd msg p s)
    else if text_eq msg.command (codes "USER")
    then guarded fd p s (handle_user fd msg p s)
    else if text_eq msg.command (codes "JOIN")
    then handle_join fd msg q p s
    else if text_eq msg.command (codes "PART")
    then handle_part fd msg p s
    else if text_eq msg.command (codes "PRIVMSG")
    then handle_privmsg fd msg p s
    else if text_eq msg.command (codes "NOTICE")
    then handle_notice fd msg p s
    else if text_eq msg.command (codes "KICK")
    then handle_kick fd msg p s
    else if text_eq msg.command (codes "INVITE")
    then handle_invite fd msg p s
    else if text_eq msg.command (codes "TOPIC")
    then handle_topic fd msg p s
    else if text_eq msg.command (codes "MODE")
    then handle_mode fd msg p s
    else handle_unknown fd msg p s

pub record Dispatched : Type 0 where
  pub result : CommandResult
  pub state : ServerState
  pub monitor : Option ConnectionHealthMonitor

unfoldable pub dispatch_to :
    ℕ → Message → ℕ → ℕ → ℕ → ServerState → Option ConnectionHealthMonitor → Dispatched
dispatch_to fd msg now q p s monitor =
    if text_eq msg.command (codes "PONG")
    then (let (result, monitor') = handle_pong fd msg now p s monitor in
        record { result = result; state = s; monitor = monitor' })
    else let (result, s') = run_command fd msg q p s in
      record { result = result; state = s'; monitor = monitor }

unfoldable pub dispatch :
    ℕ → Message → ℕ → ℕ → ServerState → Option ConnectionHealthMonitor → Dispatched
dispatch fd msg now q s monitor = elim (get_client_by_fd fd s) [
  | none ↦ record { result = no_result; state = s; monitor = monitor }
  | some p ↦ dispatch_to fd msg now q p s monitor
]
