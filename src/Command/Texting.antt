-- ===== src/Command/Texting.antt =====
-- PRIVMSG and NOTICE of src/b/CommandDispatcher.cpp.
pub mod Delivery
use irc.Common.{
  ℕ, pos, Bool, true, false, not, ◌&&◌, none, some, Text, codes, ltb, text_eq, ◌==◌, if◌then◌else◌,
  is_empty, get_or,
}
use irc.State.Names.{is_valid_nickname, is_valid_channel_name}
use irc.State.Client.{get_full_prefix}
use irc.State.Channel.{has_member}
use irc.State.Server.{ServerState, client_at, channel_at, get_channel, get_client_by_nick}
use irc.Protocol.Message.{Message, get_param_count, get_single_param}
use irc.Protocol.Result.{no_result, add_reply}
use irc.Protocol.Replies.{
  need_more_params, no_registered, no_such_channel, no_such_nick, cannot_send_to_chan, notice,
  privmsg,
}
use irc.Command.Broadcast.{Outcome, answer, add_replies_to_members, members_of}

-- A NOTICE is never answered.
unfoldable pub answer_if : Bool → ℕ → Text → ServerState → Outcome
answer_if reply_on_error fd text s = if reply_on_error then answer fd text s else (no_result, s)

-- The name's first byte says whether a channel is meant.
abbrev pub names_channel : Text → Bool
names_channel target = not (is_empty target) && get_or target 0 0 == b'#'

unfoldable pub target_is_valid : Text → Bool
target_is_valid target =
    if names_channel target then is_valid_channel_name target else is_valid_nickname target

unfoldable pub bad_target : ℕ → Text → Bool → ℕ → ServerState → Outcome
unfolding answer_if
bad_target fd target reply_on_error p s =
    if names_channel target
    then answer_if reply_on_error fd (no_such_channel (client_at p s) target) s
    else answer_if reply_on_error fd (no_such_nick (client_at p s) target) s

unfoldable pub message_text : Text → Text → Text → Text → Text
message_text command prefix target text =
    if text_eq command (codes "NOTICE")
    then notice prefix command target text
    else privmsg prefix command target text

unfoldable pub text_to_channel : ℕ → Text → Text → Bool → ℕ → ServerState → Outcome
unfolding answer_if
text_to_channel fd target message reply_on_error p s = elim (get_channel target s) [
  | none ↦ answer_if reply_on_error fd (no_such_channel (client_at p s) target) s
  | some q ↦
      if not (has_member p (channel_at q s))
      then answer_if reply_on_error fd (cannot_send_to_chan (client_at p s) target) s
      else (add_replies_to_members no_result (members_of q s) message (pos fd) s, s)
]

unfoldable pub text_to_client : ℕ → Text → Text → Bool → ℕ → ServerState → Outcome
unfolding answer_if
text_to_client fd target message reply_on_error p s = elim (get_client_by_nick target s) [
  | none ↦ answer_if reply_on_error fd (no_such_nick (client_at p s) target) s
  | some t ↦ (add_reply (client_at t s).fd message no_result, s)
]

unfoldable pub handle_text_message : ℕ → Message → Text → Bool → ℕ → ServerState → Outcome
handle_text_message fd msg command reply_on_error p s =
    let c = client_at p s in
    let target = get_single_param 0 msg in
    let message = message_text command (get_full_prefix c) target (get_single_param 1 msg) in
    if not c.registered
    then answer_if reply_on_error fd (no_registered c) s
    else if ltb (get_param_count msg) 2
    then answer_if reply_on_error fd (need_more_params c command) s
    else if not (target_is_valid target)
    then bad_target fd target reply_on_error p s
    else if get_or target 0 0 == b'#'
    then text_to_channel fd target message reply_on_error p s
    else text_to_client fd target message reply_on_error p s

unfoldable pub handle_privmsg : ℕ → Message → ℕ → ServerState → Outcome
handle_privmsg fd msg p s = handle_text_message fd msg (codes "PRIVMSG") true p s

unfoldable pub handle_notice : ℕ → Message → ℕ → ServerState → Outcome
handle_notice fd msg p s = handle_text_message fd msg (codes "NOTICE") false p s
