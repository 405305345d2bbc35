-- ===== src/Command/Moderation.antt =====
-- KICK, INVITE and TOPIC of src/b/ChannelCommandHandler.cpp.
use irc.Common.{ℕ, minus_one, not, ◌&&◌, none, some, Text, codes, ltb, is_empty, if◌then◌else◌}
use irc.State.Names.{is_valid_nickname, is_valid_channel_name}
use irc.State.Client.{Client, get_full_prefix}
use irc.State.Channel.{has_member, is_operator, set_topic}
use irc.State.Server.{
  ServerState, client_at, channel_at, change_channel, get_channel, get_client_by_nick,
  remove_client_from_channel, invite_client_to_channel,
}
use irc.Protocol.Message.{Message, get_param_count, get_single_param, has_param}
use irc.Protocol.Result.{no_result, add_reply}
use irc.Protocol.Replies.{
  need_more_params, no_registered, no_such_channel, no_such_nick, not_on_channel,
  chan_op_privs_needed, user_not_in_channel, user_on_channel, inviting, no_topic, topic_reply,
}
use irc.Protocol.Replies
use irc.Command.Broadcast.{Outcome, answer, add_replies_to_members, members_of}

-- The reason of a KICK is the kicker's nickname where none is given.
abbrev pub kick_reason : Message → Client → Text
kick_reason msg c = if has_param 2 msg then get_single_param 2 msg else c.nickname

-- KICK by an operator of the channel at `q`.
unfoldable pub kick_target : ℕ → Message → ℕ → ℕ → ServerState → Outcome
kick_target fd msg p q s =
    let c = client_at p s in
    let name = get_single_param 0 msg in
    let nick = get_single_param 1 msg in
    if not (is_valid_nickname nick)
    then answer fd (no_such_nick c nick) s
    else elim (get_client_by_nick nick s) [
      | none ↦ answer fd (no_such_nick c nick) s
      | some t ↦
          if not (has_member t (channel_at q s))
          then answer fd (user_not_in_channel c name) s
          else (
            add_replies_to_members no_result (members_of q s)
                (Replies.kick (get_full_prefix c) name nick (kick_reason msg c)) minus_one s,
            remove_client_from_channel (some t) name s,
          )
    ]

unfoldable pub handle_kick : ℕ → Message → ℕ → ServerState → Outcome
unfolding kick_target
handle_kick fd msg p s =
    let c = client_at p s in
    let name = get_single_param 0 msg in
    if not c.registered
    then answer fd (no_registered c) s
    else if ltb (get_param_count msg) 2
    then answer fd (need_more_params c (codes "KICK")) s
    else if not (is_valid_channel_name name)
    then answer fd (no_such_channel c name) s
    else elim (get_channel name s) [
      | none ↦ answer fd (no_such_channel c name) s
      | some q ↦
          if not (has_member p (channel_at q s))
          then answer fd (not_on_channel c name) s
          else if not (is_operator p (channel_at q s))
          then answer fd (chan_op_privs_needed c name) s
          else kick_target fd msg p q s
    ]

-- INVITE of the client at `t` to the channel at `q`.
unfoldable pub invite_target : ℕ → Message → ℕ → ℕ → ℕ → ServerState → Outcome
invite_target fd msg p t q s =
    let c = client_at p s in
    let ch = channel_at q s in
    let nick = get_single_param 0 msg in
    let name = get_single_param 1 msg in
    if not (has_member p ch)
    then answer fd (not_on_channel c name) s
    else if has_member t ch
    then answer fd (user_on_channel c nick name) s
    else if ch.modes.invite_only && not (is_operator p ch)
    then answer fd (chan_op_privs_needed c name) s
    else (
      add_reply (client_at t s).fd (Replies.invite (get_full_prefix c) nick name)
          (add_reply fd (inviting c nick name) no_result),
      invite_client_to_channel (some t) (some q) s,
    )

unfoldable pub handle_invite : ℕ → Message → ℕ → ServerState → Outcome
unfolding invite_target
handle_invite fd msg p s =
    let c = client_at p s in
    let nick = get_single_param 0 msg in
    let name = get_single_param 1 msg in
    if not c.registered
    then answer fd (no_registered c) s
    else if ltb (get_param_count msg) 2
    then answer fd (need_more_params c (codes "INVITE")) s
    else if not (is_valid_nickname nick)
    then answer fd (no_such_nick c nick) s
    else if not (is_valid_channel_name name)
    then answer fd (no_such_channel c name) s
    else elim (get_client_by_nick nick s) [
      | none ↦ answer fd (no_such_nick c nick) s
      | some t ↦ elim (get_channel name s) [
        | none ↦ answer fd (no_such_channel c name) s
        | some q ↦ invite_target fd msg p t q s
      ]
    ]

-- TOPIC of a member of the channel at `q`: a question without a second parameter, else a change.
unfoldable pub topic_of_channel : ℕ → Message → ℕ → ℕ → ServerState → Outcome
topic_of_channel fd msg p q s =
    let c = client_at p s in
    let ch = channel_at q s in
    let name = get_single_param 0 msg in
    let topic = get_single_param 1 msg in
    let changed = change_channel q (set_topic topic) s in
    if not (has_param 1 msg)
    then answer fd (if is_empty ch.topic then no_topic c name else topic_reply c name ch.topic) s
    else if ch.modes.topic_restricted && not (is_operator p ch)
    then answer fd (chan_op_privs_needed c name) s
    else (
      add_replies_to_members no_result (members_of q changed)
          (Replies.topic (get_full_prefix c) (codes "TOPIC") name topic) minus_one changed,
      changed,
    )

unfoldable pub handle_topic : ℕ → Message → ℕ → ServerState → Outcome
unfolding topic_of_channel
handle_topic fd msg p s =
    let c = client_at p s in
    let name = get_single_param 0 msg in
    if not c.registered
    then answer fd (no_registered c) s
    else if not (has_param 0 msg)
    then answer fd (need_more_params c (codes "TOPIC")) s
    else if not (is_valid_channel_name name)
    then answer fd (no_such_channel c name) s
    else elim (get_channel name s) [
      | none ↦ answer fd (no_such_channel c name) s
      | some q ↦
          if not (has_member p (channel_at q s))
          then answer fd (not_on_channel c name) s
          else topic_of_channel fd msg p q s
    ]
