-- ===== src/Command/Membership.antt =====
-- JOIN and PART of src/b/CommandDispatcher.cpp.
use irc.Common.{
  ℕ, ℤ, pos, negsuc, minus_one, Bool, false, not, ◌&&◌, ◌||◌, Option, none, some, Text, codes, leb,
  text_eq, is_empty, if◌then◌else◌,
}
use irc.State.Names.{is_valid_channel_name}
use irc.State.Client.{get_full_prefix}
use irc.State.Channel.{has_member, is_invited, member_count}
use irc.State.Server.{
  ServerState, client_at, channel_at, get_channel, add_client_to_channel,
  remove_client_from_channel,
}
use irc.Protocol.Message.{Message, get_single_param, has_param}
use irc.Protocol.Result.{no_result, add_reply}
use irc.Protocol.Replies.{
  need_more_params, no_registered, no_such_channel, invite_only_chan, bad_channel_key,
  channel_is_full, not_on_channel, no_topic, topic_reply, name_reply, end_of_names,
}
use irc.Protocol.Replies
use irc.Command.Broadcast.{Outcome, answer, add_replies_to_members, members_of}

-- getLimit() >= 0 && memberCount() >= getLimit()
abbrev pub limit_reached : ℤ → ℕ → Bool
limit_reached (pos limit) count = leb limit count
limit_reached (negsuc n) count = false

-- What keeps the client at `p` out of a channel that exists: the reply, or `none` if it may enter.
unfoldable pub join_refusal : Message → ℕ → ℕ → Text → ServerState → Option Text
join_refusal msg p q name s =
    let ch = channel_at q s in
    let c = client_at p s in
    if has_member p ch
    then none
    else if ch.modes.invite_only && not (is_invited p ch)
    then some (invite_only_chan c name)
    else if ch.modes.has_key
        && (not (has_param 1 msg) || not (text_eq (get_single_param 1 msg) ch.modes.key))
    then some (bad_channel_key c name)
    else if limit_reached ch.modes.limit (member_count ch)
    then some (channel_is_full c name)
    else none

unfoldable pub refuse_join : Message → ℕ → Text → ServerState → Option Text
unfolding join_refusal
refuse_join msg p name s = elim (get_channel name s) [
  | none ↦ none
  | some q ↦ join_refusal msg p q name s
]

-- The replies to a client that has entered, and to those that were there.
unfoldable pub welcome_to_channel : ℕ → ℕ → Text → Option ℕ × ServerState → Outcome
welcome_to_channel fd p name (none, s) = answer fd (no_such_channel (client_at p s) name) s
welcome_to_channel fd p name (some q, s) =
    let c = client_at p s in
    let ch = channel_at q s in
    let text = Replies.join (get_full_prefix c) (codes "JOIN") name in
    let announced = add_replies_to_members no_result (members_of q s) text minus_one s in
    let topic = if is_empty ch.topic then no_topic c name else topic_reply c name ch.topic in
    (
      add_reply fd (end_of_names c name)
          (add_reply fd (name_reply c s.client.objects.at ch) (add_reply fd topic announced)),
      s,
    )

-- `q` is the address that `new Channel` returns, if the channel is made.
unfoldable pub handle_join : ℕ → Message → ℕ → ℕ → ServerState → Outcome
unfolding refuse_join welcome_to_channel
handle_join fd msg q p s =
    let c = client_at p s in
    if not c.registered
    then answer fd (no_registered c) s
    else if not (has_param 0 msg)
    then answer fd (need_more_params c (codes "JOIN")) s
    else let name = get_single_param 0 msg in
      if not (is_valid_channel_name name)
      then answer fd (no_such_channel c name) s
      else elim (refuse_join msg p name s) [
        | some refusal ↦ answer fd refusal s
        | none ↦ welcome_to_channel fd p name (add_client_to_channel (some p) name q s)
      ]

unfoldable pub handle_part : ℕ → Message → ℕ → ServerState → Outcome
handle_part fd msg p s =
    let c = client_at p s in
    if not c.registered
    then answer fd (no_registered c) s
    else if not (has_param 0 msg)
    then answer fd (need_more_params c (codes "PART")) s
    else let name = get_single_param 0 msg in
      if not (is_valid_channel_name name)
      then answer fd (no_such_channel c name) s
      else elim (get_channel name s) [
        | none ↦ answer fd (no_such_channel c name) s
        | some q ↦
            if not (has_member p (channel_at q s)) then answer fd (not_on_channel c name) s else (
              add_replies_to_members no_result (members_of q s)
                  (Replies.part (get_full_prefix c) (codes "PART") name) minus_one s,
              remove_client_from_channel (some p) name s,
            )
      ]
