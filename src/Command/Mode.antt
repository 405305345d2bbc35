-- ===== src/Command/Mode.antt =====
-- MODE of src/b/ChannelCommandHandler.cpp: one mode change, or a question.
pub mod Limit
use irc.Common.{
  ℕ, ◌-◌, ◌^◌, ℤ, pos, negsuc, minus_one, Bool, true, false, not, ◌&&◌, ◌||◌, Option, none, some,
  [], ◌++◌, Text, codes, ltb, ◌==◌, is_empty, get_or, length, if◌then◌else◌,
}
use irc.Common.Decimal.{strtol, c_str, decimal_int}
use irc.State.Names.{is_valid_nickname, is_valid_channel_name}
use irc.State.Client.{get_full_prefix}
use irc.State.Modes.{
  ChannelModes, set_invite_only, set_topic_restricted, set_key, unset_key, set_limit, unset_limit,
}
use irc.State.Channel.{has_member, is_operator, set_operator, change_modes}
use irc.State.Server.{
  ServerState, client_at, channel_at, change_channel, get_channel, get_client_by_nick,
}
use irc.Protocol.Message.{Message, get_param_count, get_single_param, has_param}
use irc.Protocol.Result.{no_result}
use irc.Protocol.Replies.{
  need_more_params, no_registered, no_such_channel, no_such_nick, not_on_channel,
  chan_op_privs_needed, user_not_in_channel, channel_mode_is, unknown_mode, invalid_mode_param,
  space,
}
use irc.Protocol.Replies
use irc.Command.Broadcast.{Outcome, answer, add_replies_to_members, members_of}

unfoldable pub append_mode_arg : Text → Text → Text
append_mode_arg args value = (if is_empty args then [] else args ++ space) ++ value

-- getLimit() >= 0
abbrev pub is_nonneg : ℤ → Bool
is_nonneg (pos n) = true
is_nonneg (negsuc n) = false

-- buildChannelModeQuery: the letters of the modes that are set, and the values of k and l.
unfoldable pub channel_mode_query : ChannelModes → Text × Text
unfolding append_mode_arg
channel_mode_query m =
    let with_key = if m.has_key then append_mode_arg [] m.key else [] in
    (
      codes "+"
          ++ (if m.invite_only then codes "i" else [])
          ++ (if m.topic_restricted then codes "t" else [])
          ++ (if m.has_key then codes "k" else [])
          ++ (if is_nonneg m.limit then codes "l" else []),
      if is_nonneg m.limit then append_mode_arg with_key (decimal_int m.limit) else with_key,
    )

abbrev pub int_max : ℕ
int_max = 2 ^ 31 - 1

-- 1 <= parsed <= INT_MAX
abbrev pub limit_of : ℤ → Option ℤ
limit_of (pos n) = if ltb n 1 || ltb int_max n then none else some (pos n)
limit_of (negsuc n) = none

unfoldable pub parse_positive_limit : Text → Option ℤ
parse_positive_limit value =
    let parsed = strtol (c_str value) in
    if is_empty value
    then none
    else if not (is_empty parsed.end) || parsed.out_of_range
    then none
    else limit_of parsed.value

unfoldable pub is_supported_single_mode_token : Text → Bool
is_supported_single_mode_token token =
    let mode = get_or token 1 0 in
    if not (length token == 2)
    then false
    else if not (get_or token 0 0 == b'+') && not (get_or token 0 0 == b'-')
    then false
    else mode == b'i' || mode == b't' || mode == b'k' || mode == b'o' || mode == b'l'

-- A change of the modes of the channel at `q`, told to all its members.
unfoldable pub announce_mode :
    (ChannelModes → ChannelModes) → Text → Message → ℕ → ℕ → ServerState → Outcome
announce_mode f arg msg p q s =
    let s' = change_channel q (change_modes f) s in
    (
      add_replies_to_members no_result (members_of q s')
          (Replies.mode (get_full_prefix (client_at p s')) (get_single_param 0 msg)
            (get_single_param 1 msg) arg)
          minus_one s',
      s',
    )

unfoldable pub mode_key : Bool → ℕ → Message → ℕ → ℕ → ServerState → Outcome
unfolding announce_mode
mode_key adding fd msg p q s =
    let key = get_single_param 2 msg in
    if not adding
    then announce_mode unset_key [] msg p q s
    else if not (has_param 2 msg)
    then answer fd (need_more_params (client_at p s) (codes "MODE")) s
    else announce_mode (set_key key) key msg p q s

unfoldable pub mode_limit : Bool → ℕ → Message → ℕ → ℕ → ServerState → Outcome
unfolding announce_mode
mode_limit adding fd msg p q s =
    let arg = get_single_param 2 msg in
    let c = client_at p s in
    if not adding
    then announce_mode unset_limit [] msg p q s
    else if not (has_param 2 msg)
    then answer fd (need_more_params c (codes "MODE")) s
    else elim (parse_positive_limit arg) [
      | none ↦
          answer fd (invalid_mode_param c (get_single_param 0 msg) (get_single_param 1 msg) arg) s
      | some limit ↦ announce_mode (set_limit limit) arg msg p q s
    ]

-- applyOperatorMode
unfoldable pub apply_operator_mode : Bool → ℕ → Message → ℕ → ℕ → ServerState → Outcome
apply_operator_mode adding fd msg p q s =
    let c = client_at p s in
    let nick = get_single_param 2 msg in
    let name = get_single_param 0 msg in
    if not (has_param 2 msg)
    then answer fd (need_more_params c (codes "MODE")) s
    else if not (is_valid_nickname nick)
    then answer fd (no_such_nick c nick) s
    else elim (get_client_by_nick nick s) [
      | none ↦ answer fd (no_such_nick c nick) s
      | some t ↦
          let s' = change_channel q (set_operator t adding) s in
          if not (has_member t (channel_at q s))
          then answer fd (user_not_in_channel c name) s
          else (
            add_replies_to_members no_result (members_of q s')
                (Replies.mode (get_full_prefix c) name (get_single_param 1 msg) nick) minus_one s',
            s',
          )
    ]

-- The change that an operator asks for, by the letter of a supported token.
unfoldable pub apply_mode : ℕ → Message → ℕ → ℕ → ServerState → Outcome
unfolding announce_mode mode_key mode_limit apply_operator_mode
apply_mode fd msg p q s =
    let token = get_single_param 1 msg in
    let adding = get_or token 0 0 == b'+' in
    let letter = get_or token 1 0 in
    if letter == b'i'
    then announce_mode (set_invite_only adding) [] msg p q s
    else if letter == b't'
    then announce_mode (set_topic_restricted adding) [] msg p q s
    else if letter == b'k'
    then mode_key adding fd msg p q s
    else if letter == b'l'
    then mode_limit adding fd msg p q s
    else apply_operator_mode adding fd msg p q s

-- MODE of a member of the channel at `q`.
unfoldable pub mode_of_channel : ℕ → Message → ℕ → ℕ → ServerState → Outcome
unfolding apply_mode channel_mode_query is_supported_single_mode_token
mode_of_channel fd msg p q s =
    let c = client_at p s in
    let ch = channel_at q s in
    let name = get_single_param 0 msg in
    let (modes, args) = channel_mode_query ch.modes in
    if get_param_count msg == 1
    then answer fd (channel_mode_is c name modes args) s
    else if not (is_operator p ch)
    then answer fd (chan_op_privs_needed c name) s
    else if not (is_supported_single_mode_token (get_single_param 1 msg))
    then answer fd (unknown_mode c (get_single_param 1 msg)) s
    else apply_mode fd msg p q s

unfoldable pub handle_mode : ℕ → Message → ℕ → ServerState → Outcome
unfolding mode_of_channel
handle_mode fd msg p s =
    let c = client_at p s in
    let name = get_single_param 0 msg in
    if not c.registered
    then answer fd (no_registered c) s
    else if ltb (get_param_count msg) 1
    then answer fd (need_more_params c (codes "MODE")) s
    else if not (is_valid_channel_name name)
    then answer fd (no_such_channel c name) s
    else elim (get_channel name s) [
      | none ↦ answer fd (no_such_channel c name) s
      | some q ↦
          if not (has_member p (channel_at q s))
          then answer fd (not_on_channel c name) s
          else mode_of_channel fd msg p q s
    ]
