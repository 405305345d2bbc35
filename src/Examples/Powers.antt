-- ===== src/Examples/Powers.antt =====
-- What clients without rights try.
use irc.Common.{pos, true, false, ◌≡◌, refl, some, none, codes}
use irc.Protocol.Parser.{parse}
use irc.Protocol.Message.{get_single_param}
use irc.State.Channel.{is_operator, change_modes}
use irc.State.Modes.{set_topic_restricted}
use irc.State.Server.{ServerState, client_at, channel_at, get_channel, get_client_by_fd}
use irc.Command.Moderation.{handle_kick, handle_topic}
use irc.Common.Decimal.{strtol, c_str}
use irc.Command.Mode.{handle_mode, parse_positive_limit}
use irc.Command.Dispatch.Powerless.{state-kick_mode, state-handle_topic}
use irc.Examples.Notices.{shared_state}
use irc.Command.Dispatch.{dispatch}
use irc.Command.Dispatch.Unregistered.{channels_of, channels-dispatch}
use irc.Examples.Sessions.{nicked_state, evaluated}

nicked_found : get_client_by_fd 4 nicked_state ≡ some 100
unfolding evaluated
nicked_found = refl

nicked_unregistered : (client_at 100 nicked_state).registered ≡ false
unfolding evaluated
nicked_unregistered = refl

channels-dispatch_example :
    channels_of (dispatch 4 (parse (codes "JOIN #42")) 0 900 nicked_state none).state
    ≡ channels_of nicked_state
channels-dispatch_example =
    channels-dispatch 4 (parse (codes "JOIN #42")) 0 900 100 nicked_state none nicked_found
      nicked_unregistered

-- The second member of the channel is not its operator.
powers_channel :
    get_channel (get_single_param 0 (parse (codes "MODE #42 +i"))) shared_state ≡ some 900
unfolding evaluated get_channel
powers_channel = refl

powers_member : is_operator 200 (channel_at 900 shared_state) ≡ false
unfolding evaluated is_operator
powers_member = refl

state-kick_mode_example :
    ((handle_kick 5 (parse (codes "MODE #42 +i")) 200 shared_state).1 ≡ shared_state)
    × ((handle_mode 5 (parse (codes "MODE #42 +i")) 200 shared_state).1 ≡ shared_state)
state-kick_mode_example =
    state-kick_mode 5 (parse (codes "MODE #42 +i")) 200 900 shared_state powers_channel
      powers_member

-- The same channel with its topic restricted.
abbrev restricted_state : ServerState
restricted_state = (dispatch 4 (parse (codes "MODE #42 +t")) 0 901 shared_state none).state

restricted_channel :
    get_channel (get_single_param 0 (parse (codes "TOPIC #42 :mine"))) restricted_state ≡ some 900
unfolding evaluated get_channel handle_mode is_operator change_modes set_topic_restricted
restricted_channel = refl

restricted_topic : (channel_at 900 restricted_state).modes.topic_restricted ≡ true
unfolding evaluated get_channel handle_mode is_operator change_modes set_topic_restricted
restricted_topic = refl

restricted_member : is_operator 200 (channel_at 900 restricted_state) ≡ false
unfolding evaluated get_channel handle_mode is_operator change_modes set_topic_restricted
restricted_member = refl

state-handle_topic_example :
    (handle_topic 5 (parse (codes "TOPIC #42 :mine")) 200 restricted_state).1 ≡ restricted_state
state-handle_topic_example =
    state-handle_topic 5 (parse (codes "TOPIC #42 :mine")) 200 900 restricted_state
      restricted_channel restricted_topic restricted_member

parsed_limit : parse_positive_limit (codes "42") ≡ some (pos 42)
unfolding parse_positive_limit strtol c_str
parsed_limit = refl
