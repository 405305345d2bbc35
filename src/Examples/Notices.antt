-- ===== src/Examples/Notices.antt =====
-- Two clients share a channel, and one goes.
use irc.Common.{true, ◌≡◌, refl, some, none, codes, Text, [], ◌∷◌}
use irc.Protocol.Parser.{parse}
use irc.State.Channel.{get_members, has_member}
use irc.State.Server.{ServerState, get_client_by_fd, get_channel, channel_at}
use irc.Command.Dispatch.{dispatch}
use irc.Command.Disconnect.{DisconnectEvent, build}
use irc.Command.Disconnect.Once.{times_told, times_told-build}
use irc.Command.Texting.{text_to_channel}
use irc.Command.Texting.Delivery.{messages_to, copies, messages_to-text_to_channel}
use irc.Examples.Sessions.{joined_state, evaluated}

abbrev pub second_line : Text → ServerState → ServerState
second_line line s = (dispatch 5 (parse line) 0 901 s none).state

abbrev pub shared_state : ServerState
shared_state = second_line (codes "JOIN #42") (
    second_line (codes "USER bob 0 * :Bob")
      (second_line (codes "NICK bob") (second_line (codes "PASS secret") joined_state)))

abbrev going : DisconnectEvent
going = record { fd = 4; reason = codes "bye" }

going_found : get_client_by_fd 4 shared_state ≡ some 100
unfolding evaluated
going_found = refl

times_told-build_example : times_told 5 (build going shared_state).replies ≡ 1
unfolding evaluated get_members
times_told-build_example = times_told-build going shared_state 100 5 going_found

bob_channel : get_channel (codes "#42") shared_state ≡ some 900
unfolding evaluated get_channel
bob_channel = refl

bob_member : has_member 200 (channel_at 900 shared_state) ≡ true
unfolding evaluated
bob_member = refl

messages_to-text_to_channel_example :
    messages_to 4 (text_to_channel 5 (codes "#42") (codes "hello") true 200 shared_state).0.replies
    ≡ codes "hello" ∷ []
unfolding evaluated get_members copies
messages_to-text_to_channel_example =
    messages_to-text_to_channel 4 5 (codes "#42") (codes "hello") true 200 900 shared_state
      bob_channel bob_member
