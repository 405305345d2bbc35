-- ===== src/Command/Broadcast.antt =====
-- addRepliesToMembers, which CommandDispatcher and ChannelCommandHandler both have, and the reply
-- that ends a command early. A handler takes the descriptor, the message and the pointer to the
-- client, and returns its result beside the new state.
use irc.Common.{ℕ, ℤ, pos, int_eq, not, List, [], ◌∷◌, Text, if◌then◌else◌}
use irc.State.Channel.{get_members}
use irc.State.Server.{ServerState, client_at}
use irc.Protocol.Result.{CommandResult, no_result, add_reply}

abbrev pub Outcome : Type 0
Outcome = CommandResult × ServerState

-- Answer `fd` and leave the state as it is.
abbrev pub answer : ℕ → Text → ServerState → Outcome
answer fd text s = (add_reply fd text no_result, s)

-- The members are pointers to live clients, so `member &&` holds of each.
unfoldable pub add_replies_to_members :
    CommandResult → List ℕ → Text → ℤ → ServerState → CommandResult
add_replies_to_members result [] message except_fd s = result
add_replies_to_members result (p ∷ rest) message except_fd s =
    add_replies_to_members
      (if not (int_eq (pos (client_at p s).fd) except_fd)
        then add_reply (client_at p s).fd message result
        else result)
      rest message except_fd s

-- The members of the channel at `q`.
abbrev pub members_of : ℕ → ServerState → List ℕ
members_of q s = get_members (s.channel_objects.at q)
