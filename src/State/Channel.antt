-- ===== src/State/Channel.antt =====
-- src/c/Channel.cpp: a channel. Members and invitations are keyed by pointers to clients, in the
-- order of their addresses.
pub mod Laws
use irc.Common.{ℕ, Bool, false, List, [], map, Text, none, some, length, is_empty}
use irc.Common.Map.{has, find, put, insert, erase}
use irc.Common.Map.Keys.{nat_order}
use irc.State.Modes.{ChannelModes, channel_modes}

pub record MemberInfo : Type 0 where
  pub is_operator : Bool

pub record Channel : Type 0 where
  pub name : Text
  pub topic : Text
  pub members : List (ℕ × MemberInfo)
  pub invited_clients : List (ℕ × Unit {0})
  pub modes : ChannelModes

-- Channel::Channel(name)
unfoldable pub new_channel : Text → Channel
new_channel name = record {
  name = name;
  topic = [];
  members = [];
  invited_clients = [];
  modes = channel_modes;
}

unfoldable pub set_topic : Text → Channel → Channel
set_topic t ch = record ch { topic = t }

-- The modes are changed through the reference that getModes() returns.
unfoldable pub change_modes : (ChannelModes → ChannelModes) → Channel → Channel
change_modes f ch = record ch { modes = f ch.modes }

unfoldable pub has_member : ℕ → Channel → Bool
has_member p ch = has nat_order p ch.members

unfoldable pub remove_invite : ℕ → Channel → Channel
remove_invite p ch = record ch { invited_clients = erase nat_order p ch.invited_clients }

-- _unsafe_addMember
unfoldable pub add_member : ℕ → Channel → Channel
unfolding remove_invite
add_member p ch =
    remove_invite p
      (record ch { members = put nat_order p (record { is_operator = false }) ch.members })

-- _unsafe_removeMember
unfoldable pub remove_member : ℕ → Channel → Channel
remove_member p ch = record ch { members = erase nat_order p ch.members }

-- _unsafe_removeClientState
unfoldable pub remove_client_state : ℕ → Channel → Channel
unfolding remove_member remove_invite
remove_client_state p ch = remove_invite p (remove_member p ch)

unfoldable pub get_members : Channel → List ℕ
get_members ch = map (λ e. e.0) ch.members

unfoldable pub member_count : Channel → ℕ
member_count ch = length ch.members

unfoldable pub is_operator : ℕ → Channel → Bool
is_operator p ch = elim (find nat_order p ch.members) [ none ↦ false | some i ↦ i.is_operator ]

unfoldable pub set_operator : ℕ → Bool → Channel → Channel
set_operator p b ch = elim (find nat_order p ch.members) [
  | none ↦ ch
  | some i ↦ record ch { members = put nat_order p (record i { is_operator = b }) ch.members }
]

unfoldable pub add_invite : ℕ → Channel → Channel
add_invite p ch = record ch { invited_clients = insert nat_order p tt ch.invited_clients }

unfoldable pub is_invited : ℕ → Channel → Bool
is_invited p ch = has nat_order p ch.invited_clients

-- isEmpty()
unfoldable pub has_no_members : Channel → Bool
has_no_members ch = is_empty ch.members
