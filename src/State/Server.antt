-- ===== src/State/Server.antt =====
-- src/c/ServerState.cpp: the channels by name, and the registry of clients. The state owns the
-- channel objects, and keeps memberships on both sides in step.
pub mod Links
pub mod Clients
pub mod Channels
pub mod Joining
pub mod Leaving
pub mod Removal
pub mod Known
pub mod Frame
pub mod Departure
use irc.Common.{
  ℕ, Bool, true, false, not, List, [], ◌∷◌, map, Text, Option, none, some, ◌==◌, if◌then◌else◌,
}
use irc.Common.Heap.{Heap, alloc, free, store}
use irc.Common.Map.{find, insert, erase}
use irc.State.Names.Order.{name_order}
use irc.State.Client.{Client, join_channel, leave_channel}
use irc.State.Channel.{
  Channel, new_channel, has_member, add_member, remove_client_state, remove_invite, member_count,
  set_operator, add_invite, has_no_members,
}
use irc.State.Registry.{ClientRegistry, update_client}
use irc.State.Registry

pub record ServerState : Type 0 where
  pub password : Text
  pub channels : List (Text × ℕ)
  pub client : ClientRegistry
  pub channel_objects : Heap Channel

-- ServerState::ServerState(password), over free stores that hold no object yet.
unfoldable pub server_state : Text → (ℕ → Client) → (ℕ → Channel) → ServerState
server_state password clients channels = record {
  password = password;
  channels = [];
  client = record {
    nickname_to_client = [];
    fd_to_client = [];
    objects = record { at = clients; live = λ _. false };
  };
  channel_objects = record { at = channels; live = λ _. false };
}

-- The objects behind a Client* and a Channel*.
abbrev pub client_at : ℕ → ServerState → Client
client_at p s = Registry.client_at p s.client

abbrev pub channel_at : ℕ → ServerState → Channel
channel_at q s = s.channel_objects.at q

-- A change of one object, through a pointer.
abbrev pub change_client : ℕ → (Client → Client) → ServerState → ServerState
change_client p f s = record s { client = update_client p f s.client }

abbrev pub change_channel : ℕ → (Channel → Channel) → ServerState → ServerState
change_channel q f s = record s {
  channel_objects = store q (f (s.channel_objects.at q)) s.channel_objects;
}

unfoldable pub add_client : ℕ → Text → ℕ → ServerState → ServerState
add_client fd host p s = record s { client = Registry.add_client fd host p s.client }

unfoldable pub get_client_by_fd : ℕ → ServerState → Option ℕ
get_client_by_fd fd s = Registry.get_client_by_fd fd s.client

unfoldable pub get_client_by_nick : Text → ServerState → Option ℕ
get_client_by_nick nick s = Registry.get_client_by_nick nick s.client

unfoldable pub nick_exists : Text → ServerState → Bool
nick_exists nick s = Registry.nick_exists nick s.client

unfoldable pub update_nick : ℕ → Text → ServerState → Bool × ServerState
update_nick p new_nick s =
    let (done, r) = Registry.update_nick p new_nick s.client in (done, record s { client = r })

unfoldable pub get_channel : Text → ServerState → Option ℕ
get_channel name s = find name_order name s.channels

-- The branch of getOrCreateChannel that makes the channel, at the address that `new` returns.
unfoldable pub make_channel : Text → ℕ → ServerState → ServerState
make_channel name q s = record s {
  channels = insert name_order name q s.channels;
  channel_objects = alloc q (new_channel name) s.channel_objects;
}

unfoldable pub get_or_create_channel : Text → ℕ → ServerState → ℕ × ServerState
unfolding get_channel
get_or_create_channel name q s = elim (get_channel name s) [
  | some found ↦ (found, s)
  | none ↦ (q, make_channel name q s)
]

-- A membership, on both sides.
abbrev pub attach : ℕ → ℕ → ServerState → ServerState
attach p q s = change_client p (join_channel q) (change_channel q (add_member p) s)

-- The end of addClientToChannel: the channel has been found or made.
unfoldable pub enter_channel : ℕ → ℕ → ServerState → ServerState
enter_channel p q s =
    if has_member p (channel_at q s)
    then s
    else if member_count (channel_at q (attach p q s)) == 1
    then change_channel q (set_operator p true) (attach p q s)
    else attach p q s

unfoldable pub add_client_to_channel : Option ℕ → Text → ℕ → ServerState → Option ℕ × ServerState
add_client_to_channel none name q s = (none, s)
add_client_to_channel (some p) name q s =
    let (channel, made) = get_or_create_channel name q s in
    (some channel, enter_channel p channel made)

-- The branch of removeChannelIfEmpty that deletes the channel.
unfoldable pub drop_channel : Text → ℕ → ServerState → ServerState
drop_channel name q s = record s {
  channels = erase name_order name s.channels;
  channel_objects = free q s.channel_objects;
}

unfoldable pub remove_channel_if_empty : Text → ServerState → ServerState
remove_channel_if_empty name s = elim (find name_order name s.channels) [
  | none ↦ s
  | some q ↦ if has_no_members (channel_at q s) then drop_channel name q s else s
]

-- The end of a membership, on both sides.
abbrev pub unlink : ℕ → ℕ → ServerState → ServerState
unlink p q s = change_client p (leave_channel q) (change_channel q (remove_client_state p) s)

-- One client out of one channel; then the channel, if nobody is left in it.
unfoldable pub detach : ℕ → ℕ → Text → ServerState → ServerState
detach p q name s = remove_channel_if_empty name (unlink p q s)

unfoldable pub remove_client_from_channel : Option ℕ → Text → ServerState → ServerState
remove_client_from_channel none name s = s
remove_client_from_channel (some p) name s = elim (get_channel name s) [
  | none ↦ s
  | some q ↦ if not (has_member p (channel_at q s)) then s else detach p q name s
]

unfoldable pub invite_client_to_channel : Option ℕ → Option ℕ → ServerState → ServerState
invite_client_to_channel (some p) (some q) s = change_channel q (add_invite p) s
invite_client_to_channel _ _ s = s

unfoldable pub remove_invite_from_channel : Option ℕ → Option ℕ → ServerState → ServerState
remove_invite_from_channel (some p) (some q) s = change_channel q (remove_invite p) s
remove_invite_from_channel _ _ s = s

-- The loop over `_channels`.
unfoldable pub remove_invites : ℕ → List (Text × ℕ) → ServerState → ServerState
remove_invites p [] s = s
remove_invites p ((name, q) ∷ rest) s = remove_invites p rest (change_channel q (remove_invite p) s)

unfoldable pub remove_client_from_all_invites : Option ℕ → ServerState → ServerState
remove_client_from_all_invites none s = s
remove_client_from_all_invites (some p) s = remove_invites p s.channels s

-- The loop of removeClient over the channels that the client had joined.
unfoldable pub leave_channels : ℕ → List ℕ → ServerState → ServerState
leave_channels p [] s = s
leave_channels p (q ∷ rest) s = leave_channels p rest (detach p q (channel_at q s).name s)

-- The branch of removeClient that has found the client at `p`.
unfoldable pub remove_found : ℕ → ℕ → ServerState → ServerState
remove_found fd p s =
    let joined = map (λ e. e.0) (client_at p s).channels in
    let left = remove_client_from_all_invites (some p) (leave_channels p joined s) in
    record left { client = Registry.remove_client fd left.client }

unfoldable pub remove_client : ℕ → ServerState → ServerState
unfolding remove_found
remove_client fd s = elim (get_client_by_fd fd s) [ none ↦ s | some p ↦ remove_found fd p s ]
