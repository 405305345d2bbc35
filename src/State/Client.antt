-- ===== src/State/Client.antt =====
-- src/c/Client.cpp: a connected user. `channels` is the set of pointers to the channels joined.
pub mod Laws
use irc.Common.{ℕ, Bool, true, false, not, ◌&&◌, List, [], ◌++◌, Text, codes, is_empty}
use irc.Common.Map.{insert, erase}
use irc.Common.Map.Keys.{nat_order}

pub record Client : Type 0 where
  pub nickname : Text
  pub username : Text
  pub realname : Text
  pub host : Text
  pub fd : ℕ
  pub pass_ok : Bool
  pub registered : Bool
  pub channels : List (ℕ × Unit {0})

-- Client::Client(fd, host)
unfoldable pub new_client : ℕ → Text → Client
new_client fd host = record {
  nickname = [];
  username = [];
  realname = [];
  host = host;
  fd = fd;
  pass_ok = false;
  registered = false;
  channels = [];
}

unfoldable pub get_full_prefix : Client → Text
get_full_prefix c = c.nickname ++ codes "!" ++ c.username ++ codes "@" ++ c.host

unfoldable pub set_username : Text → Client → Client
set_username u c = record c { username = u }

unfoldable pub set_realname : Text → Client → Client
set_realname r c = record c { realname = r }

unfoldable pub set_host : Text → Client → Client
set_host h c = record c { host = h }

-- _unsafe_setNick
unfoldable pub set_nick : Text → Client → Client
set_nick n c = record c { nickname = n }

-- _unsafe_joinChannel
unfoldable pub join_channel : ℕ → Client → Client
join_channel q c = record c { channels = insert nat_order q tt c.channels }

-- _unsafe_leaveChannel
unfoldable pub leave_channel : ℕ → Client → Client
leave_channel q c = record c { channels = erase nat_order q c.channels }

unfoldable pub set_pass_ok : Bool → Client → Client
set_pass_ok b c = record c { pass_ok = b }

unfoldable pub can_register : Client → Bool
can_register c =
    c.pass_ok && not (is_empty c.nickname) && not (is_empty c.username) && not (is_empty c.realname)

unfoldable pub mark_registered : Client → Client
mark_registered c = record c { registered = true }
