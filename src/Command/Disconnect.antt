-- ===== src/Command/Disconnect.antt =====
-- src/b/DisconnectNotifier.cpp: the QUIT notices for those who share a channel with a client that
-- goes, each of them once.
pub mod Once
use irc.Common.{ℕ, ◌||◌, ◌==◌, List, [], ◌∷◌, map, none, some, Text, if◌then◌else◌}
use irc.Common.Map.{has, insert}
use irc.Common.Map.Keys.{nat_order}
use irc.State.Client.{get_full_prefix}
use irc.State.Server.{ServerState, client_at, get_client_by_fd}
use irc.Protocol.Result.{CommandResult, no_result, add_reply}
use irc.Protocol.Replies.{quit}
use irc.Command.Broadcast.{members_of}

pub record DisconnectEvent : Type 0 where
  pub fd : ℕ
  pub reason : Text

-- The descriptors told so far, and the result so far.
abbrev pub Notified : Type 0
Notified = List (ℕ × Unit {0}) × CommandResult

unfoldable pub notify_member : ℕ → Text → ℕ → Notified → Notified
notify_member event_fd text fd (notified, result) =
    if fd == event_fd || has nat_order fd notified
    then (notified, result)
    else (insert nat_order fd tt notified, add_reply fd text result)

-- The loop over the members of one channel.
unfoldable pub notify_members : ℕ → Text → List ℕ → ServerState → Notified → Notified
notify_members event_fd text [] s told = told
notify_members event_fd text (p ∷ rest) s told =
    notify_members event_fd text rest s (notify_member event_fd text (client_at p s).fd told)

-- The loop over the channels of the client.
unfoldable pub notify_channels : ℕ → Text → List ℕ → ServerState → Notified → Notified
notify_channels event_fd text [] s told = told
notify_channels event_fd text (q ∷ rest) s told =
    notify_channels event_fd text rest s (notify_members event_fd text (members_of q s) s told)

unfoldable pub build : DisconnectEvent → ServerState → CommandResult
build event s = elim (get_client_by_fd event.fd s) [
  | none ↦ no_result
  | some p ↦
      let text = quit (get_full_prefix (client_at p s)) event.reason in
      let joined = map (λ e. e.0) (client_at p s).channels in
      (notify_channels event.fd text joined s ([], no_result)).1
]
