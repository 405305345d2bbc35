-- ===== src/State/Server/Links.antt =====
-- The invariant of the server state: no pointer dangles, and memberships agree on both sides.
use irc.Common.{ℕ, Bool, true, false, ◌≡◌, Text, some}
use irc.Common.Map.{find, same}
use irc.State.Names.Order.{name_order}
use irc.State.Client.Laws.{has_joined}
use irc.State.Channel.{has_member, is_invited, has_no_members}
use irc.State.Registry.Ownership.{IsOwned}
use irc.State.Server.{ServerState, client_at, channel_at}

abbrev pub client_live : ℕ → ServerState → Bool
client_live p s = s.client.objects.live p

abbrev pub channel_live : ℕ → ServerState → Bool
channel_live q s = s.channel_objects.live q

-- The registry is in order; a name finds the live channel of that name; members, invited clients and
-- joined channels are live; and a client is a member exactly of the channels it has joined.
pub record IsLinked (s : ServerState) : Type 0 where
  pub owned : IsOwned s.client
  pub name_found :
      (n : Text) (q : ℕ)
      → find name_order n s.channels ≡ some q
      → (channel_live q s ≡ true) × (same name_order n (channel_at q s).name ≡ true)
  pub name_finds :
      (q : ℕ) → channel_live q s ≡ true → find name_order (channel_at q s).name s.channels ≡ some q
  pub member_live :
      (p q : ℕ)
      → channel_live q s ≡ true
      → has_member p (channel_at q s) ≡ true
      → client_live p s ≡ true
  pub invited_live :
      (p q : ℕ)
      → channel_live q s ≡ true
      → is_invited p (channel_at q s) ≡ true
      → client_live p s ≡ true
  pub joined_live :
      (p q : ℕ)
      → client_live p s ≡ true
      → has_joined q (client_at p s) ≡ true
      → channel_live q s ≡ true
  pub in_step :
      (p q : ℕ)
      → client_live p s ≡ true
      → channel_live q s ≡ true
      → has_member p (channel_at q s) ≡ has_joined q (client_at p s)

-- Moreover, a channel without members is gone.
pub record IsConsistent (s : ServerState) : Type 0 where
  pub linked : IsLinked s
  pub occupied : (q : ℕ) → channel_live q s ≡ true → has_no_members (channel_at q s) ≡ false
