-- ===== src/State/Client/Laws.antt =====
-- Which channels a client has joined, after each operation of src/c/Client.cpp.
use irc.Common.{Text, refl, ℕ, Bool, true, false, ◌≡◌, arith, ◌==◌, if◌then◌else◌}
use irc.Common.Map.{has, find}
use irc.Common.Map.Keys.{nat_order, find-erase_nat, has-insert_nat}
use irc.State.Client.{Client, new_client, join_channel, leave_channel}

-- The set of joined channels holds the pointer `q`.
unfoldable pub has_joined : ℕ → Client → Bool
has_joined q c = has nat_order q c.channels

module _ (q k : ℕ) (c : Client) where
  pub has_joined-join_channel :
      has_joined q (join_channel k c) ≡ (if k == q then true else has_joined q c)
  unfolding has_joined join_channel
  has_joined-join_channel = has-insert_nat k q tt c.channels

  pub has_joined-leave_channel :
      has_joined q (leave_channel k c) ≡ (if k == q then false else has_joined q c)
  unfolding has_joined leave_channel
  has_joined-leave_channel = ground (arith, find-erase_nat k q c.channels)

pub has_joined-new_client : (q fd : ℕ) (host : Text) → has_joined q (new_client fd host) ≡ false
unfolding has_joined new_client find
has_joined-new_client q fd host = refl

pub fd-join_channel : (q : ℕ) (c : Client) → (join_channel q c).fd ≡ c.fd
unfolding join_channel
fd-join_channel q c = refl

pub nickname-join_channel : (q : ℕ) (c : Client) → (join_channel q c).nickname ≡ c.nickname
unfolding join_channel
nickname-join_channel q c = refl

pub fd-leave_channel : (q : ℕ) (c : Client) → (leave_channel q c).fd ≡ c.fd
unfolding leave_channel
fd-leave_channel q c = refl

pub nickname-leave_channel : (q : ℕ) (c : Client) → (leave_channel q c).nickname ≡ c.nickname
unfolding leave_channel
nickname-leave_channel q c = refl
