-- ===== src/State/Server/Channels.antt =====
-- The operations on channels of src/c/ServerState.cpp keep the invariant.
use irc.Common.{ℕ, Bool, true, ◌≡◌, refl, Text, arith}
use irc.State.Modes.{ChannelModes}
use irc.State.Channel.{
  Channel, set_topic, change_modes, has_member, is_invited, has_no_members, set_operator,
  remove_invite, add_invite,
}
use irc.State.Channel.Laws.{
  is_invited-remove_invite, is_invited-add_invite, name-remove_invite, name-add_invite,
  has_member-remove_invite, has_member-add_invite, has_no_members-remove_invite,
  has_no_members-add_invite, is_invited-set_operator, name-set_operator, has_member-set_operator,
  has_no_members-set_operator,
}
use irc.State.Server.{ServerState, channel_at, change_channel}
use irc.State.Server.Links.{IsLinked, IsConsistent, client_live, channel_live}

-- A change of a channel that keeps its name and its members, and invites live clients only.
module _ (q : ℕ) (f : Channel → Channel) {s : ServerState}
    (same_name : (f (channel_at q s)).name ≡ (channel_at q s).name)
    (same_members : (p : ℕ) → has_member p (f (channel_at q s)) ≡ has_member p (channel_at q s))
    (invites : (p : ℕ)
      → channel_live q s ≡ true
      → is_invited p (f (channel_at q s)) ≡ true
      → client_live p s ≡ true) where
  pub change_channel-IsLinked : IsLinked s → IsLinked (change_channel q f s)
  change_channel-IsLinked w = record {
    owned = w.owned;
    name_found = λ n k h. ground (arith, w.name_found n k);
    name_finds = λ k h. ground (arith, w.name_finds k);
    member_live = λ p k h j. ground (arith, w.member_live p k, same_members p);
    invited_live = λ p k h j. ground (arith, w.invited_live p k, invites p);
    joined_live = λ p k h j. w.joined_live p k h j;
    in_step = λ p k h j. ground (arith, w.in_step p k, same_members p);
  }

  pub change_channel-IsConsistent :
      has_no_members (f (channel_at q s)) ≡ has_no_members (channel_at q s)
      → IsConsistent s
      → IsConsistent (change_channel q f s)
  change_channel-IsConsistent same_size w = record {
    linked = change_channel-IsLinked w.linked;
    occupied = λ k h. ground (arith, w.occupied k);
  }

pub set_operator-IsConsistent :
    (p q : ℕ) (b : Bool) {s : ServerState}
    → IsConsistent s
    → IsConsistent (change_channel q (set_operator p b) s)
set_operator-IsConsistent p q b {s} w =
    let ch = channel_at q s in
    change_channel-IsConsistent q (set_operator p b) (name-set_operator p p ch b)
      (λ t. has_member-set_operator t p ch b)
      (λ t h k. w.linked.invited_live t q h (rw (is_invited-set_operator t p ch b) at k))
      (has_no_members-set_operator p ch b) w

pub remove_invite-IsConsistent :
    (p q : ℕ) {s : ServerState}
    → IsConsistent s
    → IsConsistent (change_channel q (remove_invite p) s)
remove_invite-IsConsistent p q {s} w =
    let ch = channel_at q s in
    change_channel-IsConsistent q (remove_invite p) (name-remove_invite p ch)
      (λ t. has_member-remove_invite t p ch)
      (λ t h k.
        ground (arith, w.linked.invited_live t q h, is_invited-remove_invite t p (channel_at q s)))
      (has_no_members-remove_invite p ch) w

pub add_invite-IsConsistent :
    (p q : ℕ) {s : ServerState}
    → IsConsistent s
    → client_live p s ≡ true
    → IsConsistent (change_channel q (add_invite p) s)
add_invite-IsConsistent p q {s} w alive =
    let ch = channel_at q s in
    change_channel-IsConsistent q (add_invite p) (name-add_invite p ch)
      (λ t. has_member-add_invite t p ch)
      (λ t h k.
        ground (arith, w.linked.invited_live t q h, is_invited-add_invite t p (channel_at q s)))
      (has_no_members-add_invite p ch) w

pub set_topic-IsConsistent :
    (q : ℕ) (topic : Text) {s : ServerState}
    → IsConsistent s
    → IsConsistent (change_channel q (set_topic topic) s)
unfolding set_topic has_member has_no_members is_invited
set_topic-IsConsistent q topic w =
    change_channel-IsConsistent q (set_topic topic) refl (λ t. refl)
      (λ t h k. w.linked.invited_live t q h k) refl w

pub change_modes-IsConsistent :
    (q : ℕ) (f : ChannelModes → ChannelModes) {s : ServerState}
    → IsConsistent s
    → IsConsistent (change_channel q (change_modes f) s)
unfolding change_modes has_member has_no_members is_invited
change_modes-IsConsistent q f w =
    change_channel-IsConsistent q (change_modes f) refl (λ t. refl)
      (λ t h k. w.linked.invited_live t q h k) refl w
