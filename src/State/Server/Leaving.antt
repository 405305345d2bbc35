-- ===== src/State/Server/Leaving.antt =====
-- removeClientFromChannel and removeChannelIfEmpty of src/c/ServerState.cpp keep the invariant.
use irc.Common.{ℕ, true, false, ◌≡◌, Text, some, arith, inl, inr, Option-cases, Bool-cases}
use irc.Common.Map.{find}
use irc.Common.Map.Laws.{same_sym, same_congr, find-erase, find_congr}
use irc.State.Names.Order.{name_order}
use irc.State.Client.{leave_channel}
use irc.State.Client.Laws.{has_joined-leave_channel, fd-leave_channel, nickname-leave_channel}
use irc.State.Channel.{has_member, has_no_members}
use irc.State.Channel.Laws.{
  has_member-remove_client_state, is_invited-remove_client_state, name-remove_client_state,
  has_no_members_of_member,
}
use irc.State.Registry.Ownership.{update_client-IsOwned}
use irc.State.Server.{
  ServerState, client_at, channel_at, unlink, drop_channel, remove_channel_if_empty, detach,
  remove_client_from_channel, get_channel,
}
use irc.State.Server.Links.{IsLinked, IsConsistent, channel_live}
use irc.State.Server.Joining.{IsOccupiedBut}

module _ (p q : ℕ) {s : ServerState} where
  unlink-IsLinked : IsLinked s → IsLinked (unlink p q s)
  unlink-IsLinked w = record {
    owned =
        update_client-IsOwned p (leave_channel q) w.owned (fd-leave_channel q _)
          (nickname-leave_channel q _);
    name_found =
        λ n k h. ground (arith, w.name_found n k, name-remove_client_state p (channel_at q s));
    name_finds = λ k h. ground (arith, w.name_finds k, name-remove_client_state p (channel_at q s));
    member_live = λ t k h j.
        ground (arith, w.member_live t k, has_member-remove_client_state t p (channel_at q s));
    invited_live = λ t k h j.
        ground (arith, w.invited_live t k, is_invited-remove_client_state t p (channel_at q s));
    joined_live =
        λ t k h j. ground (arith, w.joined_live t k, has_joined-leave_channel k q (client_at p s));
    in_step = λ t k h j. ground (
      arith,
      w.in_step t k,
      has_member-remove_client_state t p (channel_at q s),
      has_joined-leave_channel k q (client_at p s),
    );
  }

  unlink-IsOccupiedBut : IsConsistent s → IsOccupiedBut q (unlink p q s)
  unlink-IsOccupiedBut w k h other = ground (arith, w.occupied k)

module _ (name : Text) (q : ℕ) {s : ServerState} (w : IsLinked s)
    (found : find name_order name s.channels ≡ some q) where
  module _ (empty : has_no_members (channel_at q s) ≡ true) where
    drop_channel-IsLinked : IsLinked (drop_channel name q s)
    unfolding drop_channel
    drop_channel-IsLinked = record {
      owned = w.owned;
      name_found = λ n k h. ground (
        arith,
        find-erase name_order name n s.channels,
        w.name_found n k,
        w.name_found name q,
        same_sym name_order n (channel_at q s).name,
        same_congr name_order name (channel_at q s).name n,
      );
      name_finds = λ k h. ground (
        arith,
        find-erase name_order name (channel_at k s).name s.channels,
        w.name_finds k,
        find_congr name_order name (channel_at k s).name s.channels,
      );
      member_live = λ t k h j. ground (arith, w.member_live t k);
      invited_live = λ t k h j. ground (arith, w.invited_live t k);
      joined_live = λ t k h j.
          ground
            (arith, w.joined_live t k, w.in_step t q, has_no_members_of_member t (channel_at q s));
      in_step = λ t k h j. ground (arith, w.in_step t k);
    }

    drop_channel-IsConsistent : IsOccupiedBut q s → IsConsistent (drop_channel name q s)
    drop_channel-IsConsistent others = record {
      linked = drop_channel-IsLinked;
      occupied = unfold drop_channel in λ k h. ground (arith, others k);
    }

  -- A channel that may be empty goes if it is.
  remove_channel_if_empty-IsConsistent :
      IsOccupiedBut q s → IsConsistent (remove_channel_if_empty name s)
  unfolding remove_channel_if_empty
  remove_channel_if_empty-IsConsistent others =
      elim (Bool-cases (has_no_members (channel_at q s))) [
        | inl empty ↦
            rw (remove_channel_if_empty, found, empty) (drop_channel-IsConsistent empty others)
        | inr occupied ↦
            rw (remove_channel_if_empty, found, occupied)
              (record { linked = w; occupied = λ k h. ground (arith, others k) })
      ]

-- Where every channel has members, nothing is dropped.
remove_channel_if_empty_occupied :
    (name : Text) {s : ServerState} → IsConsistent s → remove_channel_if_empty name s ≡ s
unfolding remove_channel_if_empty
remove_channel_if_empty_occupied name {s} w =
    elim (Option-cases (find name_order name s.channels)) [
      | inl absent ↦ rw (remove_channel_if_empty, absent)
      | inr (k, found) ↦
          rw (remove_channel_if_empty, found, w.occupied k (w.linked.name_found name k found).0)
    ]

pub detach-IsConsistent :
    (p q : ℕ) (name : Text) {s : ServerState}
    → IsConsistent s
    → find name_order name s.channels ≡ some q
    → IsConsistent (detach p q name s)
unfolding detach
detach-IsConsistent p q name w found =
    remove_channel_if_empty-IsConsistent name q (unlink-IsLinked p q w.linked) found
      (unlink-IsOccupiedBut p q w)

-- The part of a channel that is no longer there changes nothing that counts.
pub detach_dead-IsConsistent :
    (p q : ℕ) (name : Text) {s : ServerState}
    → IsConsistent s
    → channel_live q s ≡ false
    → IsConsistent (detach p q name s)
unfolding detach
detach_dead-IsConsistent p q name {s} w dead =
    rw (remove_channel_if_empty_occupied name unlinked) unlinked
  where
    unlinked : IsConsistent (unlink p q s)
    unlinked = record {
      linked = unlink-IsLinked p q w.linked;
      occupied = λ k h. ground (arith, w.occupied k);
    }

pub remove_client_from_channel-IsConsistent :
    (p : ℕ) (name : Text) {s : ServerState}
    → IsConsistent s
    → IsConsistent (remove_client_from_channel (some p) name s)
unfolding remove_client_from_channel get_channel
remove_client_from_channel-IsConsistent p name {s} w =
    elim (Option-cases (find name_order name s.channels)) [
      | inl absent ↦ rw (remove_client_from_channel, get_channel, absent) w
      | inr (q, found) ↦ elim (Bool-cases (has_member p (channel_at q s))) [
        | inl here ↦
            rw (remove_client_from_channel, get_channel, found, here)
              (detach-IsConsistent p q name w found)
        | inr absent ↦ rw (remove_client_from_channel, get_channel, found, absent) w
      ]
    ]
