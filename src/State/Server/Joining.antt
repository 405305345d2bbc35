-- ===== src/State/Server/Joining.antt =====
-- addClientToChannel of src/c/ServerState.cpp keeps the invariant.
use irc.Common.{
  ℕ, true, false, ◌≡◌, ◌≢◌, refl, Text, some, none, arith, ◌==◌, inl, inr, Option-cases, Bool-cases,
}
use irc.Common.Map.{find}
use irc.Common.Map.Laws.{same_refl, same_sym, find-insert, find_congr}
use irc.State.Names.Order.{name_order}
use irc.State.Client.{join_channel}
use irc.State.Client.Laws.{fd-join_channel, nickname-join_channel, has_joined-join_channel}
use irc.State.Channel.{has_member, has_no_members, member_count}
use irc.State.Channel.Laws.{
  name-add_member, name-new_channel, has_member-add_member, is_invited-add_member,
  has_member-new_channel, is_invited-new_channel, has_no_members_of_member,
  has_no_members-add_member,
}
use irc.State.Registry.Ownership.{update_client-IsOwned}
use irc.State.Server.{
  ServerState, client_at, channel_at, attach, get_or_create_channel, make_channel, enter_channel,
  add_client_to_channel, get_channel,
}
use irc.State.Server.Links.{IsLinked, IsConsistent, client_live, channel_live}
use irc.State.Server.Channels.{set_operator-IsConsistent}

-- Every channel but the one at `q` has a member.
abbrev pub IsOccupiedBut : ℕ → ServerState → Type 0
IsOccupiedBut q s =
    (k : ℕ) → channel_live k s ≡ true → q ≢ k → has_no_members (channel_at k s) ≡ false

client_live-make_channel :
    (p : ℕ) (name : Text) (q : ℕ) (s : ServerState)
    → client_live p (make_channel name q s) ≡ client_live p s
unfolding make_channel
client_live-make_channel p name q s = refl

channel_live-make_channel :
    (name : Text) (q : ℕ) (s : ServerState) → channel_live q (make_channel name q s) ≡ true
unfolding make_channel
channel_live-make_channel name q s = ground arith

module _ (name : Text) (q : ℕ) {s : ServerState} (w : IsConsistent s)
    (fresh : channel_live q s ≡ false) where
  module _ (absent : find name_order name s.channels ≡ none) where
    make_channel-IsLinked : IsLinked (make_channel name q s)
    unfolding make_channel
    make_channel-IsLinked = record {
      owned = w.linked.owned;
      name_found = λ n k h. ground (
        arith,
        find-insert name_order name n q s.channels absent,
        w.linked.name_found n k,
        name-new_channel name,
        same_sym name_order n name,
      );
      name_finds = λ k h. ground (
        arith,
        find-insert name_order name (channel_at k s).name q s.channels absent,
        find-insert name_order name name q s.channels absent,
        same_refl name_order name,
        name-new_channel name,
        w.linked.name_finds k,
        find_congr name_order name (channel_at k s).name s.channels,
      );
      member_live =
          λ p k h j. ground (arith, w.linked.member_live p k, has_member-new_channel p name);
      invited_live =
          λ p k h j. ground (arith, w.linked.invited_live p k, is_invited-new_channel p name);
      joined_live = λ p k h j. ground (arith, w.linked.joined_live p k);
      in_step = λ p k h j.
          ground
            (arith, w.linked.in_step p k, has_member-new_channel p name, w.linked.joined_live p k);
    }

    make_channel-IsOccupiedBut : IsOccupiedBut q (make_channel name q s)
    unfolding make_channel
    make_channel-IsOccupiedBut k h other = ground (arith, w.occupied k)

-- A live client enters a live channel, which may have been empty.
module _ (p q : ℕ) {s : ServerState} (client_alive : client_live p s ≡ true)
    (channel_alive : channel_live q s ≡ true) where
  attach-IsLinked : IsLinked s → IsLinked (attach p q s)
  attach-IsLinked w = record {
    owned =
        update_client-IsOwned p (join_channel q) w.owned (fd-join_channel q _)
          (nickname-join_channel q _);
    name_found = λ n k h. ground (arith, w.name_found n k, name-add_member p (channel_at q s));
    name_finds = λ k h. ground (arith, w.name_finds k, name-add_member p (channel_at q s));
    member_live =
        λ t k h j. ground (arith, w.member_live t k, has_member-add_member t p (channel_at q s));
    invited_live =
        λ t k h j. ground (arith, w.invited_live t k, is_invited-add_member t p (channel_at q s));
    joined_live =
        λ t k h j. ground (arith, w.joined_live t k, has_joined-join_channel k q (client_at p s));
    in_step = λ t k h j. ground (
      arith,
      w.in_step t k,
      has_member-add_member t p (channel_at q s),
      has_joined-join_channel k q (client_at p s),
    );
  }

  attach-IsConsistent : IsLinked s → IsOccupiedBut q s → IsConsistent (attach p q s)
  attach-IsConsistent w others = record {
    linked = attach-IsLinked w;
    occupied = λ k h. ground (arith, others k, has_no_members-add_member p (channel_at q s));
  }

  present-IsConsistent :
      has_member p (channel_at q s) ≡ true → IsLinked s → IsOccupiedBut q s → IsConsistent s
  present-IsConsistent h w others = record {
    linked = w;
    occupied = λ k l. ground (arith, others k, has_no_members_of_member p (channel_at q s) h);
  }

  enter_channel-IsConsistent : IsLinked s → IsOccupiedBut q s → IsConsistent (enter_channel p q s)
  unfolding enter_channel
  enter_channel-IsConsistent w others = elim (Bool-cases (has_member p (channel_at q s))) [
    | inl here ↦ rw (here, enter_channel) (present-IsConsistent here w others)
    | inr absent ↦ elim (Bool-cases (member_count (channel_at q (attach p q s)) == 1)) [
      | inl first ↦
          rw (absent, first, enter_channel)
            (set_operator-IsConsistent p q true (attach-IsConsistent w others))
      | inr later ↦ rw (absent, later, enter_channel) (attach-IsConsistent w others)
    ]
  ]

-- A live client enters the channel of a name; if there is none, it is made at a fresh address.
pub add_client_to_channel-IsConsistent :
    (p : ℕ) (name : Text) (q : ℕ) {s : ServerState}
    → IsConsistent s
    → client_live p s ≡ true
    → channel_live q s ≡ false
    → IsConsistent (add_client_to_channel (some p) name q s).1
unfolding add_client_to_channel get_or_create_channel
add_client_to_channel-IsConsistent p name q {s} w alive fresh =
    elim (Option-cases (find name_order name s.channels)) [
      | inl absent ↦
          rw (absent, add_client_to_channel, get_or_create_channel, get_channel)
            (enter_channel-IsConsistent p q {s = make_channel name q s}
              (rw (client_live-make_channel p name q s) alive) (channel_live-make_channel name q s)
              (make_channel-IsLinked name q w fresh absent)
              (make_channel-IsOccupiedBut name q w fresh absent))
      | inr (k, found) ↦
          rw (found, add_client_to_channel, get_or_create_channel, get_channel)
            (enter_channel-IsConsistent p k alive (w.linked.name_found name k found).0 w.linked
              (λ j h _. w.occupied j h))
    ]
