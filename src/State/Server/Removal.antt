-- ===== src/State/Server/Removal.antt =====
-- removeClient of src/c/ServerState.cpp: a client that goes leaves no pointer to it behind.
use irc.Common.{
  ℕ, Bool, true, false, ◌||◌, ◌≡◌, refl, Text, some, arith, ◌==◌, if◌then◌else◌, inl, inr,
  Option-cases, Bool-cases, List, [], ◌∷◌, map, ◌∙◌, ap,
}
use irc.Common.Map.{find, has}
use irc.Common.Map.Keys.{nat_order, nat_same}
use irc.State.Names.Order.{name_order}
use irc.State.Client.{Client}
use irc.State.Client.Laws.{has_joined, has_joined-leave_channel}
use irc.State.Channel.{is_invited, remove_invite}
use irc.State.Channel.Laws.{is_invited-remove_invite}
use irc.State.Registry.{ClientRegistry}
use irc.State.Registry
use irc.State.Registry.Ownership.{forget-IsOwned, remove_client-forget}
use irc.State.Server.{
  ServerState, client_at, channel_at, change_channel, unlink, remove_channel_if_empty, drop_channel,
  detach, remove_invites, remove_client_from_all_invites, leave_channels, remove_found,
  remove_client, get_client_by_fd,
}
use irc.State.Server.Links.{IsLinked, IsConsistent, channel_live}
use irc.State.Server.Channels.{remove_invite-IsConsistent}
use irc.State.Server.Leaving.{detach-IsConsistent, detach_dead-IsConsistent}

pub elem : ℕ → List ℕ → Bool
elem k [] = false
elem k (q ∷ qs) = q == k || elem k qs

elem-keys : {V : Type 0} (k : ℕ) (m : List (ℕ × V)) → elem k (map (λ e. e.0) m) ≡ has nat_order k m
unfolding elem find
elem-keys k [] = refl
elem-keys k ((j, v) ∷ m) = ground (arith, elem-keys k m, nat_same j k)

elem-joined : (k : ℕ) (c : Client) → elem k (map (λ e. e.0) c.channels) ≡ has_joined k c
unfolding has_joined
elem-joined k c = elem-keys k c.channels

elem-values :
    (n : Text) (q : ℕ) (m : List (Text × ℕ))
    → find name_order n m ≡ some q
    → elem q (map (λ e. e.1) m) ≡ true
unfolding elem find
elem-values n q [] h = cc
elem-values n q ((j, v) ∷ m) h = ground (arith, elem-values n q m)

client-remove_channel_if_empty :
    (name : Text) (s : ServerState) → (remove_channel_if_empty name s).client ≡ s.client
unfolding remove_channel_if_empty drop_channel
client-remove_channel_if_empty name s = ground arith

-- What `detach` does to the registry.
client-detach :
    (p q : ℕ) (name : Text) (s : ServerState) → (detach p q name s).client ≡ (unlink p q s).client
unfolding detach
client-detach p q name s = client-remove_channel_if_empty name (unlink p q s)

module _ (p : ℕ) where
  leave_channels-IsConsistent :
      (qs : List ℕ) {s : ServerState} → IsConsistent s → IsConsistent (leave_channels p qs s)
  unfolding leave_channels
  leave_channels-IsConsistent [] w = w
  leave_channels-IsConsistent (q ∷ qs) {s} w =
      leave_channels-IsConsistent qs (elim (Bool-cases (channel_live q s)) [
        | inl alive ↦ detach-IsConsistent p q (channel_at q s).name w (w.linked.name_finds q alive)
        | inr dead ↦ detach_dead-IsConsistent p q (channel_at q s).name w dead
      ])

  -- The channels in the list are left, the others stay joined.
  joined-leave_channels :
      (k : ℕ) (qs : List ℕ) (s : ServerState)
      → has_joined k (client_at p (leave_channels p qs s))
        ≡ (if elem k qs then false else has_joined k (client_at p s))
  unfolding leave_channels elem
  joined-leave_channels k [] s = refl
  joined-leave_channels k (q ∷ qs) s = ground (
    arith,
    joined-leave_channels k qs (detach p q (channel_at q s).name s),
    client-detach p q (channel_at q s).name s,
    has_joined-leave_channel k q (client_at p s),
  )

  pub registry-leave_channels :
      (qs : List ℕ) (s : ServerState)
      → ((leave_channels p qs s).client.fd_to_client ≡ s.client.fd_to_client)
        × ((leave_channels p qs s).client.objects.live ≡ s.client.objects.live)
  unfolding leave_channels
  registry-leave_channels [] s = (refl, refl)
  registry-leave_channels (q ∷ qs) s =
      let rest = registry-leave_channels qs (detach p q (channel_at q s).name s) in
      let here = client-detach p q (channel_at q s).name s in
      (
        rest.0 ∙ ap (λ (r : ClientRegistry). r.fd_to_client) here,
        rest.1 ∙ ap (λ (r : ClientRegistry). r.objects.live) here,
      )

  remove_invites-IsConsistent :
      (m : List (Text × ℕ)) {s : ServerState} → IsConsistent s → IsConsistent (remove_invites p m s)
  unfolding remove_invites
  remove_invites-IsConsistent [] w = w
  remove_invites-IsConsistent ((n, q) ∷ m) w =
      remove_invites-IsConsistent m (remove_invite-IsConsistent p q w)

  pub client-remove_invites :
      (m : List (Text × ℕ)) (s : ServerState) → (remove_invites p m s).client ≡ s.client
  unfolding remove_invites
  client-remove_invites [] s = refl
  client-remove_invites ((n, q) ∷ m) s =
      client-remove_invites m (change_channel q (remove_invite p) s)

  live-remove_invites :
      (m : List (Text × ℕ)) (s : ServerState)
      → (remove_invites p m s).channel_objects.live ≡ s.channel_objects.live
  unfolding remove_invites
  live-remove_invites [] s = refl
  live-remove_invites ((n, q) ∷ m) s = live-remove_invites m (change_channel q (remove_invite p) s)

  is_invited-remove_invites :
      (k : ℕ) (m : List (Text × ℕ)) (s : ServerState)
      → is_invited p (channel_at k (remove_invites p m s))
        ≡ (if elem k (map (λ e. e.1) m) then false else is_invited p (channel_at k s))
  unfolding remove_invites elem
  is_invited-remove_invites k [] s = refl
  is_invited-remove_invites k ((n, q) ∷ m) s = ground (
    arith,
    is_invited-remove_invites k m (change_channel q (remove_invite p) s),
    is_invited-remove_invite p p (channel_at q s),
  )

-- The client at `p` has left every channel and no channel invites it; then it can be deleted.
module _ (fd p : ℕ) {s : ServerState} (w : IsConsistent s)
    (found : find nat_order fd s.client.fd_to_client ≡ some p)
    (left : (q : ℕ) → has_joined q (client_at p s) ≡ false)
    (uninvited : (q : ℕ) → channel_live q s ≡ true → is_invited p (channel_at q s) ≡ false) where
  deleted-IsLinked : IsLinked (record s { client = Registry.forget fd p s.client })
  unfolding Registry.forget
  deleted-IsLinked = record {
    owned = forget-IsOwned fd p w.linked.owned found;
    name_found = λ n k h. w.linked.name_found n k h;
    name_finds = λ k h. w.linked.name_finds k h;
    member_live = λ t k h j. ground (arith, w.linked.member_live t k, w.linked.in_step p k, left k);
    invited_live = λ t k h j. ground (arith, w.linked.invited_live t k, uninvited k);
    joined_live = λ t k h j. ground (arith, w.linked.joined_live t k);
    in_step = λ t k h j. ground (arith, w.linked.in_step t k);
  }

  deleted-IsConsistent : IsConsistent (record s { client = Registry.forget fd p s.client })
  deleted-IsConsistent = record { linked = deleted-IsLinked; occupied = λ k h. w.occupied k h }

module _ (fd p : ℕ) {s : ServerState} (w : IsConsistent s)
    (found : find nat_order fd s.client.fd_to_client ≡ some p) where
  -- The state after the loop over the channels, and after the loop over the invitations.
  abbrev joined : List ℕ
  joined = map (λ e. e.0) (client_at p s).channels

  left-IsConsistent : IsConsistent (leave_channels p joined s)
  left-IsConsistent = leave_channels-IsConsistent p joined w

  left_all : (q : ℕ) → has_joined q (client_at p (leave_channels p joined s)) ≡ false
  left_all q = ground (arith, joined-leave_channels p q joined s, elem-joined q (client_at p s))

  found_still : find nat_order fd (leave_channels p joined s).client.fd_to_client ≡ some p
  found_still = rw ((registry-leave_channels p joined s).0) found

  uninvited_all :
      (q : ℕ)
      → channel_live q (leave_channels p joined s) ≡ true
      → is_invited p (
          channel_at q
            (remove_invites p (leave_channels p joined s).channels (leave_channels p joined s)))
        ≡ false
  uninvited_all q h =
      let s' = leave_channels p joined s in
      ground (
        arith,
        is_invited-remove_invites p q s'.channels s',
        elem-values (channel_at q s').name q s'.channels (left-IsConsistent.linked.name_finds q h),
      )

  remove_found-IsConsistent : IsConsistent (remove_found fd p s)
  unfolding remove_found remove_client_from_all_invites
  remove_found-IsConsistent =
      let s' = leave_channels p joined s in
      let same_client = client-remove_invites p s'.channels s' in
      let found' : find nat_order fd (remove_invites p s'.channels s').client.fd_to_client
          ≡ some p =
        rw same_client found_still in
      rw (remove_client-forget fd p (remove_invites p s'.channels s').client found') (
        deleted-IsConsistent fd p (remove_invites-IsConsistent p s'.channels left-IsConsistent)
          found' (λ q. rw same_client (left_all q))
          (λ q h. uninvited_all q (rw (live-remove_invites p s'.channels s') at h)))

-- Whoever disconnects: all pointers to the client are gone, and so are the channels that it leaves
-- empty.
pub remove_client-IsConsistent :
    (fd : ℕ) {s : ServerState} → IsConsistent s → IsConsistent (remove_client fd s)
unfolding remove_client get_client_by_fd Registry.get_client_by_fd
remove_client-IsConsistent fd {s} w =
    elim (Option-cases (find nat_order fd s.client.fd_to_client)) [
      | inl absent ↦ rw (remove_client, get_client_by_fd, Registry.get_client_by_fd, absent) w
      | inr (p, found) ↦
          rw (remove_client, get_client_by_fd, Registry.get_client_by_fd, found)
            (remove_found-IsConsistent fd p w found)
    ]
