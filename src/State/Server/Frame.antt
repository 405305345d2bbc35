-- ===== src/State/Server/Frame.antt =====
-- What joining and leaving a channel leave as it was: the accounts of all clients, and the names and
-- modes of all channels.
use irc.Common.{
  ℕ, Bool, true, ◌≡◌, refl, ◌⊎◌, inl, inr, Option-cases, sym, ◌∙◌, [], Text, some, arith,
}
use irc.State.Modes.{channel_modes}
use irc.State.Client.{Client, join_channel, leave_channel}
use irc.State.Channel.{Channel, new_channel, add_member, remove_client_state, set_operator}
use irc.State.Server.{
  ServerState, client_at, channel_at, attach, make_channel, get_or_create_channel, get_channel,
  enter_channel, add_client_to_channel, drop_channel, remove_channel_if_empty, detach,
  remove_client_from_channel,
}
use irc.State.Server.Links.{client_live, channel_live}

-- A client without its channels.
abbrev pub account : Client → Client
account c = record c { channels = [] }

client-get_or_create_channel :
    (name : Text) (q : ℕ) (s : ServerState) → (get_or_create_channel name q s).1.client ≡ s.client
unfolding get_or_create_channel make_channel
client-get_or_create_channel name q s = ground arith

channel-get_or_create_channel :
    (name : Text) (q : ℕ) (s : ServerState) (k : ℕ)
    → let s' = (get_or_create_channel name q s).1 in
      channel_live k s' ≡ true
      → ((channel_live k s ≡ true) × (channel_at k s' ≡ channel_at k s))
        ⊎ (channel_at k s' ≡ new_channel name)
unfolding get_or_create_channel make_channel
channel-get_or_create_channel name q s k h = ground arith

module _ (k : ℕ) where
  account-join_channel : (q : ℕ) (c : Client) → account (join_channel q c) ≡ account c
  unfolding join_channel
  account-join_channel q c = refl

  account-leave_channel : (q : ℕ) (c : Client) → account (leave_channel q c) ≡ account c
  unfolding leave_channel
  account-leave_channel q c = refl

  account-enter_channel :
      (p q : ℕ) (s : ServerState)
      → account (client_at k (enter_channel p q s)) ≡ account (client_at k s)
  unfolding enter_channel
  account-enter_channel p q s = ground (arith, account-join_channel q (client_at p s))

  live-enter_channel :
      (p q : ℕ) (s : ServerState) → client_live k (enter_channel p q s) ≡ client_live k s
  unfolding enter_channel
  live-enter_channel p q s = ground arith

  pub join-account :
      (p : ℕ) (name : Text) (q : ℕ) (s : ServerState)
      → let s' = (add_client_to_channel (some p) name q s).1 in
        (account (client_at k s') ≡ account (client_at k s)) × (client_live k s' ≡ client_live k s)
  unfolding add_client_to_channel
  join-account p name q s =
      let (found, made) = get_or_create_channel name q s in
      ground (
        arith,
        account-enter_channel p found made,
        live-enter_channel p found made,
        client-get_or_create_channel name q s,
      )

  pub account-detach :
      (p q : ℕ) (name : Text) (s : ServerState)
      → (account (client_at k (detach p q name s)) ≡ account (client_at k s))
        × (client_live k (detach p q name s) ≡ client_live k s)
  unfolding detach remove_channel_if_empty drop_channel
  account-detach p q name s = ground (arith, account-leave_channel q (client_at p s))

  pub leave-account :
      (p : ℕ) (name : Text) (s : ServerState)
      → let s' = remove_client_from_channel (some p) name s in
        (account (client_at k s') ≡ account (client_at k s)) × (client_live k s' ≡ client_live k s)
  unfolding remove_client_from_channel
  leave-account p name s = elim (Option-cases (get_channel name s)) [
    | inl absent ↦ rw (remove_client_from_channel, absent) (refl, refl)
    | inr (q, found) ↦ ground (arith, found, account-detach p q name s)
  ]

pub modes-set_operator :
    (p : ℕ) (b : Bool) (ch : Channel)
    → ((set_operator p b ch).name ≡ ch.name) × ((set_operator p b ch).modes ≡ ch.modes)
unfolding set_operator
modes-set_operator p b ch = ground arith

-- The name and the modes of the channel at `k` are as they were.
abbrev pub SameChannel : ℕ → ServerState → ServerState → Type 0
SameChannel k s' s =
    ((channel_at k s').name ≡ (channel_at k s).name)
    × ((channel_at k s').modes ≡ (channel_at k s).modes)

module _ (k : ℕ) where
  channel-enter_channel :
      (p q : ℕ) (s : ServerState)
      → (channel_live k (enter_channel p q s) ≡ channel_live k s)
        × SameChannel k (enter_channel p q s) s
  unfolding enter_channel add_member
  channel-enter_channel p q s =
      ground (arith, modes-set_operator p true (channel_at q (attach p q s)))

  -- The channel that is joined may be new: then it has the given name, and no modes.
  pub join-channel :
      (p : ℕ) (name : Text) (q : ℕ) (s : ServerState)
      → let s' = (add_client_to_channel (some p) name q s).1 in
        channel_live k s' ≡ true
        → ((channel_live k s ≡ true) × SameChannel k s' s)
          ⊎ (((channel_at k s').name ≡ name) × ((channel_at k s').modes ≡ channel_modes))
  unfolding add_client_to_channel new_channel
  join-channel p name q s h =
      let (found, made) = get_or_create_channel name q s in
      let entered = channel-enter_channel p found made in
      let h' : channel_live k made ≡ true = sym entered.0 ∙ h in
      elim (channel-get_or_create_channel name q s k h') [
        | inl (old, same) ↦ inl (old, ground (arith, same, entered))
        | inr new ↦ inr (ground (arith, new, entered))
      ]

  pub channel-detach :
      (p q : ℕ) (name : Text) (s : ServerState)
      → channel_live k (detach p q name s) ≡ true
      → (channel_live k s ≡ true) × SameChannel k (detach p q name s) s
  unfolding detach remove_channel_if_empty drop_channel remove_client_state
  channel-detach p q name s h = ground arith

  pub leave-channel :
      (p : ℕ) (name : Text) (s : ServerState)
      → let s' = remove_client_from_channel (some p) name s in
        channel_live k s' ≡ true → (channel_live k s ≡ true) × SameChannel k s' s
  unfolding remove_client_from_channel
  leave-channel p name s h = elim (Option-cases (get_channel name s)) [
    | inl absent ↦ ground (arith, absent)
    | inr (q, found) ↦ ground (arith, found, channel-detach p q name s)
  ]
