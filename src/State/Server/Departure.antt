-- ===== src/State/Server/Departure.antt =====
-- What removeClient of src/c/ServerState.cpp leaves as it was, and what is gone.
use irc.Common.{ℕ, true, ◌≡◌, refl, Text, arith, List, [], ◌∷◌, map, ◌∙◌, Option-cases, inl, inr}
use irc.State.Channel.{remove_invite}
use irc.State.Registry
use irc.State.Server.{
  ServerState, client_at, channel_at, change_channel, leave_channels, detach, remove_invites,
  remove_found, remove_client, remove_client_from_all_invites, get_client_by_fd,
}
use irc.State.Server.Links.{client_live, channel_live}
use irc.State.Server.Frame.{account, SameChannel, account-detach, channel-detach}
use irc.State.Server.Removal.{client-remove_invites}

module _ (k p : ℕ) where
  account-leave_channels :
      (qs : List ℕ) (s : ServerState)
      → (account (client_at k (leave_channels p qs s)) ≡ account (client_at k s))
        × (client_live k (leave_channels p qs s) ≡ client_live k s)
  unfolding leave_channels
  account-leave_channels [] s = (refl, refl)
  account-leave_channels (q ∷ qs) s =
      let name = (channel_at q s).name in
      let rest = account-leave_channels qs (detach p q name s) in
      let here = account-detach k p q name s in (rest.0 ∙ here.0, rest.1 ∙ here.1)

  channel-leave_channels :
      (qs : List ℕ) (s : ServerState)
      → channel_live k (leave_channels p qs s) ≡ true
      → (channel_live k s ≡ true) × SameChannel k (leave_channels p qs s) s
  unfolding leave_channels
  channel-leave_channels [] s h = (h, (refl, refl))
  channel-leave_channels (q ∷ qs) s h =
      let name = (channel_at q s).name in
      let rest = channel-leave_channels qs (detach p q name s) h in
      let here = channel-detach k p q name s rest.0 in
      (here.0, (rest.1.0 ∙ here.1.0, rest.1.1 ∙ here.1.1))

  channel-remove_invites :
      (m : List (Text × ℕ)) (s : ServerState)
      → (channel_live k (remove_invites p m s) ≡ channel_live k s)
        × SameChannel k (remove_invites p m s) s
  unfolding remove_invites remove_invite
  channel-remove_invites [] s = (refl, (refl, refl))
  channel-remove_invites ((n, q) ∷ m) s =
      ground (arith, channel-remove_invites m (change_channel q (remove_invite p) s))

-- Who is still there has its account, and every channel that is still there its name and modes.
module _ (k fd : ℕ) where
  remove_found-frame :
      (p : ℕ) (s : ServerState)
      → (client_live k (remove_found fd p s) ≡ true
          → (account (client_at k (remove_found fd p s)) ≡ account (client_at k s))
            × (client_live k s ≡ true))
        × (channel_live k (remove_found fd p s) ≡ true
            → (channel_live k s ≡ true) × SameChannel k (remove_found fd p s) s)
  unfolding remove_found remove_client_from_all_invites Registry.remove_client Registry.forget
      Registry.get_client_by_fd
  remove_found-frame p s =
      let joined = map (λ e. e.0) (client_at p s).channels in
      let s' = leave_channels p joined s in
      (
        λ h.
            ground
              (arith, account-leave_channels k p joined s, client-remove_invites p s'.channels s'),
        λ h.
            ground (
              arith,
              channel-leave_channels k p joined s,
              channel-remove_invites k p s'.channels s',
            ),
      )

  pub remove_client-frame :
      (s : ServerState)
      → (client_live k (remove_client fd s) ≡ true
          → (account (client_at k (remove_client fd s)) ≡ account (client_at k s))
            × (client_live k s ≡ true))
        × (channel_live k (remove_client fd s) ≡ true
            → (channel_live k s ≡ true) × SameChannel k (remove_client fd s) s)
  unfolding remove_client
  remove_client-frame s = elim (Option-cases (get_client_by_fd fd s)) [
    | inl absent ↦ rw (remove_client, absent) (λ h. (refl, h), λ h. (h, (refl, refl)))
    | inr (p, found) ↦ rw (remove_client, found) (remove_found-frame p s)
  ]
