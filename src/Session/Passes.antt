-- ===== src/Session/Passes.antt =====
-- Who has sent the password in the course of a session; and that the state keeps its password.
use irc.Common.{
  ℕ, Bool, false, ◌&&◌, ◌||◌, ◌≡◌, ◌==◌, refl, ◌∙◌, List, [], ◌∷◌, Option-cases, inl, inr, Text,
  map, none, some, arith, text_eq, codes, if◌then◌else◌,
}
use irc.State.Server.{
  ServerState, get_client_by_fd, client_at, channel_at, get_channel, get_or_create_channel,
  make_channel, enter_channel, remove_channel_if_empty, drop_channel, detach, update_nick,
  add_client_to_channel, remove_client_from_channel, leave_channels, remove_invites, remove_found,
  remove_client, remove_client_from_all_invites, change_channel,
}
use irc.State.Channel.{remove_invite}
use irc.Protocol.Message.{Message, has_param, get_single_param}
use irc.Session.{Step, accepted, commanded, disconnected, Reach, here, next}

-- The line is a PASS with this password, from the client at `p`.
unfoldable pub passes : Text → ℕ → ℕ → Message → ServerState → Bool
passes password p fd msg s =
    (elim (get_client_by_fd fd s) [ none ↦ false | some q ↦ q == p ])
    && text_eq msg.command (codes "PASS")
    && has_param 0 msg
    && text_eq (get_single_param 0 msg) password

-- What a step makes of it: a client that is accepted has sent nothing yet.
unfoldable pub passes_by : Text → ℕ → Bool → {s t : ServerState} → Step s t → Bool
passes_by password p before (accepted fd host q s fresh) = if q == p then false else before
passes_by password p before (commanded fd msg now q monitor s fresh) =
    passes password p fd msg s || before
passes_by password p before (disconnected fd s) = before

-- The client that is at `p` now has sent a PASS with the password since it was accepted.
unfoldable pub has_passed : Text → ℕ → {s t : ServerState} → Reach s t → Bool
has_passed password p here = false
has_passed password p (next r st) = passes_by password p (has_passed password p r) st

pub password-update_nick :
    (p : ℕ) (name : Text) (s : ServerState) → (update_nick p name s).1.password ≡ s.password
unfolding update_nick
password-update_nick p name s = ground arith

pub password-join :
    (p : ℕ) (name : Text) (q : ℕ) (s : ServerState)
    → (add_client_to_channel (some p) name q s).1.password ≡ s.password
unfolding add_client_to_channel get_or_create_channel make_channel enter_channel
password-join p name q s = ground arith

password-detach :
    (p q : ℕ) (name : Text) (s : ServerState) → (detach p q name s).password ≡ s.password
unfolding detach remove_channel_if_empty drop_channel
password-detach p q name s = ground arith

pub password-leave :
    (p : ℕ) (name : Text) (s : ServerState)
    → (remove_client_from_channel (some p) name s).password ≡ s.password
unfolding remove_client_from_channel
password-leave p name s = elim (Option-cases (get_channel name s)) [
  | inl absent ↦ rw (remove_client_from_channel, absent) refl
  | inr (q, found) ↦ ground (arith, found, password-detach p q name s)
]

module _ (p : ℕ) where
  password-leave_channels :
      (qs : List ℕ) (s : ServerState) → (leave_channels p qs s).password ≡ s.password
  unfolding leave_channels
  password-leave_channels [] s = refl
  password-leave_channels (q ∷ qs) s =
      let name = (channel_at q s).name in
      password-leave_channels qs (detach p q name s) ∙ password-detach p q name s

  password-remove_invites :
      (m : List (Text × ℕ)) (s : ServerState) → (remove_invites p m s).password ≡ s.password
  unfolding remove_invites
  password-remove_invites [] s = refl
  password-remove_invites ((name, q) ∷ m) s =
      password-remove_invites m (change_channel q (remove_invite p) s)

pub password-remove_client : (fd : ℕ) (s : ServerState) → (remove_client fd s).password ≡ s.password
unfolding remove_client remove_found remove_client_from_all_invites
password-remove_client fd s = elim (Option-cases (get_client_by_fd fd s)) [
  | inl absent ↦ rw (remove_client, absent) refl
  | inr (p, found) ↦
      let joined = map (λ e. e.0) (client_at p s).channels in
      let left = leave_channels p joined s in
      rw (remove_client, found)
        (password-remove_invites p left.channels left ∙ password-leave_channels p joined s)
]
