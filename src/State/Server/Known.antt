-- ===== src/State/Server/Known.antt =====
-- The descriptors that have a client in the server state of src/c/ServerState.cpp.
use irc.Common.{
  ℕ, Bool, false, ◌||◌, ◌≡◌, Text, some, arith, map, Option-cases, inl, inr, ◌==◌, ==_iff,
  if◌then◌else◌,
}
use irc.Common.Map.{find, has}
use irc.Common.Map.Keys.{nat_order, find-insert_nat, find-erase_nat}
use irc.State.Registry
use irc.State.Registry.{ClientRegistry}
use irc.State.Server.{
  ServerState, client_at, add_client, get_client_by_fd, leave_channels, remove_found, remove_client,
  remove_client_from_all_invites,
}
use irc.State.Server.Removal.{registry-leave_channels, client-remove_invites}

-- There is a client for the descriptor.
abbrev pub known : ℕ → ServerState → Bool
known g s = has nat_order g s.client.fd_to_client

pub known-add_client :
    (g fd : ℕ) (host : Text) (p : ℕ) (s : ServerState)
    → known g (add_client fd host p s) ≡ (fd == g || known g s)
unfolding add_client Registry.add_client Registry.get_client_by_fd
known-add_client g fd host p s = elim (Option-cases (find nat_order fd s.client.fd_to_client)) [
  | inr (old, found) ↦
      rw (add_client, Registry.add_client, Registry.get_client_by_fd, found)
        (ground (arith, found, ==_iff fd g))
  | inl absent ↦
      rw (add_client, Registry.add_client, Registry.get_client_by_fd, absent)
        (ground (arith, find-insert_nat fd g p s.client.fd_to_client absent))
]

fds-forget :
    (fd : ℕ) (r : ClientRegistry)
    → (g : ℕ)
    → has nat_order g (Registry.remove_client fd r).fd_to_client
      ≡ (if fd == g then false else has nat_order g r.fd_to_client)
unfolding Registry.remove_client Registry.get_client_by_fd Registry.forget
fds-forget fd r g = elim (Option-cases (find nat_order fd r.fd_to_client)) [
  | inl absent ↦
      rw (Registry.remove_client, Registry.get_client_by_fd, absent)
        (ground (arith, absent, ==_iff fd g))
  | inr (p, found) ↦
      rw (Registry.remove_client, Registry.get_client_by_fd, found)
        (ground (arith, find-erase_nat fd g r.fd_to_client))
]

-- A client that goes is the only one that does.
pub known-remove_client :
    (g fd : ℕ) (s : ServerState)
    → known g (remove_client fd s) ≡ (if fd == g then false else known g s)
unfolding remove_client get_client_by_fd Registry.get_client_by_fd remove_found
    remove_client_from_all_invites
known-remove_client g fd s = elim (Option-cases (find nat_order fd s.client.fd_to_client)) [
  | inl absent ↦
      rw (remove_client, get_client_by_fd, Registry.get_client_by_fd, absent)
        (ground (arith, absent, ==_iff fd g))
  | inr (p, found) ↦
      let left = leave_channels p (map (λ e. e.0) (client_at p s).channels) s in
      rw (remove_client, get_client_by_fd, Registry.get_client_by_fd, found)
        (ground (
          arith,
          fds-forget fd (remove_client_from_all_invites (some p) left).client g,
          client-remove_invites p left.channels left,
          (registry-leave_channels p (map (λ e. e.0) (client_at p s).channels) s).0,
        ))
]
