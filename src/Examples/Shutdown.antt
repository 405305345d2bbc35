-- ===== src/Examples/Shutdown.antt =====
-- The server with an allocator, from its start to its end.
use irc.Common.{
  ℕ, suc, ◌<◌, true, false, ◌≡◌, refl, arith, List, [], ◌∷◌, some, Text, codes, leb, if◌then◌else◌,
  Bool-cases, inl, inr,
}
use irc.Common.Map.{find, put}
use irc.State.Names.Order.{name_order}
use irc.State.Client.{new_client}
use irc.State.Channel.{new_channel}
use irc.State.Server.{ServerState, channel_at, server_state}
use irc.State.Server.Links.{IsConsistent, channel_live, client_live}
use irc.Network.Server.{Server, new_server, accept_client, add_fd}
use irc.Network.Shutdown.{close_all_fds}
use irc.Network.Shutdown.Closing.{close_all_fds-closes}
use irc.Network.Server.Buffers.{received}
use irc.Network.Poll.{incoming}
use irc.Network.Run.Visits.{is_new}
use irc.Network.Watched.{IsWatched}
use irc.Network.Shutdown.Reached.{
  Reached, started, accepted, Reached-IsConsistent, Reached-IsWatched,
}

-- An address above all that the map of channels holds.
abbrev unused : List (Text × ℕ) → ℕ
unused [] = 0
unused ((_, q) ∷ m) = if leb (unused m) q then suc q else unused m

find-lt_unused :
    (n : Text) (m : List (Text × ℕ)) (q : ℕ) → find name_order n m ≡ some q → q < unused m
unfolding find
find-lt_unused n [] q h = cc
find-lt_unused n ((name, p) ∷ m) q h = ground (arith, h, find-lt_unused n m q)

abbrev pub allocator : ServerState → ℕ
allocator s = unused s.channels

pub allocator-fresh : (s : ServerState) → IsConsistent s → channel_live (allocator s) s ≡ false
allocator-fresh s w = elim (Bool-cases (channel_live (allocator s) s)) [
  | inr free ↦ free
  | inl taken ↦ absurd (
      omega (
        arith,
        find-lt_unused (channel_at (allocator s) s).name s.channels (allocator s)
            (w.linked.name_finds (allocator s) taken),
      ))
]

abbrev started_server : Server
started_server = new_server 3 (codes "secret") (λ _. new_client 0 []) (λ _. new_channel [])

abbrev pub one_connection : Server
one_connection = accept_client 4 (codes "10.0.0.1") 100 started_server

free_address : client_live 100 started_server.state ≡ false
unfolding new_server server_state
free_address = refl

new_descriptor : is_new (incoming 4 (codes "10.0.0.1") 100) started_server ≡ true
unfolding is_new new_server received find
new_descriptor = refl

pub one_connection-Reached :
    Reached allocator 3 (codes "secret") (λ _. new_client 0 []) (λ _. new_channel []) one_connection
one_connection-Reached =
    accepted 4 (codes "10.0.0.1") 100 started_server free_address new_descriptor started

Reached-IsConsistent_example : IsConsistent one_connection.state
Reached-IsConsistent_example =
    Reached-IsConsistent allocator 3 (codes "secret") (λ _. new_client 0 []) (λ _. new_channel [])
      allocator-fresh one_connection one_connection-Reached

Reached-IsWatched_example : IsWatched one_connection
Reached-IsWatched_example =
    Reached-IsWatched allocator 3 (codes "secret") (λ _. new_client 0 []) (λ _. new_channel [])
      one_connection one_connection-Reached

close_all_fds-closes_example :
    (v' : Server) × (close_all_fds 2 one_connection ≡ some v')
    × (v'.connections ≡ [])
    × (v'.pollfds ≡ [])
    × IsConsistent v'.state
unfolding new_server accept_client add_fd put
close_all_fds-closes_example =
    close_all_fds-closes 2 one_connection
      (Reached-IsConsistent allocator 3 (codes "secret") (λ _. new_client 0 [])
        (λ _. new_channel []) allocator-fresh one_connection one_connection-Reached)
      (omega arith)
