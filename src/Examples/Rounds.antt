-- ===== src/Examples/Rounds.antt =====
-- A round of the server loop with a client that sends, one that is cut off, and one that comes.
use irc.Common.{
  ℕ, ◌+◌, inl, inr, false, true, ◌≡◌, ◌⊎◌, refl, [], ◌∷◌, ◌++◌, codes, ◌==◌, if◌then◌else◌, length,
}
use irc.Common.Map.{find, put, same}
use irc.State.Client.{new_client}
use irc.State.Channel.{new_channel}
use irc.Network.Connection.{bytes, end_of_stream}
use irc.Network.Poll.{Ready, no_events, blocking, incoming}
use irc.Network.Server.{Server, new_server, accept_client, add_fd}
use irc.Network.Server.Buffers.{received}
use irc.Network.Run.{done, thrown, poll_loop, polled, round}
use irc.Network.Run.Visits.{is_new}
use irc.Network.Run.Loop.{visit}
use irc.Network.Run.Rounds.{reported, poll_loop-visit, round-IsWatched}
use irc.Network.Shutdown.{Wait, returned, running, ended_by_exception, run}
use irc.Network.Shutdown as Shutdown
use irc.Network.Shutdown.Serving.{accepts_new, run-IsWatched}
use irc.Network.Watched.{IsWatched, new_server-IsWatched, accept_client-IsWatched}

abbrev silent_server : Server
silent_server = new_server 3 (codes "secret") (λ _. new_client 0 []) (λ _. new_channel [])

abbrev one_connection : Server
one_connection = accept_client 4 (codes "10.0.0.1") 100 silent_server

abbrev two_connections : Server
two_connections = accept_client 5 (codes "10.0.0.2") 200 one_connection

abbrev busy_reports : ℕ → Ready
busy_reports fd =
    if fd == 3
    then record no_events { pollin = true; accepted = incoming 6 (codes "10.0.0.3") 300 }
    else if fd == 4
    then record no_events {
      pollin = true;
      received = bytes (codes "PASS secret" ++ 13 ∷ 10 ∷ codes "NICK al");
    }
    else record no_events { pollin = true; pollout = true; broken = true; received = end_of_stream }

two_connections-IsWatched : IsWatched two_connections
unfolding new_server accept_client add_fd received find put same
two_connections-IsWatched =
    accept_client-IsWatched 5 (codes "10.0.0.2") 200 one_connection refl refl (
      accept_client-IsWatched 4 (codes "10.0.0.1") 100 silent_server refl refl
        (new_server-IsWatched 3 (codes "secret") (λ _. new_client 0 []) (λ _. new_channel [])))

busy_new : is_new (busy_reports 3).accepted two_connections ≡ true
unfolding is_new new_server accept_client add_fd received find put same
busy_new = refl

poll_loop-visit_example :
    poll_loop
      (λ _. 900)
      0
      (length two_connections.pollfds + 2)
      0
      (polled busy_reports two_connections)
    ≡ visit
        (λ _. 900)
        0
        (reported busy_reports two_connections.pollfds)
        (polled busy_reports two_connections)
unfolding new_server accept_client add_fd
poll_loop-visit_example =
    poll_loop-visit (λ _. 900) 0 busy_reports two_connections two_connections-IsWatched busy_new

busy_round :
    ((round (λ _. 900) 0 busy_reports two_connections ≡ thrown)
      × ((busy_reports 3).accepted ≡ blocking))
    ⊎ ((v' : Server) × (round (λ _. 900) 0 busy_reports two_connections ≡ done v') × IsWatched v')
unfolding new_server accept_client add_fd
busy_round =
    round-IsWatched (λ _. 900) 0 busy_reports two_connections two_connections-IsWatched busy_new

round-IsWatched_example :
    ((round (λ _. 900) 0 busy_reports two_connections ≡ thrown)
      × ((busy_reports 3).accepted ≡ blocking))
    ⊎ ((v' : Server) × (round (λ _. 900) 0 busy_reports two_connections ≡ done v') × IsWatched v')
unfolding new_server accept_client add_fd
round-IsWatched_example =
    round-IsWatched (λ _. 900) 0 busy_reports two_connections two_connections-IsWatched busy_new

abbrev busy_wait : Wait
busy_wait = record {
  stop_before = false;
  stop_after = false;
  polled = Shutdown.reported 0 busy_reports;
}

busy_accepts : accepts_new (λ _. 900) (busy_wait ∷ []) two_connections ≡ true
unfolding accepts_new new_server accept_client add_fd
busy_accepts = elim busy_round [
  | inl (stuck, why) ↦ rw (accepts_new, stuck, busy_new) refl
  | inr (v', well, watched) ↦ rw (accepts_new, well, busy_new) refl
]

run-IsWatched_example :
    ((v' : Server) × (run (λ _. 900) (busy_wait ∷ []) two_connections ≡ returned v') × IsWatched v')
    ⊎ (((v' : Server) × (run (λ _. 900) (busy_wait ∷ []) two_connections ≡ running v')
          × IsWatched v')
        ⊎ (run (λ _. 900) (busy_wait ∷ []) two_connections ≡ ended_by_exception))
run-IsWatched_example =
    run-IsWatched (λ _. 900) (busy_wait ∷ []) two_connections two_connections-IsWatched busy_accepts
