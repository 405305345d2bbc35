-- ===== src/Network/Shutdown.antt =====
-- The end of src/a/Server.cpp: _closeAllFds, which the destructor calls, and the loop of run() until the
-- signal to shut down.
pub mod Closing
pub mod Reached
pub mod Serving
use irc.Common.{ℕ, zero, suc, Bool, List, [], ◌∷◌, Option, none, some, if◌then◌else◌}
use irc.State.Server.{ServerState}
use irc.Network.Connection.{Connection}
use irc.Network.Server.{Server, remove_fd, disconnect_client}
use irc.Network.Poll.{Ready}
use irc.Network.Run.{done, thrown, faulted, round}

-- A round of the loop of _closeAllFds: the first of the connections goes. `next` is the rounds that follow.
unfoldable pub close_first :
    (Server → Option Server) → List (ℕ × Connection) → Server → Option Server
close_first next [] v = some v
close_first next ((fd, _) ∷ _) v = next (disconnect_client fd v)

-- The loop of _closeAllFds. `none` means that the rounds ran out.
unfoldable pub close_connections : ℕ → Server → Option Server
unfolding close_first
close_connections zero v = none
close_connections (suc rounds) v = close_first (close_connections rounds) v.connections v

-- The end of _closeAllFds. That the listening descriptor is closed is not part of the model's state.
unfoldable pub close_listening : Server → Server
unfolding remove_fd
close_listening v = record (remove_fd v.listen_fd v) { pollfds = [] }

unfoldable pub close_all_fds : ℕ → Server → Option Server
unfolding close_connections close_listening
close_all_fds rounds v = elim (close_connections rounds v) [
  | none ↦ none
  | some v' ↦ some (close_listening v')
]

-- How poll() returns, and whether the signal to shut down has come before it is called and before its
-- answer is used.
pub data Polled : Type 0 where
  interrupted failed : Polled
  -- the time, and the reports by descriptor
  reported : ℕ → (ℕ → Ready) → Polled

pub record Wait : Type 0 where
  pub stop_before : Bool
  pub stop_after : Bool
  pub polled : Polled

-- How run() ends: it returns, throws, or meets a fault; or what is given of the time is over.
pub data Ended : Type 0 where
  returned running : Server → Ended
  ended_by_exception ended_by_fault : Ended

unfoldable pub run : (ServerState → ℕ) → List Wait → Server → Ended
run new_channel [] v = running v
run new_channel (w ∷ ws) v =
    let again = run new_channel ws v in
    let next = λ (v' : Server). run new_channel ws v' in
    if w.stop_before then returned v else elim w.polled [
      | interrupted ↦ if w.stop_after then returned v else again
      | failed ↦ ended_by_exception
      | reported now reports ↦
          if w.stop_after then returned v else elim (round new_channel now reports v) [
            | done v' ↦ next v'
            | thrown ↦ ended_by_exception
            | faulted ↦ ended_by_fault
          ]
    ]
