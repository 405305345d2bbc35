-- ===== src/Network/Run.antt =====
-- run() of src/a/Server.cpp: one round over the array of descriptors after poll() has answered. What
-- the system calls return for a descriptor is part of its report.
pub mod Visits
pub mod Turns
pub mod Passing
pub mod Loop
pub mod Rounds
pub mod Progress
pub mod Keeping
use irc.Common.{
  ℕ, zero, suc, ◌+◌, Bool, true, false, not, [], ◌∷◌, Option, none, some, codes, ◌==◌,
  if◌then◌else◌, length, drop,
}
use irc.Common.Map.{has}
use irc.Common.Map.Keys.{nat_order}
use irc.State.Server.{ServerState}
use irc.Network.Poll.{Accepted, refused, blocking, incoming, Ready, is_quiet, with_reports}
use irc.Network.Server.{
  Server, accept_client, handle_read, handle_write, notify_and_disconnect, sweep,
}

-- (4) of the round. The flag says that the index of the loop has been set back.
unfoldable pub check_broken : ℕ → Ready → Server → Bool × Server
check_broken fd r v =
    if r.broken then (true, notify_and_disconnect fd (codes "Connection reset") v) else (false, v)

-- (3) of the round
unfoldable pub check_write : ℕ → Ready → Server → Option (Bool × Server)
unfolding check_broken
check_write fd r v =
    if not r.pollout then some (check_broken fd r v) else elim (handle_write r.sent fd v) [
      | none ↦ none
      | some (true, v') ↦ some (check_broken fd r v')
      | some (false, v') ↦ some (true, notify_and_disconnect fd (codes "Connection reset") v')
    ]

-- A read that failed: unless QUIT has disconnected the client already.
unfoldable pub read_failed : ℕ → Server → Server
read_failed fd v =
    if has nat_order fd v.connections
    then notify_and_disconnect fd (codes "Connection reset") v
    else v

-- What a part of the round comes to: it is done, an exception leaves run(), or it meets a null
-- connection.
pub data Result {ℓ} (A : Type ℓ) : Type ℓ where
  done : A → Result A
  thrown : Result A
  faulted : Result A

-- _acceptClient, from what accept() and fcntl() return.
unfoldable pub accepting : Accepted → Server → Result (Bool × Server)
accepting refused v = done (false, v)
accepting blocking v = thrown
accepting (incoming fd host p) v = done (false, accept_client fd host p v)

-- poll() writes its reports into the array.
unfoldable pub polled : (ℕ → Ready) → Server → Server
polled reports v = record v { pollfds = with_reports reports v.pollfds }

module _ (new_channel : ServerState → ℕ) (now : ℕ) where
  -- (2) of the round
  unfoldable pub check_read : ℕ → Ready → Server → Option (Bool × Server)
  unfolding check_write read_failed
  check_read fd r v =
      if not r.pollin
      then check_write fd r v
      else elim (handle_read new_channel r.received fd now v) [
        | none ↦ none
        | some (true, v') ↦ check_write fd r v'
        | some (false, v') ↦ some (true, read_failed fd v')
      ]

  -- The body of the loop, for a descriptor and its report.
  unfoldable pub check_fd : ℕ → Ready → Server → Result (Bool × Server)
  unfolding check_read accepting
  check_fd fd r v =
      if is_quiet r
      then done (false, v)
      else if fd == v.listen_fd
      then (if r.pollin then accepting r.accepted v else done (false, v))
      else elim (check_read fd r v) [ none ↦ faulted | some x ↦ done x ]

  -- The loop over the indices of `_pollfds`, which grows and shrinks meanwhile. That the turns run out
  -- is a fault of the model.
  unfoldable pub poll_loop : ℕ → ℕ → Server → Result Server
  poll_loop zero i v = faulted
  poll_loop (suc turns) i v =
      let further = poll_loop turns in
      elim (drop i v.pollfds) [
        | [] ↦ done v
        | e ∷ _ ↦ elim (check_fd e.fd e.revents v) [
          | done (true, v') ↦ further i v'
          | done (false, v') ↦ further (suc i) v'
          | thrown ↦ thrown
          | faulted ↦ faulted
        ]
      ]

  -- The loop after poll() has answered, and the loop over those who have not answered their PING. One
  -- client at most comes, so that one turn for each entry, one for it and one at the end are enough.
  unfoldable pub round : (ℕ → Ready) → Server → Result Server
  unfolding poll_loop polled
  round reports v = elim (poll_loop (length v.pollfds + 2) 0 (polled reports v)) [
    | done v' ↦ done (sweep now v')
    | thrown ↦ thrown
    | faulted ↦ faulted
  ]
