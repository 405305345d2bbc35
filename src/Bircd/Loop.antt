-- ===== src/Bircd/Loop.antt =====
-- init_fd.c, check_fd.c and main_loop.c of bircd.
pub mod Polling
pub mod Reuse
use irc.Common.{
  ℕ, zero, suc, ◌+◌, Bool, true, false, not, List, [], ◌∷◌, ◌++◌, Option, none, some, leb, ltb,
  if◌then◌else◌, length,
}
use irc.Network.Connection.{Received, Sent}
use irc.Bircd.Memory.{ft_strlen}
use irc.Bircd.Fd.{
  Fd, fd_client, fd_free, fd_serv, srv_accept_fct, client_read_fct, client_write_fct, max_clients,
  fd_at, srv_accept,
}
use irc.Bircd.Client.{client_read, client_write}

-- An entry of pollfds: POLLIN is always asked for.
pub record PollFd : Type 0 where
  pub fd : ℕ
  pub pollout : Bool

-- How init_fd ends.
pub data Built : Type 0 where
  out_of_rounds out_of_array : Built
  built : List PollFd → Built

unfoldable pub is_free : Fd → Bool
is_free f = elim f.type [ fd_free ↦ true | fd_serv ↦ false | fd_client ↦ false ]

unfoldable pub poll_entry : ℕ → Fd → Option PollFd
poll_entry i f = elim (ft_strlen f.buf_write) [
  | none ↦ none
  | some n ↦ some (record { fd = i; pollout = ltb 0 n })
]

-- The loop of init_fd from descriptor `i`, with the entries so far. A round on a full array does not go
-- on to the next descriptor.
unfoldable pub init_fd_loop : ℕ → ℕ → List PollFd → List Fd → Built
unfolding is_free poll_entry
init_fd_loop zero i pollfds fds = out_of_rounds
init_fd_loop (suc rounds) i pollfds [] = built pollfds
init_fd_loop (suc rounds) i pollfds (f ∷ fs) =
    let again = init_fd_loop rounds i pollfds (f ∷ fs) in
    let next = λ (entries : List PollFd). init_fd_loop rounds (suc i) entries fs in
    if is_free f
    then next pollfds
    else if leb (max_clients + 1) (length pollfds)
    then again
    else elim (poll_entry i f) [ none ↦ out_of_array | some p ↦ next (pollfds ++ p ∷ []) ]

unfoldable pub init_fd : ℕ → List Fd → Built
unfolding init_fd_loop
init_fd rounds fds = init_fd_loop rounds 0 [] fds

-- What accept(), recv() and send() return when they are called for a descriptor.
pub record Answers : Type 0 where
  pub accept : ℕ
  pub recv : ℕ → Received
  pub send : ℕ → Sent

-- What poll() reports of an entry.
pub record Event : Type 0 where
  pub fd : ℕ
  pub pollin : Bool
  pub pollout : Bool
  pub answers : Answers

-- The call of fct_read. `none` is a call of NULL, or an access outside of an array.
unfoldable pub call_read : Event → List Fd → Option (List Fd)
unfolding client_read srv_accept
call_read e fds = elim (fd_at e.fd fds) [
  | none ↦ none
  | some f ↦ elim f.fct_read [
    | none ↦ none
    | some srv_accept_fct ↦ srv_accept e.answers.accept fds
    | some client_read_fct ↦ client_read e.answers.recv e.fd fds
  ]
]

unfoldable pub call_write : Event → List Fd → Option (List Fd)
unfolding client_write
call_write e fds = elim (fd_at e.fd fds) [
  | none ↦ none
  | some f ↦ elim f.fct_write [
    | none ↦ none
    | some client_write_fct ↦ client_write e.answers.send e.fd fds
  ]
]

unfoldable pub check_write : Event → List Fd → Option (List Fd)
check_write e fds = if e.pollout then call_write e fds else some fds

unfoldable pub check_event : Event → List Fd → Option (List Fd)
unfolding check_write
check_event e fds =
    if not e.pollin
    then check_write e fds
    else elim (call_read e fds) [ none ↦ none | some fds' ↦ check_write e fds' ]

unfoldable pub check_fd : List Event → List Fd → Option (List Fd)
unfolding check_event
check_fd [] fds = some fds
check_fd (e ∷ es) fds = elim (check_event e fds) [ none ↦ none | some fds' ↦ check_fd es fds' ]

-- A round of main_loop, with the rounds that init_fd is given; `poll` is what poll() reports.
unfoldable pub main_round : ℕ → (List PollFd → List Event) → List Fd → Option (List Fd)
unfolding init_fd check_fd
main_round rounds poll fds = elim (init_fd rounds fds) [
  | out_of_rounds ↦ none
  | out_of_array ↦ none
  | built pollfds ↦ check_fd (poll pollfds) fds
]
