-- ===== src/Network/Server.antt =====
-- src/a/Server.cpp: the descriptors that poll() watches, the connections, and the way of a line from
-- a socket to the commands and of the replies to the sockets. `none` is a fault: a null connection.
pub mod Buffers
pub mod Queueing
pub mod Lines
pub mod Keeping
pub mod Agreed
pub mod Reading
pub mod Effect
use irc.Common.{
  ℕ, zero, suc, Bool, true, false, not, List, [], ◌∷◌, Option, none, some, Text, codes,
  if◌then◌else◌, length,
}
use irc.Common.Map.{find, put, erase}
use irc.Common.Map.Keys.{nat_order}
use irc.Network.Poll.{PollFd, with_fd, without_fd, with_pollout}
use irc.Health.{
  ConnectionHealthMonitor, connection_health_monitor, update_activity, collect_timed_out_clients,
}
use irc.Health
use irc.State.Client.{Client}
use irc.State.Channel.{Channel}
use irc.State.Server.{ServerState, server_state, add_client}
use irc.State.Server as State
use irc.Protocol.Parser.{parse}
use irc.Protocol.Result.{OutgoingMessage, CommandResult}
use irc.Command.Dispatch.{dispatch}
use irc.Command.Disconnect.{build}
use irc.Network.Connection.{
  Connection, Received, Sent, new_connection, is_line_too_long, read_from_socket, has_complete_line,
  pop_line, buffer_send, has_pending_output, write_to_socket,
}

pub record Server : Type 0 where
  pub listen_fd : ℕ
  pub pollfds : List PollFd
  pub connections : List (ℕ × Connection)
  pub state : ServerState
  pub health_monitor : ConnectionHealthMonitor

-- Server::Server(port, password), the listening socket being `listen_fd`.
unfoldable pub new_server : ℕ → Text → (ℕ → Client) → (ℕ → Channel) → Server
new_server listen_fd password clients channels = record {
  listen_fd = listen_fd;
  pollfds = with_fd listen_fd [];
  connections = [];
  state = server_state password clients channels;
  health_monitor = connection_health_monitor 30;
}

-- _addFd
unfoldable pub add_fd : ℕ → Server → Server
add_fd fd v = record v { pollfds = with_fd fd v.pollfds }

-- _removeFd
unfoldable pub remove_fd : ℕ → Server → Server
remove_fd fd v = record v { pollfds = without_fd fd v.pollfds }

-- _enablePollout and _disablePollout
unfoldable pub enable_pollout : ℕ → Server → Server
enable_pollout fd v = record v { pollfds = with_pollout true fd v.pollfds }

unfoldable pub disable_pollout : ℕ → Server → Server
disable_pollout fd v = record v { pollfds = with_pollout false fd v.pollfds }

-- A write to the connection of a descriptor.
abbrev pub store_connection : ℕ → Connection → Server → Server
store_connection fd c v = record v { connections = put nat_order fd c v.connections }

-- One reply of _enqueueReplies: a descriptor without a connection is passed over.
unfoldable pub enqueue_reply : OutgoingMessage → Server → Server
enqueue_reply m v = elim (find nat_order m.fd v.connections) [
  | none ↦ v
  | some c ↦ enable_pollout m.fd (store_connection m.fd (buffer_send m.message c) v)
]

-- _enqueueReplies
unfoldable pub enqueue_replies : List OutgoingMessage → Server → Server
enqueue_replies [] v = v
enqueue_replies (m ∷ ms) v = enqueue_replies ms (enqueue_reply m v)

-- _disconnectClient
unfoldable pub disconnect_client : ℕ → Server → Server
disconnect_client fd v =
    let removed = remove_fd fd v in
    let gone : Server = elim (find nat_order fd removed.connections) [
      | none ↦ removed
      | some _ ↦ record removed {
        connections = erase nat_order fd removed.connections;
        state = State.remove_client fd removed.state;
      }
    ] in
    record gone { health_monitor = Health.remove_client fd gone.health_monitor }

-- _notifyAndDisconnect
unfoldable pub notify_and_disconnect : ℕ → Text → Server → Server
notify_and_disconnect fd reason v =
    disconnect_client fd
      (enqueue_replies (build (record { fd = fd; reason = reason }) v.state).replies v)

unfoldable pub apply_command_result : CommandResult → ℕ → Server → Server
apply_command_result r source_fd v =
    let sent = enqueue_replies r.replies v in
    if r.should_disconnect then notify_and_disconnect source_fd (codes "Client Quit") sent else sent

-- _acceptClient: accept() has returned `fd`, a client from `host`, made at the address `p`.
unfoldable pub accept_client : ℕ → Text → ℕ → Server → Server
accept_client fd host p v =
    let watched = add_fd fd (store_connection fd (new_connection fd) v) in
    record watched { state = add_client fd host p watched.state }

abbrev pub monitor_or :
    ConnectionHealthMonitor → Option ConnectionHealthMonitor → ConnectionHealthMonitor
monitor_or m none = m
monitor_or m (some n) = n

-- One line, from the parser to the send buffers.
unfoldable pub handle_line : ℕ → Text → ℕ → ℕ → Server → CommandResult × Server
handle_line fd line now q v =
    let d = dispatch fd (parse line) now q v.state (some v.health_monitor) in
    let ran = record v {
      state = d.state;
      health_monitor = monitor_or v.health_monitor d.monitor;
    } in
    (d.result, apply_command_result d.result fd ran)

-- The allocator: the address that `new Channel` returns in a state.
module _ (new_channel : ServerState → ℕ) where
  -- One round of the loop of _handleRead, from what hasCompleteLine answers and leaves. `next` is the
  -- rounds that follow.
  unfoldable pub read_round :
      (Server → Option (Bool × Server))
      → ℕ
      → ℕ
      → Bool × Connection
      → Server
      → Option (Bool × Server)
  read_round next fd now (false, c) v = some (true, store_connection fd c v)
  read_round next fd now (true, c) v = elim (pop_line c) [
    | none ↦ none
    | some (line, rest) ↦
        let (result, v') =
          handle_line fd line now (new_channel v.state) (store_connection fd rest v) in
        elim result.should_disconnect [ true ↦ some (false, v') | false ↦ next v' ]
  ]

  -- The loop of _handleRead over the complete lines.
  unfoldable pub read_lines : ℕ → ℕ → ℕ → Server → Option (Bool × Server)
  read_lines zero fd now v = none
  read_lines (suc rounds) fd now v = elim (find nat_order fd v.connections) [
    | none ↦ none
    | some c ↦ read_round (read_lines rounds fd now) fd now (has_complete_line c) v
  ]

  -- The part of _handleRead after the bytes have been read: each line takes a byte at least.
  unfoldable pub handle_received : ℕ → ℕ → Connection → Server → Option (Bool × Server)
  handle_received fd now c v =
      let stored = store_connection fd c v in
      let active = record stored {
        health_monitor = update_activity fd now stored.health_monitor;
      } in
      if is_line_too_long c
      then some (false, stored)
      else read_lines (suc (length c.recv_buffer)) fd now active

  -- _handleRead
  unfoldable pub handle_read : Received → ℕ → ℕ → Server → Option (Bool × Server)
  handle_read received fd now v = elim (find nat_order fd v.connections) [
    | none ↦ none
    | some c ↦
        let (ok, c') = read_from_socket received c in
        if not ok then some (false, store_connection fd c' v) else handle_received fd now c' v
  ]

-- _handleWrite
unfoldable pub handle_write : Sent → ℕ → Server → Option (Bool × Server)
handle_write sent fd v = elim (find nat_order fd v.connections) [
  | none ↦ none
  | some c ↦
      let (ok, c') = write_to_socket sent c in
      let stored = store_connection fd c' v in
      if not ok
      then some (false, stored)
      else if not (has_pending_output c')
      then some (true, disable_pollout fd stored)
      else some (true, stored)
]

-- The loop at the end of a round of run().
unfoldable pub disconnect_timed_out : List ℕ → Server → Server
disconnect_timed_out [] v = v
disconnect_timed_out (fd ∷ fds) v =
    disconnect_timed_out fds (notify_and_disconnect fd (codes "Ping timeout") v)

unfoldable pub sweep : ℕ → Server → Server
sweep now v = disconnect_timed_out (collect_timed_out_clients now v.health_monitor) v
