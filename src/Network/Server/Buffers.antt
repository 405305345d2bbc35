-- ===== src/Network/Server/Buffers.antt =====
-- What the operations of src/a/Server.cpp leave in the receive buffers of the connections.
use irc.Common.{
  ℕ, ◌&&◌, ◌≡◌, refl, List, [], ◌∷◌, Option, none, some, Text, arith, ◌==◌, if◌then◌else◌,
  Option-cases, inl, inr, codes,
}
use irc.Common.Map.{find}
use irc.Common.Map.Keys.{nat_order, find-put_nat, find-erase_nat}
use irc.Protocol.Result.{OutgoingMessage, CommandResult}
use irc.Protocol.Parser.{parse}
use irc.Command.Dispatch.{dispatch}
use irc.Command.Disconnect.{build}
use irc.Network.Connection.{Connection, buffer_send}
use irc.Network.Server.{
  Server, store_connection, enable_pollout, enqueue_reply, enqueue_replies, disconnect_client,
  notify_and_disconnect, apply_command_result, remove_fd, handle_line, monitor_or,
}

-- The bytes that wait on the connection of a descriptor; `none` if it has no connection.
unfoldable pub received : ℕ → Server → Option Text
received g v = elim (find nat_order g v.connections) [ none ↦ none | some c ↦ some c.recv_buffer ]

pub received-store_connection :
    (g fd : ℕ) (c : Connection) (v : Server)
    → received g (store_connection fd c v) ≡ (if fd == g then some c.recv_buffer else received g v)
unfolding received
received-store_connection g fd c v = ground (arith, find-put_nat fd g c v.connections)

pub received-enqueue_reply :
    (g : ℕ) (m : OutgoingMessage) (v : Server) → received g (enqueue_reply m v) ≡ received g v
unfolding received enqueue_reply enable_pollout buffer_send
received-enqueue_reply g m v = elim (Option-cases (find nat_order m.fd v.connections)) [
  | inl absent ↦ rw (enqueue_reply, absent) refl
  | inr (c, found) ↦
      ground (arith, found, find-put_nat m.fd g (buffer_send m.message c) v.connections)
]

pub received-enqueue_replies :
    (g : ℕ) (ms : List OutgoingMessage) (v : Server)
    → received g (enqueue_replies ms v) ≡ received g v
unfolding enqueue_replies
received-enqueue_replies g [] v = refl
received-enqueue_replies g (m ∷ ms) v =
    ground (arith, received-enqueue_replies g ms (enqueue_reply m v), received-enqueue_reply g m v)

pub received-disconnect_client :
    (g fd : ℕ) (v : Server)
    → received g (disconnect_client fd v) ≡ (if fd == g then none else received g v)
unfolding received disconnect_client remove_fd
received-disconnect_client g fd v = elim (Option-cases (find nat_order fd v.connections)) [
  | inl absent ↦ rw absent (ground (arith, absent))
  | inr (c, found) ↦ ground (arith, found, find-erase_nat fd g v.connections)
]

pub received-notify_and_disconnect :
    (g fd : ℕ) (reason : Text) (v : Server)
    → received g (notify_and_disconnect fd reason v) ≡ (if fd == g then none else received g v)
unfolding notify_and_disconnect
received-notify_and_disconnect g fd reason v =
    let replies = (build (record { fd = fd; reason = reason }) v.state).replies in
    ground (
      arith,
      received-disconnect_client g fd (enqueue_replies replies v),
      received-enqueue_replies g replies v,
    )

received-apply_command_result :
    (g : ℕ) (r : CommandResult) (fd : ℕ) (v : Server)
    → received g (apply_command_result r fd v)
      ≡ (if r.should_disconnect && fd == g then none else received g v)
unfolding apply_command_result
received-apply_command_result g r fd v = ground (
  arith,
  received-notify_and_disconnect g fd (codes "Client Quit") (enqueue_replies r.replies v),
  received-enqueue_replies g r.replies v,
)

-- A line changes no receive buffer, but a line that asks to disconnect takes the client's connection.
pub received-handle_line :
    (g fd : ℕ) (line : Text) (now q : ℕ) (v : Server)
    → received g (handle_line fd line now q v).1 ≡ (
        if (handle_line fd line now q v).0.should_disconnect && fd == g then none else received g v)
unfolding handle_line received
received-handle_line g fd line now q v =
    let d = dispatch fd (parse line) now q v.state (some v.health_monitor) in
    let ran : Server = record v {
      state = d.state;
      health_monitor = monitor_or v.health_monitor d.monitor;
    } in
    received-apply_command_result g d.result fd ran
