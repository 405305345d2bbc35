-- ===== src/Network/Server/Agreed.antt =====
-- The server state and the connections of src/a/Server.cpp agree, whatever is read from the sockets.
use irc.Common.{
  ℕ, List, some, true, false, ◌≡◌, refl, ◌∙◌, sym, subst, Text, arith, codes, Option-cases,
  Bool-cases, inl, inr, ◌==◌, ==_iff, if◌then◌else◌,
}
use irc.Common.Map.{find}
use irc.Common.Map.Keys.{nat_order}
use irc.State.Server.Links.{IsConsistent, channel_live}
use irc.State.Server.Known.{known, known-remove_client}
use irc.Protocol.Parser.{parse}
use irc.Protocol.Result.{CommandResult}
use irc.Command.Disconnect.{build}
use irc.Command.Dispatch.{dispatch}
use irc.Command.Consistency.Known.{IsKnownAs, IsKnownAs-Stable}
use irc.Command.Consistency.Run.{dispatch-keeps}
use irc.Network.Connection.{Connection}
use irc.Protocol.Result.{OutgoingMessage}
use irc.Network.Server.{
  Server, store_connection, enqueue_replies, remove_fd, disconnect_client, notify_and_disconnect,
  apply_command_result, handle_line, monitor_or,
}
use irc.Network.Server.Buffers.{received, received-enqueue_replies, received-disconnect_client}
use irc.Network.Server.Lines.{connected, connected-store_connection}
use irc.Network.Server.Keeping.{state-enqueue_replies, disconnect_client-IsConsistent}

-- The state is consistent, and its clients are those of the connections.
abbrev pub IsAgreed : Server → Type 0
IsAgreed v = IsKnownAs (λ g. connected g v) v.state

-- What changes neither the state nor which descriptors have connections keeps the agreement.
same-IsAgreed :
    (v v' : Server)
    → v'.state ≡ v.state
    → ((g : ℕ) → connected g v' ≡ connected g v)
    → IsAgreed v
    → IsAgreed v'
same-IsAgreed v v' same kept w = record {
  consistent = subst IsConsistent (sym same) w.consistent;
  known_as = λ g. subst (λ s. known g s ≡ connected g v') (sym same) (w.known_as g ∙ sym (kept g));
}

pub store_connection-IsAgreed :
    (fd : ℕ) (c : Connection) (v : Server)
    → connected fd v ≡ true
    → IsAgreed v
    → IsAgreed (store_connection fd c v)
store_connection-IsAgreed fd c v there w =
    same-IsAgreed v (store_connection fd c v) refl (λ g. connected-store_connection g fd c v there)
      w

enqueue_replies-IsAgreed :
    (ms : List OutgoingMessage) (v : Server) → IsAgreed v → IsAgreed (enqueue_replies ms v)
enqueue_replies-IsAgreed ms v w =
    same-IsAgreed v (enqueue_replies ms v) (state-enqueue_replies ms v)
      (λ g. ground (arith, received-enqueue_replies g ms v)) w

known-disconnect_client :
    (g fd : ℕ) (v : Server)
    → IsAgreed v
    → known g (disconnect_client fd v).state ≡ (if fd == g then false else known g v.state)
unfolding disconnect_client remove_fd received
known-disconnect_client g fd v w = elim (Option-cases (find nat_order fd v.connections)) [
  | inl absent ↦ rw (disconnect_client, absent) (ground (arith, absent, w.known_as fd, ==_iff fd g))
  | inr (c, found) ↦ rw (disconnect_client, found) (known-remove_client g fd v.state)
]

pub disconnect_client-IsAgreed :
    (fd : ℕ) (v : Server) → IsAgreed v → IsAgreed (disconnect_client fd v)
disconnect_client-IsAgreed fd v w = record {
  consistent = disconnect_client-IsConsistent fd v w.consistent;
  known_as = λ g.
      ground
        (arith, known-disconnect_client g fd v w, received-disconnect_client g fd v, w.known_as g);
}

pub notify_and_disconnect-IsAgreed :
    (fd : ℕ) (reason : Text) (v : Server)
    → IsAgreed v
    → IsAgreed (notify_and_disconnect fd reason v)
unfolding notify_and_disconnect
notify_and_disconnect-IsAgreed fd reason v w =
    let replies = (build (record { fd = fd; reason = reason }) v.state).replies in
    disconnect_client-IsAgreed fd (enqueue_replies replies v) (enqueue_replies-IsAgreed replies v w)

apply_command_result-IsAgreed :
    (r : CommandResult) (fd : ℕ) (v : Server) → IsAgreed v → IsAgreed (apply_command_result r fd v)
unfolding apply_command_result
apply_command_result-IsAgreed r fd v w =
    let sent = enqueue_replies-IsAgreed r.replies v w in
    elim (Bool-cases r.should_disconnect) [
      | inl quits ↦
          rw (if◌then◌else◌, quits)
            (notify_and_disconnect-IsAgreed fd (codes "Client Quit") (enqueue_replies r.replies v)
              sent)
      | inr stays ↦ rw (if◌then◌else◌, stays) sent
    ]

-- A line that is read from a socket keeps the agreement, also where it makes the server disconnect its
-- client; a channel it makes has an address at which no channel lives.
pub handle_line-IsAgreed :
    (fd : ℕ) (line : Text) (now q : ℕ) (v : Server)
    → IsAgreed v
    → channel_live q v.state ≡ false
    → IsAgreed (handle_line fd line now q v).1
unfolding handle_line received
handle_line-IsAgreed fd line now q v w fresh =
    let d = dispatch fd (parse line) now q v.state (some v.health_monitor) in
    let ran : Server = record v {
      state = d.state;
      health_monitor = monitor_or v.health_monitor d.monitor;
    } in
    apply_command_result-IsAgreed d.result fd ran (
      dispatch-keeps (IsKnownAs-Stable (λ g. connected g v)) fd (parse line) now q
        (some v.health_monitor) w fresh (λ _ _ _ _ _. tt))
