-- ===== src/Network/Server/Effect/Handling.antt =====
-- What the handlers of src/a/Server.cpp for a line, for a readable and for a writable socket do to the
-- array of descriptors, to the connections and to the health monitor.
use irc.Common.{
  ℕ, text_eq, true, false, not, ◌||◌, ◌≡◌, refl, some, Text, arith, Option-cases, Bool-cases, inl,
  inr, ◌==◌, ==_iff, if◌then◌else◌, codes,
}
use irc.Common.Map.{find, has, insert}
use irc.Common.Map.Keys.{nat_order, find-put_nat, find-insert_nat}
use irc.Health.{
  ConnectionHealthMonitor, HealthState, get_or_create_state, write_state, update_activity,
  mark_pong_received, health_state,
}
use irc.State.Server.{ServerState, get_client_by_fd}
use irc.Protocol.Message.{Message, has_param}
use irc.Protocol.Parser.{parse}
use irc.Protocol.Result.{CommandResult}
use irc.Command.Dispatch.{handle_pong, dispatch_to, dispatch}
use irc.Network.Server.{Server, handle_line, apply_command_result, monitor_or, enqueue_replies}
use irc.Network.Server.Buffers.{received}
use irc.Network.Server.Lines.{connected}
use irc.Network.Server.Effect.{
  Effect, effects, pending, enqueue_replies-Effect, notify_and_disconnect-Effect,
}

-- The health monitor has a state for `g` only if it had one, or if `g` is `fd`.
abbrev GrowsAt : ℕ → ConnectionHealthMonitor → ConnectionHealthMonitor → Type 0
GrowsAt fd m m' =
    (g : ℕ) → (not (has nat_order g m'.clients) || has nat_order g m.clients || fd == g) ≡ true

created-GrowsAt :
    (fd now : ℕ) (state : HealthState) (m : ConnectionHealthMonitor)
    → GrowsAt fd m (write_state fd state (get_or_create_state fd now m).1)
unfolding write_state get_or_create_state
created-GrowsAt fd now state m g = elim (Option-cases (find nat_order fd m.clients)) [
  | inl absent ↦
      let made = insert nat_order fd (health_state now) m.clients in
      rw (write_state, get_or_create_state, absent)
        (ground (
          arith,
          find-put_nat fd g state made,
          find-insert_nat fd g (health_state now) m.clients absent,
        ))
  | inr (old, found) ↦
      rw (write_state, get_or_create_state, found)
        (ground (arith, find-put_nat fd g state m.clients))
]

pub update_activity-GrowsAt :
    (fd now : ℕ) (m : ConnectionHealthMonitor) → GrowsAt fd m (update_activity fd now m)
unfolding update_activity
update_activity-GrowsAt fd now m = created-GrowsAt fd now _ m

dispatch-GrowsAt :
    (fd : ℕ) (msg : Message) (now q : ℕ) (s : ServerState) (m : ConnectionHealthMonitor)
    → GrowsAt fd m (monitor_or m (dispatch fd msg now q s (some m)).monitor)
unfolding dispatch dispatch_to handle_pong mark_pong_received
dispatch-GrowsAt fd msg now q s m g = elim (Option-cases (get_client_by_fd fd s)) [
  | inl absent ↦ rw (dispatch, absent) (ground arith)
  | inr (p, found) ↦ elim (Bool-cases (text_eq msg.command (codes "PONG"))) [
    | inr other ↦ rw (dispatch, found, dispatch_to, other) (ground arith)
    | inl pong ↦ elim (Bool-cases (has_param 0 msg)) [
      | inr bare ↦ rw (dispatch, found, dispatch_to, pong, handle_pong, bare) (ground arith)
      | inl full ↦
          rw (dispatch, found, dispatch_to, pong, handle_pong, full) (created-GrowsAt fd now _ m g)
    ]
  ]
]

-- A change of the state of the server, and of the monitor at the descriptor of a connection.
pub changed-Effect :
    (fd : ℕ) (s : ServerState) (m : ConnectionHealthMonitor) (v : Server)
    → connected fd v ≡ true
    → GrowsAt fd v.health_monitor m
    → Effect fd false v (record v { state = s; health_monitor = m })
unfolding received pending
changed-Effect fd s m v known grows = record {
  listening = refl;
  entries = refl;
  connection = λ g. ground arith;
  monitor = λ g h. ground (arith, grows g, h, known, ==_iff fd g);
  flushed = λ listed flushed. flushed;
}

apply_command_result-Effect :
    (r : CommandResult) (fd : ℕ) (v : Server)
    → Effect fd r.should_disconnect v (apply_command_result r fd v)
unfolding apply_command_result
apply_command_result-Effect r fd v =
    let sent = enqueue_replies r.replies v in
    elim (Bool-cases r.should_disconnect) [
      | inl quits ↦
          rw (if◌then◌else◌, quits)
            (effects (enqueue_replies-Effect fd r.replies v)
              (notify_and_disconnect-Effect fd (codes "Client Quit") sent))
      | inr stays ↦ rw (if◌then◌else◌, stays) (enqueue_replies-Effect fd r.replies v)
    ]

-- A line takes its client away exactly when it asks to.
pub handle_line-Effect :
    (fd : ℕ) (line : Text) (now q : ℕ) (v : Server)
    → connected fd v ≡ true
    → Effect fd (handle_line fd line now q v).0.should_disconnect v (handle_line fd line now q v).1
unfolding handle_line
handle_line-Effect fd line now q v known =
    let d = dispatch fd (parse line) now q v.state (some v.health_monitor) in
    let m = monitor_or v.health_monitor d.monitor in
    effects
      (changed-Effect fd d.state m v known
        (dispatch-GrowsAt fd (parse line) now q v.state v.health_monitor))
      (apply_command_result-Effect d.result fd (record v { state = d.state; health_monitor = m }))
