-- ===== src/Health/Laws.antt =====
-- PING, PONG and timeouts of src/lifecycle/ConnectionHealthMonitor.cpp.
use irc.Common.{
  ℕ, ◌+◌, true, not, ◌&&◌, ◌≡◌, refl, List, [], ◌∷◌, some, Text, arith, ltb, text_eq, ◌==◌, ==_iff,
  any, if◌then◌else◌, Option-cases, inl, inr,
}
use irc.Common.Map.{find, has, insert}
use irc.Common.Map.Keys.{nat_order, nat_same, find-put_nat, find-insert_nat}
use irc.Health.{
  HealthState, ConnectionHealthMonitor, health_state, get_or_create_state, write_state,
  generate_ping, make_ping_token, accept_pong, mark_pong_received, has_timed_out, timed_out_among,
  collect_timed_out_clients,
}

-- The entry of `g` once a state has been written for `fd`.
find-written :
    (g fd now : ℕ) (state : HealthState) (m : ConnectionHealthMonitor)
    → find nat_order g (write_state fd state (get_or_create_state fd now m).1).clients
      ≡ (if fd == g then some state else find nat_order g m.clients)
unfolding get_or_create_state write_state
find-written g fd now state m = elim (Option-cases (find nat_order fd m.clients)) [
  | inl absent ↦ ground (
    arith,
    absent,
    find-put_nat fd g state (insert nat_order fd (health_state now) m.clients),
    find-insert_nat fd g (health_state now) m.clients absent,
  )
  | inr (old, found) ↦ ground (arith, found, find-put_nat fd g state m.clients)
]

timeout-get_or_create_state :
    (fd now : ℕ) (m : ConnectionHealthMonitor)
    → (get_or_create_state fd now m).1.timeout_seconds ≡ m.timeout_seconds
unfolding get_or_create_state
timeout-get_or_create_state fd now m = ground arith

-- Who has timed out once a state has been written for `fd`.
written-has_timed_out :
    (g fd sent now : ℕ) (state : HealthState) (m : ConnectionHealthMonitor)
    → has_timed_out g now (write_state fd state (get_or_create_state fd sent m).1) ≡ (
        if fd == g
        then state.waiting_for_pong && ltb (state.last_ping_sent_at + m.timeout_seconds) now
        else has_timed_out g now m)
unfolding has_timed_out write_state
written-has_timed_out g fd sent now state m =
    ground (arith, find-written g fd sent state m, timeout-get_or_create_state fd sent m)

state-written :
    (fd sent received : ℕ) (state : HealthState) (m : ConnectionHealthMonitor)
    → (get_or_create_state fd received (write_state fd state (get_or_create_state fd sent m).1)).0
      ≡ state
unfolding write_state get_or_create_state
state-written fd sent received state m =
    rw (get_or_create_state, find-written fd fd sent state m, (==_iff fd fd).1 refl) refl

-- The state of a client just after its PING, and the timeout of the monitor.
pinged_state : ℕ → ℕ → ConnectionHealthMonitor → HealthState
pinged_state fd sent m = record (get_or_create_state fd sent m).0 {
  last_activity = sent;
  waiting_for_pong = true;
  last_ping_sent_at = sent;
  expected_pong_token = make_ping_token fd sent;
}

timeout-generate_ping :
    (fd sent : ℕ) (m : ConnectionHealthMonitor)
    → (generate_ping fd sent m).1.timeout_seconds ≡ m.timeout_seconds
unfolding generate_ping write_state
timeout-generate_ping fd sent m = timeout-get_or_create_state fd sent m

-- What the next command of the client finds.
state-pinged :
    (fd sent received : ℕ) (m : ConnectionHealthMonitor)
    → (get_or_create_state fd received (generate_ping fd sent m).1).0 ≡ pinged_state fd sent m
unfolding generate_ping pinged_state
state-pinged fd sent received m = state-written fd sent received (pinged_state fd sent m) m

-- After a PING at `sent`, a client has timed out at `now` exactly when more than the timeout has
-- passed; of the others nothing changes.
pub has_timed_out-generate_ping :
    (g fd sent now : ℕ) (m : ConnectionHealthMonitor)
    → has_timed_out g now (generate_ping fd sent m).1
      ≡ (if fd == g then ltb (sent + m.timeout_seconds) now else has_timed_out g now m)
unfolding generate_ping pinged_state
has_timed_out-generate_ping g fd sent now m =
    written-has_timed_out g fd sent now (pinged_state fd sent m) m

-- What a PONG leaves of a PING.
waiting-accept_pong :
    (fd sent received : ℕ) (token : Text) (m : ConnectionHealthMonitor)
    → (accept_pong token received (pinged_state fd sent m)).waiting_for_pong
      ≡ not (text_eq token (make_ping_token fd sent))
unfolding accept_pong pinged_state
waiting-accept_pong fd sent received token m = ground arith

sent-accept_pong :
    (token : Text) (received : ℕ) (state : HealthState)
    → (accept_pong token received state).last_ping_sent_at ≡ state.last_ping_sent_at
unfolding accept_pong
sent-accept_pong token received state = ground arith

-- After a PING at `sent` and a PONG with `token`, the client can time out exactly when the token is
-- not the one that the PING carried, and then exactly when more than the timeout has passed since
-- the PING; of the others nothing changes.
pub has_timed_out-mark_pong_received :
    (g fd sent received now : ℕ) (token : Text) (m : ConnectionHealthMonitor)
    → has_timed_out g now (mark_pong_received fd token received (generate_ping fd sent m).1) ≡ (
        if fd == g
        then not (text_eq token (make_ping_token fd sent)) && ltb (sent + m.timeout_seconds) now
        else has_timed_out g now m)
unfolding mark_pong_received pinged_state
has_timed_out-mark_pong_received g fd sent received now token m =
    rw (state-pinged fd sent received m) (
      ground (
        arith,
        written-has_timed_out g fd received now
            (accept_pong token received (pinged_state fd sent m)) (generate_ping fd sent m).1,
        waiting-accept_pong fd sent received token m,
        sent-accept_pong token received (pinged_state fd sent m),
        has_timed_out-generate_ping g fd sent now m,
        timeout-generate_ping fd sent m,
      ))

collect-among :
    (fd now : ℕ) (entries : List (ℕ × HealthState)) (m : ConnectionHealthMonitor)
    → any (λ g. g == fd) (timed_out_among entries now m)
      ≡ (has nat_order fd entries && has_timed_out fd now m)
unfolding timed_out_among find
collect-among fd now [] m = refl
collect-among fd now ((g, state) ∷ rest) m =
    ground (arith, collect-among fd now rest m, nat_same g fd)

-- The clients that the sweep collects are exactly those that have timed out.
pub any-collect_timed_out_clients :
    (fd now : ℕ) (m : ConnectionHealthMonitor)
    → any (λ g. g == fd) (collect_timed_out_clients now m) ≡ has_timed_out fd now m
unfolding collect_timed_out_clients has_timed_out
any-collect_timed_out_clients fd now m = ground (arith, collect-among fd now m.clients m)
