-- ===== src/Health.antt =====
-- src/lifecycle/ConnectionHealthMonitor.cpp: which clients have answered their PING. Times are
-- seconds since the epoch; std::time(NULL) is the argument `now`.
pub mod Laws
use irc.Common.{
  ℕ, ◌+◌, Bool, true, false, ◌&&◌, List, [], ◌∷◌, ◌++◌, none, some, Text, codes, ltb, text_eq,
  if◌then◌else◌,
}
use irc.Common.Decimal.{decimal}
use irc.Common.Map.{find, put, insert, erase}
use irc.Common.Map.Keys.{nat_order}
use irc.Protocol.Result.{CommandResult, no_result, add_reply}
use irc.Protocol.Replies.{ping}

pub record HealthState : Type 0 where
  pub last_activity : ℕ
  pub waiting_for_pong : Bool
  pub last_ping_sent_at : ℕ
  pub last_pong_received_at : ℕ
  pub expected_pong_token : Text

-- HealthState::HealthState(activityTime)
abbrev pub health_state : ℕ → HealthState
health_state activity_time = record {
  last_activity = activity_time;
  waiting_for_pong = false;
  last_ping_sent_at = 0;
  last_pong_received_at = 0;
  expected_pong_token = [];
}

pub record ConnectionHealthMonitor : Type 0 where
  pub timeout_seconds : ℕ
  pub clients : List (ℕ × HealthState)

abbrev pub default_timeout_seconds : ℕ
default_timeout_seconds = 120

-- ConnectionHealthMonitor::ConnectionHealthMonitor(timeoutSeconds)
abbrev pub connection_health_monitor : ℕ → ConnectionHealthMonitor
connection_health_monitor timeout_seconds = record {
  timeout_seconds = timeout_seconds;
  clients = [];
}

unfoldable pub get_or_create_state :
    ℕ → ℕ → ConnectionHealthMonitor → HealthState × ConnectionHealthMonitor
get_or_create_state fd now m = elim (find nat_order fd m.clients) [
  | some state ↦ (state, m)
  | none ↦
      (health_state now, record m { clients = insert nat_order fd (health_state now) m.clients })
]

-- A write through the reference that getOrCreateState returns.
unfoldable pub write_state : ℕ → HealthState → ConnectionHealthMonitor → ConnectionHealthMonitor
write_state fd state m = record m { clients = put nat_order fd state m.clients }

unfoldable pub update_activity : ℕ → ℕ → ConnectionHealthMonitor → ConnectionHealthMonitor
update_activity fd now m =
    let (state, m') = get_or_create_state fd now m in
    write_state fd (record state { last_activity = now }) m'

unfoldable pub make_ping_token : ℕ → ℕ → Text
make_ping_token fd now = codes "irc.local-" ++ decimal fd ++ codes "-" ++ decimal now

unfoldable pub generate_ping :
    ℕ → ℕ → ConnectionHealthMonitor → CommandResult × ConnectionHealthMonitor
generate_ping fd now m =
    let (state, m') = get_or_create_state fd now m in
    let token = make_ping_token fd now in
    (
      add_reply fd (ping token) no_result,
      write_state fd
          (record state {
            last_activity = now;
            waiting_for_pong = true;
            last_ping_sent_at = now;
            expected_pong_token = token;
          })
          m',
    )

-- What a PONG with `token` makes of the state of its client.
unfoldable pub accept_pong : Text → ℕ → HealthState → HealthState
accept_pong token now state =
    if state.waiting_for_pong && text_eq token state.expected_pong_token
    then record state {
      last_activity = now;
      waiting_for_pong = false;
      last_pong_received_at = now;
      expected_pong_token = [];
    }
    else record state { last_activity = now }

unfoldable pub mark_pong_received : ℕ → Text → ℕ → ConnectionHealthMonitor → ConnectionHealthMonitor
mark_pong_received fd token now m =
    let (state, m') = get_or_create_state fd now m in
    write_state fd (accept_pong token now state) m'

-- difftime(now, lastPingSentAt) > timeout
unfoldable pub has_timed_out : ℕ → ℕ → ConnectionHealthMonitor → Bool
has_timed_out fd now m = elim (find nat_order fd m.clients) [
  | none ↦ false
  | some state ↦ state.waiting_for_pong && ltb (state.last_ping_sent_at + m.timeout_seconds) now
]

-- The loop of collectTimedOutClients.
unfoldable pub timed_out_among : List (ℕ × HealthState) → ℕ → ConnectionHealthMonitor → List ℕ
timed_out_among [] now m = []
timed_out_among ((fd, state) ∷ rest) now m =
    let others = timed_out_among rest now m in
    if has_timed_out fd now m then fd ∷ others else others

unfoldable pub collect_timed_out_clients : ℕ → ConnectionHealthMonitor → List ℕ
unfolding timed_out_among
collect_timed_out_clients now m = timed_out_among m.clients now m

unfoldable pub remove_client : ℕ → ConnectionHealthMonitor → ConnectionHealthMonitor
remove_client fd m = record m { clients = erase nat_order fd m.clients }

unfoldable pub is_waiting_for_pong : ℕ → ConnectionHealthMonitor → Bool
is_waiting_for_pong fd m = elim (find nat_order fd m.clients) [
  | none ↦ false
  | some state ↦ state.waiting_for_pong
]

unfoldable pub get_expected_pong_token : ℕ → ConnectionHealthMonitor → Text
get_expected_pong_token fd m = elim (find nat_order fd m.clients) [
  | none ↦ []
  | some state ↦ state.expected_pong_token
]
