-- ===== src/Examples/Pings.antt =====
-- A client that is sent a PING, and one that is not.
use irc.Common.{false, ◌≡◌, codes, any, ◌==◌, text_eq}
use irc.Common.Decimal.{decimal}
use irc.Health.{
  ConnectionHealthMonitor, connection_health_monitor, update_activity, make_ping_token,
  generate_ping, mark_pong_received, has_timed_out, collect_timed_out_clients,
}
use irc.Health.Laws.{has_timed_out-mark_pong_received, any-collect_timed_out_clients}

abbrev pub two_clients : ConnectionHealthMonitor
two_clients = update_activity 5 1000 (update_activity 4 1000 (connection_health_monitor 120))

has_timed_out-mark_pong_received_example :
    has_timed_out 4 1621
      (mark_pong_received 4 (codes "irc.local-4-1500") 1501 (generate_ping 4 1500 two_clients).1)
    ≡ false
unfolding text_eq make_ping_token decimal
has_timed_out-mark_pong_received_example =
    has_timed_out-mark_pong_received 4 4 1500 1501 1621 (codes "irc.local-4-1500") two_clients

any-collect_timed_out_clients_example :
    any (λ g. g == 4) (collect_timed_out_clients 1621 (generate_ping 4 1500 two_clients).1)
    ≡ has_timed_out 4 1621 (generate_ping 4 1500 two_clients).1
any-collect_timed_out_clients_example =
    any-collect_timed_out_clients 4 1621 (generate_ping 4 1500 two_clients).1
