-- ===== src/Network/Watched.antt =====
-- The invariant of src/a/Server.cpp that ties the array of descriptors, the connections and the health
-- monitor together.
use irc.Common.{
  ℕ, Bool, true, false, ◌||◌, ◌≡◌, refl, ap, ◌∙◌, List, [], ◌∷◌, Text, any, arith, codes, ◌==◌,
  ==_iff, if◌then◌else◌,
}
use irc.Common.Map.{find}
use irc.Common.Map.Keys.{find-put_nat}
use irc.Health.{collect_timed_out_clients, has_timed_out}
use irc.Health.Laws.{any-collect_timed_out_clients}
use irc.State.Client.{Client}
use irc.State.Channel.{Channel}
use irc.Network.Connection.{new_connection, has_pending_output}
use irc.Network.Poll.{Ready, no_events, with_fd}
use irc.Network.Poll.Laws.{
  keys, times, keys-with_fd, times-append, times-with_reports, wants_out-with_reports,
  wants_out-with_fd, times-without,
}
use irc.Network.Server.{
  Server, new_server, accept_client, add_fd, disconnect_timed_out, notify_and_disconnect, sweep,
}
use irc.Network.Server.Buffers.{received, received-store_connection}
use irc.Network.Server.Lines.{connected}
use irc.Network.Server.Effect.{Effect, pending, monitored, AllFlushed, notify_and_disconnect-Effect}
use irc.Network.Run.{polled}

-- The listening socket is no connection; it and the descriptor of each connection are in the array of
-- poll() once, and nothing else is; only connections are monitored; and where output waits, poll()
-- is asked for POLLOUT.
pub record IsWatched (v : Server) : Type 0 where
  pub listening : connected v.listen_fd v ≡ false
  pub listed :
      (g : ℕ) → times g (keys v.pollfds) ≡ (if g == v.listen_fd || connected g v then 1 else 0)
  pub monitor : (g : ℕ) → monitored g v ≡ true → connected g v ≡ true
  pub flushed : AllFlushed v

pub new_server-IsWatched :
    (listen_fd : ℕ) (password : Text) (clients : ℕ → Client) (channels : ℕ → Channel)
    → IsWatched (new_server listen_fd password clients channels)
unfolding new_server with_fd times received pending find
new_server-IsWatched listen_fd password clients channels = record {
  listening = refl;
  listed = λ g. ground (arith, ==_iff listen_fd g, ==_iff g listen_fd);
  monitor = λ g h. ground arith;
  flushed = λ g h. ground arith;
}

pub Effect-IsWatched :
    {fd : ℕ} {gone : Bool} {v v' : Server}
    → Effect fd gone v v'
    → (fd == v.listen_fd) ≡ false
    → IsWatched v
    → IsWatched v'
Effect-IsWatched {fd} {gone} {v} {v'} e other w = record {
  listening = ground (arith, e.listening, e.connection v.listen_fd, w.listening);
  listed = λ g. ground (
    arith,
    e.listening,
    e.entries,
    e.connection g,
    w.listed g,
    times-without g fd (keys v.pollfds),
    other,
    ==_iff fd g,
    ==_iff g v.listen_fd,
    ==_iff fd v.listen_fd,
  );
  monitor = λ g h. ground (arith, e.connection g, e.monitor g h, w.monitor g, ==_iff fd g);
  flushed = e.flushed (λ g h. ground (arith, h, w.listed g)) w.flushed;
}

pub connected-accept_client :
    (g fd : ℕ) (host : Text) (p : ℕ) (v : Server)
    → connected g (accept_client fd host p v) ≡ (fd == g || connected g v)
unfolding accept_client received add_fd
connected-accept_client g fd host p v =
    ground (arith, received-store_connection g fd (new_connection fd) v)

pub accept_client-IsWatched :
    (fd : ℕ) (host : Text) (p : ℕ) (v : Server)
    → connected fd v ≡ false
    → (fd == v.listen_fd) ≡ false
    → IsWatched v
    → IsWatched (accept_client fd host p v)
unfolding accept_client add_fd pending new_connection has_pending_output times
accept_client-IsWatched fd host p v new other w = record {
  listening = ground (arith, connected-accept_client v.listen_fd fd host p v, w.listening, other);
  listed = λ g. ground (
    arith,
    connected-accept_client g fd host p v,
    keys-with_fd fd v.pollfds,
    times-append g (keys v.pollfds) ((fd, no_events) ∷ []),
    w.listed g,
    new,
    other,
    ==_iff fd g,
  );
  monitor = λ g h. ground (arith, h, connected-accept_client g fd host p v, w.monitor g);
  flushed = λ g h. ground (
    arith,
    h,
    w.flushed g,
    find-put_nat fd g (new_connection fd) v.connections,
    wants_out-with_fd g fd v.pollfds,
  );
}

pub polled-IsWatched :
    (reports : ℕ → Ready) (v : Server) → IsWatched v → IsWatched (polled reports v)
unfolding polled received pending
polled-IsWatched reports v w = record {
  listening = w.listening;
  listed = λ g. ground (arith, times-with_reports g reports v.pollfds, w.listed g);
  monitor = w.monitor;
  flushed = λ g h. ground (arith, h, w.flushed g, wants_out-with_reports g reports v.pollfds);
}

disconnect_timed_out-IsWatched :
    (fds : List ℕ) (v : Server)
    → any (λ fd. fd == v.listen_fd) fds ≡ false
    → IsWatched v
    → IsWatched (disconnect_timed_out fds v)
unfolding disconnect_timed_out
disconnect_timed_out-IsWatched [] v others w = w
disconnect_timed_out-IsWatched (fd ∷ fds) v others w =
    let e = notify_and_disconnect-Effect fd (codes "Ping timeout") v in
    disconnect_timed_out-IsWatched fds (notify_and_disconnect fd (codes "Ping timeout") v)
      (ap (λ l. any (λ g. g == l) fds) e.listening ∙ (ground (arith, others)))
      (Effect-IsWatched e (ground (arith, others)) w)

timed_out-monitored :
    (g now : ℕ) (v : Server) → has_timed_out g now v.health_monitor ≡ true → monitored g v ≡ true
unfolding has_timed_out
timed_out-monitored g now v h = ground (arith, h)

-- The sweep takes connections only.
pub sweep-IsWatched : (now : ℕ) (v : Server) → IsWatched v → IsWatched (sweep now v)
unfolding sweep
sweep-IsWatched now v w =
    disconnect_timed_out-IsWatched (collect_timed_out_clients now v.health_monitor) v
      (ground (
        arith,
        any-collect_timed_out_clients v.listen_fd now v.health_monitor,
        timed_out-monitored v.listen_fd now v,
        w.monitor v.listen_fd,
        w.listening,
      ))
      w
