-- ===== src/Network/Server/Effect.antt =====
-- What an operation of src/a/Server.cpp on one client does to the array of descriptors, to the
-- connections and to the health monitor.
pub mod Handling
pub mod Reading
pub mod Writing
pub mod Checks
use irc.Common.{
  ℕ, Bool, true, false, not, ◌&&◌, ◌||◌, ◌≡◌, refl, List, [], ◌∷◌, Text, arith, ap, ◌∙◌,
  Option-cases, ◌==◌, ==_iff, if◌then◌else◌, Bool-cases, inl, inr, none, some,
}
use irc.Common.Map.{find, has}
use irc.Common.Map.Keys.{nat_order, find-put_nat, find-erase_nat}
use irc.Health
use irc.Protocol.Result.{OutgoingMessage}
use irc.Command.Disconnect.{build}
use irc.Network.Connection.{Connection, buffer_send, has_pending_output}
use irc.Network.Poll.{without_fd}
use irc.Network.Poll.Laws.{
  keys, without, times, wants_out, keys-with_pollout, keys-without_fd, times-without,
  wants_out-without_fd, wants_out-with_pollout, wants_out-enabled,
}
use irc.Network.Server.{
  Server, store_connection, enable_pollout, remove_fd, enqueue_reply, enqueue_replies,
  disconnect_client, notify_and_disconnect,
}
use irc.Network.Server.Buffers.{received, received-disconnect_client}
use irc.Network.Server.Lines.{connected, connected-store_connection}

-- Output waits on the connection of a descriptor.
unfoldable pub pending : ℕ → Server → Bool
pending g v = elim (find nat_order g v.connections) [ none ↦ false | some c ↦ has_pending_output c ]

-- The health monitor has a state for the descriptor.
abbrev pub monitored : ℕ → Server → Bool
monitored g v = has nat_order g v.health_monitor.clients

-- Every connection is in the array, once.
abbrev pub AllListed : Server → Type 0
AllListed v = (g : ℕ) → connected g v ≡ true → times g (keys v.pollfds) ≡ 1

-- Every connection with output that waits is watched for writing.
abbrev pub AllFlushed : Server → Type 0
AllFlushed v = (g : ℕ) → pending g v ≡ true → wants_out g v.pollfds ≡ true

-- From `v` to `v'`, the descriptor `fd` is taken out of the array and of the connections if `gone`
-- says so, and no other is; none but `fd` becomes monitored; and output that waits is watched for.
pub record Effect (fd : ℕ) (gone : Bool) (v v' : Server) : Type 0 where
  pub listening : v'.listen_fd ≡ v.listen_fd
  pub entries : keys v'.pollfds ≡ (if gone then without fd (keys v.pollfds) else keys v.pollfds)
  pub connection : (g : ℕ) → connected g v' ≡ (connected g v && not (gone && fd == g))
  pub monitor :
      (g : ℕ)
      → monitored g v' ≡ true
      → ((monitored g v || fd == g && connected g v) && not (gone && fd == g)) ≡ true
  pub flushed : AllListed v → AllFlushed v → AllFlushed v'

-- What is listed stays listed.
pub listed-kept :
    {fd : ℕ} {gone : Bool} {v v' : Server} → Effect fd gone v v' → AllListed v → AllListed v'
listed-kept {fd} {gone} {v} {v'} e listed g h = elim (Bool-cases gone) [
  | inl left ↦
      ground
        (arith, listed g, e.entries, e.connection g, h, left, times-without g fd (keys v.pollfds))
  | inr stays ↦ ground (arith, listed g, e.entries, e.connection g, h, stays)
]

pub Effect-refl : (fd : ℕ) (v : Server) → Effect fd false v v
Effect-refl fd v = record {
  listening = refl;
  entries = refl;
  connection = λ g. ground arith;
  monitor = λ g h. ground arith;
  flushed = λ listed flushed. flushed;
}

pub effects :
    {fd : ℕ} {gone : Bool} {v u w : Server}
    → Effect fd false v u
    → Effect fd gone u w
    → Effect fd gone v w
effects {fd} {gone} {v} {u} {w} a b = record {
  listening = b.listening ∙ a.listening;
  entries = b.entries ∙ ap (λ ks. if gone then without fd ks else ks) a.entries;
  connection = λ g. ground (arith, a.connection g, b.connection g);
  monitor = λ g h. ground (arith, a.connection g, a.monitor g, b.monitor g h);
  flushed = λ listed flushed. b.flushed (listed-kept a listed) (a.flushed listed flushed);
}

-- A store to a connection that there is, which adds no output.
pub store_connection-Effect :
    (fd : ℕ) (c : Connection) (v : Server)
    → connected fd v ≡ true
    → (not (has_pending_output c) || pending fd v) ≡ true
    → Effect fd false v (store_connection fd c v)
unfolding pending
store_connection-Effect fd c v known less = record {
  listening = refl;
  entries = refl;
  connection = λ g. ground (arith, connected-store_connection g fd c v known);
  monitor = λ g h. ground arith;
  flushed = λ listed flushed g h.
      ground (arith, h, less, flushed g, find-put_nat fd g c v.connections, ==_iff fd g);
}

pub enqueue_reply-Effect :
    (fd : ℕ) (m : OutgoingMessage) (v : Server) → Effect fd false v (enqueue_reply m v)
unfolding enqueue_reply enable_pollout pending buffer_send received
enqueue_reply-Effect fd m v = elim (Option-cases (find nat_order m.fd v.connections)) [
  | inl absent ↦ rw (enqueue_reply, absent) (Effect-refl fd v)
  | inr (c, found) ↦
      let sent = buffer_send m.message c in
      rw (enqueue_reply, found)
        (record {
          listening = refl;
          entries = keys-with_pollout true m.fd v.pollfds;
          connection =
              λ g. ground (arith, find-put_nat m.fd g sent v.connections, found, ==_iff m.fd g);
          monitor = λ g h. ground arith;
          flushed = λ listed flushed g h. elim (Bool-cases (m.fd == g)) [
            | inl same ↦
                ground
                  (arith, wants_out-enabled m.fd v.pollfds, listed m.fd, found, same, ==_iff m.fd g)
            | inr other ↦ ground (
              arith,
              h,
              other,
              flushed g,
              find-put_nat m.fd g sent v.connections,
              wants_out-with_pollout g m.fd true v.pollfds other,
            )
          ];
        })
]

pub enqueue_replies-Effect :
    (fd : ℕ) (ms : List OutgoingMessage) (v : Server) → Effect fd false v (enqueue_replies ms v)
unfolding enqueue_replies
enqueue_replies-Effect fd [] v = Effect-refl fd v
enqueue_replies-Effect fd (m ∷ ms) v =
    effects (enqueue_reply-Effect fd m v) (enqueue_replies-Effect fd ms (enqueue_reply m v))

-- To disconnect a client touches the connections only where there is one, and the rest in any case.
disconnect_client-fields :
    (fd : ℕ) (v : Server)
    → ((disconnect_client fd v).listen_fd ≡ v.listen_fd)
      × ((disconnect_client fd v).pollfds ≡ without_fd fd v.pollfds)
      × ((disconnect_client fd v).health_monitor ≡ Health.remove_client fd v.health_monitor)
      × ((g : ℕ) → pending g (disconnect_client fd v) ≡ (if fd == g then false else pending g v))
unfolding disconnect_client remove_fd pending
disconnect_client-fields fd v = elim (Option-cases (find nat_order fd v.connections)) [
  | inl absent ↦
      rw (disconnect_client, absent) (refl, refl, refl, λ g. ground (arith, absent, ==_iff fd g))
  | inr (c, found) ↦
      rw (disconnect_client, found)
        (refl, refl, refl, λ g. ground (arith, find-erase_nat fd g v.connections))
]

pub disconnect_client-Effect : (fd : ℕ) (v : Server) → Effect fd true v (disconnect_client fd v)
unfolding Health.remove_client
disconnect_client-Effect fd v =
    let (listening, entries, monitor, unsent) = disconnect_client-fields fd v in
    record {
      listening = listening;
      entries = ap keys entries ∙ keys-without_fd fd v.pollfds;
      connection = λ g. ground (arith, received-disconnect_client g fd v);
      monitor = λ g h. ground (arith, h, monitor, find-erase_nat fd g v.health_monitor.clients);
      flushed = λ listed flushed g h.
          ground (arith, h, unsent g, flushed g, entries, wants_out-without_fd g fd v.pollfds);
    }

pub notify_and_disconnect-Effect :
    (fd : ℕ) (reason : Text) (v : Server) → Effect fd true v (notify_and_disconnect fd reason v)
unfolding notify_and_disconnect
notify_and_disconnect-Effect fd reason v =
    let replies = (build (record { fd = fd; reason = reason }) v.state).replies in
    effects (enqueue_replies-Effect fd replies v)
      (disconnect_client-Effect fd (enqueue_replies replies v))
