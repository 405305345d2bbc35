-- ===== src/Network/Shutdown/Reached.antt =====
-- The states that src/a/Server.cpp reaches: from the constructor, through events, sweeps and the end.
use irc.Common.{
  ℕ, Bool, true, false, ◌≡◌, ◌==◌, arith, subst, refl, Bool-cases, inl, inr, List, [], ◌∷◌, some,
  Text, codes, ◌++◌, concat,
}
use irc.State.Client.{Client}
use irc.State.Channel.{Channel}
use irc.Common.Map.{find}
use irc.State.Channel.{has_member}
use irc.State.Server.{ServerState, server_state, client_at, channel_at}
use irc.State.Server.Known.{known, known-add_client}
use irc.Network.Server.Buffers.{received}
use irc.State.Server.Links.{IsConsistent, channel_live, client_live}
use irc.State.Server.Clients.{add_client-IsConsistent}
use irc.Session.Invariants.{server_state-IsConsistent}
use irc.Health.{collect_timed_out_clients}
use irc.Network.Server.{
  Server, new_server, accept_client, add_fd, sweep, disconnect_timed_out, notify_and_disconnect,
  disconnect_client, enqueue_replies,
}
use irc.Network.Server.Queueing.{unsent, connected-unsent, unsent-enqueue_replies}
use irc.Protocol.Result.{OutgoingMessage}
use irc.Command.Texting.Delivery.{messages_to}
use irc.Network.Server.Agreed.{IsAgreed, notify_and_disconnect-IsAgreed, disconnect_client-IsAgreed}
use irc.Network.Poll.{Ready, incoming}
use irc.Network.Run.{check_read, polled}
use irc.Network.Run.Visits.{is_new}
use irc.Network.Server.Lines.{connected}
use irc.Network.Server.Effect.{disconnect_client-Effect}
use irc.Network.Server.Effect.Checks.{check_read-Checks}
use irc.Network.Watched.{
  IsWatched, new_server-IsWatched, accept_client-IsWatched, polled-IsWatched, Effect-IsWatched,
  sweep-IsWatched, connected-accept_client,
}
use irc.Network.Run.Keeping.{check_read-Kept}

module _ (new_channel : ServerState → ℕ) (listen_fd : ℕ) (password : Text) (clients : ℕ → Client)
    (channels : ℕ → Channel) where
  -- Each constructor is a thing that run() does in a round, or that the destructor does: accept()
  -- returns a descriptor that is not in use, an entry that is no listening socket is handled, and a
  -- connection that there is gets closed.
  pub data Reached : Server → Type 0 where
    started : Reached (new_server listen_fd password clients channels)
    accepted :
        (fd : ℕ) (host : Text) (p : ℕ) (v : Server)
        → client_live p v.state ≡ false
        → is_new (incoming fd host p) v ≡ true
        → Reached v
        → Reached (accept_client fd host p v)
    reported : (reports : ℕ → Ready) (v : Server) → Reached v → Reached (polled reports v)
    ready :
        (fd now : ℕ) (r : Ready) (gone : Bool) (v v' : Server)
        → (fd == v.listen_fd) ≡ false
        → check_read new_channel now fd r v ≡ some (gone, v')
        → Reached v
        → Reached v'
    swept : (now : ℕ) (v : Server) → Reached v → Reached (sweep now v)
    closed :
        (fd : ℕ) (v : Server) → connected fd v ≡ true → Reached v → Reached (disconnect_client fd v)

disconnect_timed_out-IsAgreed :
    (fds : List ℕ) (v : Server) → IsAgreed v → IsAgreed (disconnect_timed_out fds v)
unfolding disconnect_timed_out
disconnect_timed_out-IsAgreed [] v w = w
disconnect_timed_out-IsAgreed (fd ∷ fds) v w =
    disconnect_timed_out-IsAgreed fds (notify_and_disconnect fd (codes "Ping timeout") v)
      (notify_and_disconnect-IsAgreed fd (codes "Ping timeout") v w)

new_server-IsAgreed :
    (listen_fd : ℕ) (password : Text) (clients : ℕ → Client) (channels : ℕ → Channel)
    → IsAgreed (new_server listen_fd password clients channels)
unfolding new_server server_state received find
new_server-IsAgreed listen_fd password clients channels = record {
  consistent = server_state-IsConsistent password clients channels;
  known_as = λ g. refl;
}

accept_client-IsAgreed :
    (fd : ℕ) (host : Text) (p : ℕ) (v : Server)
    → client_live p v.state ≡ false
    → IsAgreed v
    → IsAgreed (accept_client fd host p v)
unfolding accept_client add_fd
accept_client-IsAgreed fd host p v free w = record {
  consistent = add_client-IsConsistent fd host p w.consistent free;
  known_as = λ g. ground (
    arith,
    known-add_client g fd host p v.state,
    connected-accept_client g fd host p v,
    w.known_as g,
  );
}

listening_not_connected :
    (fd : ℕ) (v : Server) → connected fd v ≡ true → IsWatched v → (fd == v.listen_fd) ≡ false
listening_not_connected fd v there w = elim (Bool-cases (fd == v.listen_fd)) [
  | inr other ↦ other
  | inl same ↦
      let listens : connected fd v ≡ false =
        subst (λ g. connected g v ≡ false) (ground (arith, same)) w.listening in
      absurd (cc)
]

-- The server state and the connections agree in every state that the server reaches.
module _ (new_channel : ServerState → ℕ) (listen_fd : ℕ) (password : Text) (clients : ℕ → Client)
    (channels : ℕ → Channel)
    (fresh : (s : ServerState) → IsConsistent s → channel_live (new_channel s) s ≡ false) where
  Reached-IsAgreed :
      (v : Server) → Reached new_channel listen_fd password clients channels v → IsAgreed v
  unfolding sweep polled received
  Reached-IsAgreed v started = new_server-IsAgreed listen_fd password clients channels
  Reached-IsAgreed v (accepted fd host p before free new reached) =
      accept_client-IsAgreed fd host p before free (Reached-IsAgreed before reached)
  Reached-IsAgreed v (reported reports before reached) = Reached-IsAgreed before reached
  Reached-IsAgreed v (ready fd now r gone before after client ran reached) =
      check_read-Kept new_channel fresh fd now r before (Reached-IsAgreed before reached) gone v ran
  Reached-IsAgreed v (swept now before reached) =
      disconnect_timed_out-IsAgreed (collect_timed_out_clients now before.health_monitor) before
        (Reached-IsAgreed before reached)
  Reached-IsAgreed v (closed fd before there reached) =
      disconnect_client-IsAgreed fd before (Reached-IsAgreed before reached)

  -- Whatever the sockets and poll() answer, the server state is consistent in every state that the
  -- server reaches, if a new client or channel is put at an address at which none lives.
  pub Reached-IsConsistent :
      (v : Server)
      → Reached new_channel listen_fd password clients channels v
      → IsConsistent v.state
  Reached-IsConsistent v reached = (Reached-IsAgreed v reached).consistent

  -- Under the same conditions, a descriptor has a client, for which its lines are run, exactly if it
  -- has a connection.
  pub Reached-known :
      (v : Server) (fd : ℕ)
      → Reached new_channel listen_fd password clients channels v
      → known fd v.state ≡ connected fd v
  Reached-known v fd reached = (Reached-IsAgreed v reached).known_as fd

  -- Whatever the sockets and poll() answer, if a new client or channel is put at an address at which
  -- none lives: in every state that the server reaches, the descriptor of a member of a channel has a
  -- connection, and whatever replies are to be queued, the texts of those for this descriptor go, in
  -- their order, behind what waits to be sent on this connection.
  pub Reached-member_queued :
      (v : Server) (p q : ℕ) (replies : List OutgoingMessage)
      → Reached new_channel listen_fd password clients channels v
      → channel_live q v.state ≡ true
      → has_member p (channel_at q v.state) ≡ true
      → (buffer : Text) × (unsent (client_at p v.state).fd v ≡ some buffer)
        × (unsent (client_at p v.state).fd (enqueue_replies replies v)
            ≡ some (buffer ++ concat (messages_to (client_at p v.state).fd replies)))
  Reached-member_queued v p q replies reached alive member =
      let w = Reached-IsAgreed v reached in
      let live = w.consistent.linked.member_live p q alive member in
      let fd = (client_at p v.state).fd in
      let there : connected fd v ≡ true =
        ground (arith, w.consistent.linked.owned.fd_finds p live, Reached-known v fd reached) in
      let (buffer, waits) = connected-unsent fd v there in
      (buffer, waits, unsent-enqueue_replies fd replies buffer v waits)

-- Whatever the sockets and poll() answer, if accept() returns a descriptor that is not in use: in every
-- state that the server reaches, the array of poll() holds the listening socket and each connection
-- once and nothing else, only connections are monitored, and poll() is asked for POLLOUT wherever
-- output waits.
pub Reached-IsWatched :
    (new_channel : ServerState → ℕ) (listen_fd : ℕ) (password : Text) (clients : ℕ → Client)
    (channels : ℕ → Channel) (v : Server)
    → Reached new_channel listen_fd password clients channels v
    → IsWatched v
unfolding is_new
Reached-IsWatched new_channel listen_fd password clients channels v started =
    new_server-IsWatched listen_fd password clients channels
Reached-IsWatched new_channel listen_fd password clients channels v
      (accepted fd host p before free new reached) =
    accept_client-IsWatched fd host p before (ground (arith, new)) (ground (arith, new))
      (Reached-IsWatched new_channel listen_fd password clients channels before reached)
Reached-IsWatched new_channel listen_fd password clients channels v
      (reported reports before reached) =
    polled-IsWatched reports before
      (Reached-IsWatched new_channel listen_fd password clients channels before reached)
Reached-IsWatched new_channel listen_fd password clients channels v
      (ready fd now r gone before after client ran reached) =
    Effect-IsWatched (check_read-Checks new_channel now fd r before gone v ran) client
      (Reached-IsWatched new_channel listen_fd password clients channels before reached)
Reached-IsWatched new_channel listen_fd password clients channels v (swept now before reached) =
    sweep-IsWatched now before
      (Reached-IsWatched new_channel listen_fd password clients channels before reached)
Reached-IsWatched new_channel listen_fd password clients channels v
      (closed fd before there reached) =
    let w = Reached-IsWatched new_channel listen_fd password clients channels before reached in
    Effect-IsWatched (disconnect_client-Effect fd before)
      (listening_not_connected fd before there w) w
