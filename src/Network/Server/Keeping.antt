-- ===== src/Network/Server/Keeping.antt =====
-- Replies leave the server state of src/a/Server.cpp as it is, and a client that is disconnected leaves
-- it consistent.
use irc.Common.{ℕ, ◌≡◌, refl, List, [], ◌∷◌, arith, ◌∙◌, Option-cases, inl, inr}
use irc.Common.Map.{find}
use irc.Common.Map.Keys.{nat_order}
use irc.State.Server.Links.{IsConsistent}
use irc.State.Server.Removal.{remove_client-IsConsistent}
use irc.Protocol.Result.{OutgoingMessage}
use irc.Network.Server.{
  Server, enqueue_reply, enqueue_replies, enable_pollout, remove_fd, disconnect_client,
}

state-enqueue_reply : (m : OutgoingMessage) (v : Server) → (enqueue_reply m v).state ≡ v.state
unfolding enqueue_reply enable_pollout
state-enqueue_reply m v = ground arith

pub state-enqueue_replies :
    (ms : List OutgoingMessage) (v : Server) → (enqueue_replies ms v).state ≡ v.state
unfolding enqueue_replies
state-enqueue_replies [] v = refl
state-enqueue_replies (m ∷ ms) v =
    state-enqueue_replies ms (enqueue_reply m v) ∙ state-enqueue_reply m v

pub disconnect_client-IsConsistent :
    (fd : ℕ) (v : Server) → IsConsistent v.state → IsConsistent (disconnect_client fd v).state
unfolding disconnect_client remove_fd
disconnect_client-IsConsistent fd v w = elim (Option-cases (find nat_order fd v.connections)) [
  | inl absent ↦ rw (disconnect_client, absent) w
  | inr (c, found) ↦ rw (disconnect_client, found) (remove_client-IsConsistent fd w)
]
