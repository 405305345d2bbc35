-- ===== src/Network/Server/Queueing.antt =====
-- What _enqueueReplies of src/a/Server.cpp leaves in the send buffers of the connections.
use irc.Common.{
  ℕ, ◌≡◌, refl, ap, ◌∙◌, true, List, [], ◌∷◌, ◌++◌, Option, none, some, Text, arith, ◌==◌,
  if◌then◌else◌, Option-cases, inl, inr, Bool-cases, concat, append_assoc, append-nil, ==_iff, sym,
}
use irc.Common.Map.{find}
use irc.Common.Map.Keys.{nat_order, find-put_nat}
use irc.Protocol.Result.{OutgoingMessage}
use irc.Network.Connection.{buffer_send}
use irc.Network.Server.{Server, enqueue_reply, enqueue_replies, enable_pollout}
use irc.Network.Server.Lines.{connected}
use irc.Network.Server.Buffers.{received}
use irc.Command.Texting.Delivery.{messages_to}

-- The bytes that wait to be sent on the connection of a descriptor; `none` if it has no connection.
unfoldable pub unsent : ℕ → Server → Option Text
unsent g v = elim (find nat_order g v.connections) [ none ↦ none | some c ↦ some c.send_buffer ]

-- A connection has a send buffer.
pub connected-unsent :
    (g : ℕ) (v : Server) → connected g v ≡ true → (buffer : Text) × (unsent g v ≡ some buffer)
unfolding received unsent
connected-unsent g v h = elim (Option-cases (find nat_order g v.connections)) [
  | inl absent ↦ absurd (ground (arith, absent, h))
  | inr (c, found) ↦ (c.send_buffer, rw (unsent, found) refl)
]

unsent-enqueue_reply :
    (g : ℕ) (buffer : Text) (m : OutgoingMessage) (v : Server)
    → unsent g v ≡ some buffer
    → unsent g (enqueue_reply m v) ≡ some (buffer ++ (if m.fd == g then m.message else []))
unfolding unsent enqueue_reply enable_pollout buffer_send
unsent-enqueue_reply g buffer m v h = elim (Option-cases (find nat_order m.fd v.connections)) [
  | inl absent ↦ elim (Bool-cases (m.fd == g)) [
    | inl same ↦
        let here : m.fd ≡ g = ground (arith, same) in
        let there : unsent m.fd v ≡ some buffer = rw here h in
        absurd (ground (arith, absent, there))
    | inr other ↦ rw (enqueue_reply, absent, if◌then◌else◌, other, append-nil buffer) h
  ]
  | inr (c, found) ↦ ground (
    arith,
    found,
    h,
    append-nil buffer,
    ==_iff m.fd g,
    find-put_nat m.fd g (buffer_send m.message c) v.connections,
  )
]

-- The texts for a descriptor go behind what waits on its connection, in their order.
pub unsent-enqueue_replies :
    (g : ℕ) (ms : List OutgoingMessage) (buffer : Text) (v : Server)
    → unsent g v ≡ some buffer
    → unsent g (enqueue_replies ms v) ≡ some (buffer ++ concat (messages_to g ms))
unfolding enqueue_replies messages_to
unsent-enqueue_replies g [] buffer v h = h ∙ ap some (sym (append-nil buffer))
unsent-enqueue_replies g (m ∷ ms) buffer v h =
    let added : Text = if m.fd == g then m.message else [] in
    let later = concat (messages_to g ms) in
    unsent-enqueue_replies g ms (buffer ++ added) (enqueue_reply m v)
      (unsent-enqueue_reply g buffer m v h)
    ∙ ap some (append_assoc buffer added later ∙ ap (λ (t : Text). buffer ++ t) (ground arith))
