-- ===== src/Network/Server/Effect/Writing.antt =====
-- What _handleWrite of src/a/Server.cpp does to the array of descriptors, to the connections and to the
-- health monitor.
use irc.Common.{
  ℕ, Bool, true, false, not, ◌||◌, ◌≡◌, refl, ◌∙◌, Option, some, arith, ap, subst, some_injective,
  Option-cases, Bool-cases, inl, inr, ==_iff,
}
use irc.Common.Map.{find}
use irc.Common.Map.Keys.{nat_order, find-put_nat}
use irc.Network.Connection.{
  Connection, Sent, took, send_failed, write_to_socket, has_pending_output,
}
use irc.Network.Poll.Laws.{keys-with_pollout, wants_out-with_pollout}
use irc.Network.Server.{Server, store_connection, handle_write, disable_pollout}
use irc.Network.Server.Buffers.{received}
use irc.Network.Server.Effect.{Effect, effects, pending}
use irc.Network.Server.Effect.Reading.{found_store}

-- Where nothing waits, the descriptor need not be watched for writing.
disable_pollout-Effect :
    (fd : ℕ) (v : Server) → pending fd v ≡ false → Effect fd false v (disable_pollout fd v)
unfolding disable_pollout pending received
disable_pollout-Effect fd v quiet = record {
  listening = refl;
  entries = keys-with_pollout false fd v.pollfds;
  connection = λ g. ground arith;
  monitor = λ g h. ground arith;
  flushed = λ listed flushed g h.
      ground (arith, h, quiet, flushed g, wants_out-with_pollout g fd false v.pollfds, ==_iff fd g);
}

-- The handler for writing leaves its client in place, also where it fails.
abbrev Stays : ℕ → Server → Option (Bool × Server) → Type 0
Stays fd v o = (ok : Bool) (v' : Server) → o ≡ some (ok, v') → Effect fd false v v'

stays :
    {fd : ℕ} {v : Server} {ok : Bool} {u : Server} → Effect fd false v u → Stays fd v (some (ok, u))
stays {fd} {v} {ok} {u} e ok' v' same =
    subst (Effect fd false v) (ap (λ (x : Bool × Server). x.1) (some_injective same)) e

less_pending :
    (x : Sent) (c : Connection)
    → (not (has_pending_output (write_to_socket x c).1) || has_pending_output c) ≡ true
unfolding write_to_socket has_pending_output
less_pending send_failed c = ground arith
less_pending (took n) c = ground arith

pending-store_connection :
    (fd : ℕ) (c : Connection) (v : Server)
    → pending fd (store_connection fd c v) ≡ has_pending_output c
unfolding pending
pending-store_connection fd c v = ground (arith, find-put_nat fd fd c v.connections, ==_iff fd fd)

pub handle_write-Stays : (fd : ℕ) (x : Sent) (v : Server) → Stays fd v (handle_write x fd v)
unfolding handle_write
handle_write-Stays fd x v = elim (Option-cases (find nat_order fd v.connections)) [
  | inl e ↦ rw (handle_write, e) (λ ok v' same. absurd (cc))
  | inr (c, e) ↦
      let (ok, c') = write_to_socket x c in
      let stored = store_connection fd c' v in
      let (known, kept) = found_store fd c c' v e (less_pending x c) in
      elim (Bool-cases ok) [
        | inr bad ↦ rw (handle_write, e, bad) (stays kept)
        | inl good ↦ elim (Bool-cases (has_pending_output c')) [
          | inl more ↦ rw (handle_write, e, good, more) (stays kept)
          | inr drained ↦
              rw (handle_write, e, good, drained)
                (stays (
                  effects kept (
                    disable_pollout-Effect fd stored (pending-store_connection fd c' v ∙ drained))))
        ]
      ]
]
