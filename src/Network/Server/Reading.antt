-- ===== src/Network/Server/Reading.antt =====
-- Reading from a socket (_handleRead of src/a/Server.cpp) never meets a null connection, and its loop
-- ends.
use irc.Common.{
  ℕ, suc, true, false, ◌≡◌, refl, arith, Option-cases, inl, inr, Bool-cases, length, ==_iff,
}
use irc.Common.Map.{find}
use irc.Common.Map.Keys.{nat_order}
use irc.Health.{update_activity}
use irc.State.Server.{ServerState}
use irc.Network.Connection.{
  Connection, Received, Sent, read_from_socket, is_line_too_long, write_to_socket,
  has_pending_output,
}
use irc.Network.Server.{
  Server, store_connection, handle_received, handle_read, handle_write, disable_pollout,
}
use irc.Network.Server.Lines.{
  connected, IsHandled, connected-store_connection, read_lines-IsHandled,
}
use irc.Network.Server.Buffers.{received, received-store_connection}

module _ (new_channel : ServerState → ℕ) (fd now : ℕ) where
  handle_received-IsHandled :
      (c : Connection) (v : Server)
      → connected fd v ≡ true
      → IsHandled fd v (handle_received new_channel fd now c v)
  unfolding handle_received received
  handle_received-IsHandled c v h =
      let stored = store_connection fd c v in
      let active : Server = record stored {
        health_monitor = update_activity fd now stored.health_monitor;
      } in
      elim (Bool-cases (is_line_too_long c)) [
        | inl long ↦ (
          false,
          stored,
          rw long refl,
          λ g. ground (arith, connected-store_connection g fd c v h, h, ==_iff fd g),
        )
        | inr short ↦
            let (ok, v', ended, others) =
              read_lines-IsHandled new_channel fd now (suc (length c.recv_buffer)) active
                c.recv_buffer (ground (arith, received-store_connection fd fd c v, ==_iff fd fd))
                (omega arith) in
            (
              ok,
              v',
              rw short ended,
              λ g. ground (arith, others g, connected-store_connection g fd c v h),
            )
      ]

  -- A handler for a descriptor with a connection gives an answer, and takes no connection but that
  -- descriptor's, and this only when it fails.
  pub handle_read-IsHandled :
      (bytes_read : Received) (v : Server)
      → connected fd v ≡ true
      → IsHandled fd v (handle_read new_channel bytes_read fd now v)
  unfolding handle_read received
  handle_read-IsHandled bytes_read v h = elim (Option-cases (find nat_order fd v.connections)) [
    | inl absent ↦ ground (arith, absent, h)
    | inr (c, found) ↦
        let (ok, c') = read_from_socket bytes_read c in
        elim (Bool-cases ok) [
          | inl good ↦
              let (answer, v', ended, others) = handle_received-IsHandled c' v h in
              (answer, v', rw (handle_read, found, good) ended, others)
          | inr bad ↦ (
            false,
            store_connection fd c' v,
            rw (handle_read, found, bad) refl,
            λ g. ground (arith, connected-store_connection g fd c' v h, h, ==_iff fd g),
          )
        ]
  ]

pub handle_write-IsHandled :
    (fd : ℕ) (sent : Sent) (v : Server)
    → connected fd v ≡ true
    → IsHandled fd v (handle_write sent fd v)
unfolding handle_write received disable_pollout
handle_write-IsHandled fd sent v h = elim (Option-cases (find nat_order fd v.connections)) [
  | inl absent ↦ ground (arith, absent, h)
  | inr (c, found) ↦
      let (ok, c') = write_to_socket sent c in
      let stored = store_connection fd c' v in
      let same_connected = λ (g : ℕ). connected-store_connection g fd c' v h in
      elim (Bool-cases ok) [
        | inr bad ↦ (
          false,
          stored,
          rw (handle_write, found, bad) refl,
          λ g. ground (arith, same_connected g, h, ==_iff fd g),
        )
        | inl good ↦ elim (Bool-cases (has_pending_output c')) [
          | inl pending ↦ (
            true,
            stored,
            rw (handle_write, found, good, pending) refl,
            λ g. ground (arith, same_connected g),
          )
          | inr drained ↦ (
            true,
            disable_pollout fd stored,
            rw (handle_write, found, good, drained) refl,
            λ g. ground (arith, same_connected g),
          )
        ]
      ]
]
