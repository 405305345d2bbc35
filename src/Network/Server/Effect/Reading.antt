-- ===== src/Network/Server/Effect/Reading.antt =====
-- What _handleRead of src/a/Server.cpp do to the array of descriptors, to the
-- connections and to the health monitor.
use irc.Common.{
  ℕ, zero, suc, ◌+◌, drop, Bool, true, false, not, ◌&&◌, ◌||◌, ◌≡◌, refl, Option, none, some, arith,
  ap, subst, some_injective, Option-cases, Bool-cases, inl, inr, length,
}
use irc.Common.Map.{find}
use irc.Common.Map.Keys.{nat_order}
use irc.Health.{update_activity}
use irc.State.Server.{ServerState}
use irc.Network.Connection.{
  Connection, Received, bytes, end_of_stream, recv_error, line_before, has_complete_line, pop_line,
  read_from_socket, is_line_too_long, has_pending_output,
}
use irc.Network.Server.{
  Server, store_connection, handle_line, read_round, read_lines, handle_received, handle_read,
}
use irc.Network.Server.Buffers.{received}
use irc.Network.Server.Lines.{connected, connected-store_connection}
use irc.Network.Server.Effect.{Effect, effects, pending, store_connection-Effect}
use irc.Network.Server.Effect.Handling.{changed-Effect, handle_line-Effect, update_activity-GrowsAt}

-- The client is there as long as the handler goes well; where it fails, the client may be gone.
abbrev pub Handles : ℕ → Server → Option (Bool × Server) → Type 0
Handles fd v o =
    (ok : Bool) (v' : Server)
    → o ≡ some (ok, v')
    → (gone : Bool) × Effect fd gone v v' × ((ok && gone) ≡ false)

handled :
    {fd : ℕ} {v : Server} {ok gone : Bool} {u : Server}
    → Effect fd gone v u
    → (ok && gone) ≡ false
    → Handles fd v (some (ok, u))
handled {fd} {v} {ok} {gone} {u} e h ok' v' same = (
  gone,
  subst (Effect fd gone v) (ap (λ (x : Bool × Server). x.1) (some_injective same)) e,
  subst (λ b. (b && gone) ≡ false) (ap (λ (x : Bool × Server). x.0) (some_injective same)) h,
)

handled_later :
    {fd : ℕ} {v u : Server} {o : Option (Bool × Server)}
    → Effect fd false v u
    → Handles fd u o
    → Handles fd v o
handled_later a later ok v' same = let (gone, e, h) = later ok v' same in (gone, effects a e, h)

no_handling : (fd : ℕ) (v : Server) → Handles fd v none
no_handling fd v ok v' same = absurd (cc)

-- A connection that is found, and has been changed without more to send, is stored.
pub found_store :
    (fd : ℕ) (c c' : Connection) (v : Server)
    → find nat_order fd v.connections ≡ some c
    → (not (has_pending_output c') || has_pending_output c) ≡ true
    → (connected fd v ≡ true) × Effect fd false v (store_connection fd c' v)
unfolding received pending
found_store fd c c' v found less =
    let known : connected fd v ≡ true = ground (arith, found) in
    (known, store_connection-Effect fd c' v known (ground (arith, found, less)))

sent_kept : (r : Received) (c : Connection) → (read_from_socket r c).1.send_buffer ≡ c.send_buffer
unfolding read_from_socket
sent_kept (bytes s) c = refl
sent_kept end_of_stream c = refl
sent_kept recv_error c = refl

module _ (new_channel : ServerState → ℕ) (fd now : ℕ) where
  read_round-Handles :
      (next : Server → Option (Bool × Server))
      → ((v : Server) → Handles fd v (next v))
      → (found c : Connection) (line : Bool) (v : Server)
      → find nat_order fd v.connections ≡ some found
      → c.send_buffer ≡ found.send_buffer
      → Handles fd v (read_round new_channel next fd now (line, c) v)
  unfolding read_round has_pending_output pop_line
  read_round-Handles next later old c false v found same =
      handled (found_store fd old c v found (ground (arith, same))).1 refl
  read_round-Handles next later old c true v found same = elim (Option-cases c.nl_pos) [
    | inl e ↦ rw (read_round, pop_line, e) (no_handling fd v)
    | inr (n, e) ↦
        let rest : Connection = record c {
          recv_buffer = drop (n + 1) c.recv_buffer;
          nl_pos = none;
        } in
        let line = line_before n c.recv_buffer in
        let (known, stored) = found_store fd old rest v found (ground (arith, same)) in
        let before = store_connection fd rest v in
        let run = handle_line fd line now (new_channel v.state) before in
        let ran = effects stored (
          handle_line-Effect fd line now (new_channel v.state) before
            (ground (arith, connected-store_connection fd fd rest v known))) in
        elim (Bool-cases run.0.should_disconnect) [
          | inl quits ↦
              rw (read_round, pop_line, e, quits)
                (handled (subst (λ b. Effect fd b v run.1) quits ran) refl)
          | inr stays ↦
              rw (read_round, pop_line, e, stays)
                (handled_later (subst (λ b. Effect fd b v run.1) stays ran) (later run.1))
        ]
  ]

  read_lines-Handles :
      (rounds : ℕ) (v : Server) → Handles fd v (read_lines new_channel rounds fd now v)
  unfolding read_lines has_complete_line
  read_lines-Handles zero v = no_handling fd v
  read_lines-Handles (suc rounds) v = elim (Option-cases (find nat_order fd v.connections)) [
    | inl e ↦ rw (read_lines, e) (no_handling fd v)
    | inr (c, e) ↦
        let (line, c') = has_complete_line c in
        rw (read_lines, e)
          (read_round-Handles (read_lines new_channel rounds fd now) (read_lines-Handles rounds) c
            c' line v e refl)
  ]

  handle_received-Handles :
      (found c : Connection) (v : Server)
      → find nat_order fd v.connections ≡ some found
      → c.send_buffer ≡ found.send_buffer
      → Handles fd v (handle_received new_channel fd now c v)
  unfolding handle_received has_pending_output
  handle_received-Handles old c v found same =
      let (known, kept) = found_store fd old c v found (ground (arith, same)) in
      let stored = store_connection fd c v in
      let grows = update_activity-GrowsAt fd now stored.health_monitor in
      let active : Server = record stored {
        health_monitor = update_activity fd now stored.health_monitor;
      } in
      elim (Bool-cases (is_line_too_long c)) [
        | inl long ↦ rw long (handled kept refl)
        | inr short ↦ rw short (
            handled_later kept (
              handled_later
                (changed-Effect fd stored.state active.health_monitor stored
                  (ground (arith, connected-store_connection fd fd c v known)) grows)
                (read_lines-Handles (suc (length c.recv_buffer)) active)))
      ]

  pub handle_read-Handles :
      (r : Received) (v : Server) → Handles fd v (handle_read new_channel r fd now v)
  unfolding handle_read has_pending_output
  handle_read-Handles r v = elim (Option-cases (find nat_order fd v.connections)) [
    | inl e ↦ rw (handle_read, e) (no_handling fd v)
    | inr (c, e) ↦
        let (ok, c') = read_from_socket r c in
        elim (Bool-cases ok) [
          | inl good ↦ rw (handle_read, e, good) (handle_received-Handles c c' v e (sent_kept r c))
          | inr bad ↦
              rw (handle_read, e, bad)
                (handled (found_store fd c c' v e (ground (arith, sent_kept r c))).1 refl)
        ]
  ]

-- A descriptor that is handled has a connection.
pub handle_read-connected :
    (new_channel : ServerState → ℕ) (fd now : ℕ) (r : Received) (v : Server) (x : Bool × Server)
    → handle_read new_channel r fd now v ≡ some x
    → connected fd v ≡ true
unfolding handle_read received
handle_read-connected new_channel fd now r v x h =
    elim (Option-cases (find nat_order fd v.connections)) [
      | inr (c, found) ↦ ground (arith, found)
      | inl absent ↦
          let nothing : handle_read new_channel r fd now v ≡ none = rw (handle_read, absent) refl in
          absurd (cc)
    ]
