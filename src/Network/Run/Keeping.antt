-- ===== src/Network/Run/Keeping.antt =====
-- The server state and the connections stay in agreement through everything that run() of src/a/Server.cpp does.
use irc.Common.{
  arith, some_injective, ℕ, zero, suc, Bool, true, false, ◌≡◌, Option, some, codes, subst, ap,
  Option-cases, Bool-cases, inl, inr, length, if◌then◌else◌,
}
use irc.Common.Map.{find, has}
use irc.Common.Map.Keys.{nat_order}
use irc.Health.{update_activity}
use irc.State.Server.{ServerState}
use irc.State.Server.Links.{IsConsistent, channel_live}
use irc.Network.Connection.{
  Connection, Received, Sent, has_complete_line, pop_line, read_from_socket, is_line_too_long,
  write_to_socket, has_pending_output,
}
use irc.Network.Server.{
  Server, store_connection, handle_line, read_round, read_lines, handle_received, handle_read,
  handle_write, disable_pollout, notify_and_disconnect,
}
use irc.Network.Server.Buffers.{received}
use irc.Network.Server.Lines.{connected}
use irc.Network.Server.Agreed.{
  IsAgreed, store_connection-IsAgreed, notify_and_disconnect-IsAgreed, handle_line-IsAgreed,
}
use irc.Network.Run.{Ready, check_broken, check_write, check_read, read_failed}

-- The state and the connections agree in what an operation ends with.
abbrev pub KeptWith : Option (Bool × Server) → Type 0
KeptWith o = (b : Bool) (v' : Server) → o ≡ some (b, v') → IsAgreed v'

kept_with : (b : Bool) (v : Server) → IsAgreed v → KeptWith (some (b, v))
kept_with b v w b' v' e =
    subst (λ (x : Server). IsAgreed x) (ap (λ (x : Bool × Server). x.1) (some_injective e)) w

found_connected :
    (fd : ℕ) (v : Server) (c : Connection)
    → find nat_order fd v.connections ≡ some c
    → connected fd v ≡ true
unfolding received
found_connected fd v c e = ground (arith, e)

module _ (new_channel : ServerState → ℕ)
    (fresh : (s : ServerState) → IsConsistent s → channel_live (new_channel s) s ≡ false)
    (fd now : ℕ) where
  read_round-Kept :
      (next : Server → Option (Bool × Server))
      → ((v : Server) → IsAgreed v → KeptWith (next v))
      → (x : Bool × Connection) (v : Server) → connected fd v ≡ true
      → IsAgreed v
      → KeptWith (read_round new_channel next fd now x v)
  unfolding read_round
  read_round-Kept next later (false, c) v there w =
      kept_with true (store_connection fd c v) (store_connection-IsAgreed fd c v there w)
  read_round-Kept next later (true, c) v there w = elim (Option-cases (pop_line c)) [
    | inl e ↦ rw (read_round, e) (λ b v' h. absurd (cc))
    | inr ((line, rest), e) ↦
        let run = handle_line fd line now (new_channel v.state) (store_connection fd rest v) in
        let after =
          handle_line-IsAgreed fd line now (new_channel v.state) (store_connection fd rest v)
            (store_connection-IsAgreed fd rest v there w) (fresh v.state w.consistent) in
        elim (Bool-cases run.0.should_disconnect) [
          | inl quits ↦ rw (read_round, e, quits) (kept_with false run.1 after)
          | inr stays ↦ rw (read_round, e, stays) (later run.1 after)
        ]
  ]

  read_lines-Kept :
      (rounds : ℕ) (v : Server) → IsAgreed v → KeptWith (read_lines new_channel rounds fd now v)
  unfolding read_lines
  read_lines-Kept zero v w = λ b v' h. absurd (cc)
  read_lines-Kept (suc rounds) v w = elim (Option-cases (find nat_order fd v.connections)) [
    | inl e ↦ rw (read_lines, e) (λ b v' h. absurd (cc))
    | inr (c, e) ↦
        rw (read_lines, e)
          (read_round-Kept (read_lines new_channel rounds fd now) (read_lines-Kept rounds)
            (has_complete_line c) v (found_connected fd v c e) w)
  ]

  handle_received-Kept :
      (c : Connection) (v : Server)
      → connected fd v ≡ true
      → IsAgreed v
      → KeptWith (handle_received new_channel fd now c v)
  unfolding handle_received received
  handle_received-Kept c v there w =
      let stored = store_connection fd c v in
      let active : Server = record stored {
        health_monitor = update_activity fd now stored.health_monitor;
      } in
      let agreed = store_connection-IsAgreed fd c v there w in
      elim (Bool-cases (is_line_too_long c)) [
        | inl long ↦ rw long (kept_with false stored agreed)
        | inr short ↦ rw short (read_lines-Kept (suc (length c.recv_buffer)) active agreed)
      ]

  handle_read-Kept :
      (r : Received) (v : Server) → IsAgreed v → KeptWith (handle_read new_channel r fd now v)
  unfolding handle_read
  handle_read-Kept r v w = elim (Option-cases (find nat_order fd v.connections)) [
    | inl e ↦ rw (handle_read, e) (λ b v' h. absurd (cc))
    | inr (c, e) ↦
        let read = read_from_socket r c in
        let there = found_connected fd v c e in
        elim (Bool-cases read.0) [
          | inl good ↦ rw (handle_read, e, good) (handle_received-Kept read.1 v there w)
          | inr bad ↦
              rw (handle_read, e, bad)
                (kept_with false (store_connection fd read.1 v)
                  (store_connection-IsAgreed fd read.1 v there w))
        ]
  ]

  handle_write-Kept : (x : Sent) (v : Server) → IsAgreed v → KeptWith (handle_write x fd v)
  unfolding handle_write disable_pollout received
  handle_write-Kept x v w = elim (Option-cases (find nat_order fd v.connections)) [
    | inl e ↦ rw (handle_write, e) (λ b v' h. absurd (cc))
    | inr (c, e) ↦
        let written = write_to_socket x c in
        let stored = store_connection fd written.1 v in
        let agreed = store_connection-IsAgreed fd written.1 v (found_connected fd v c e) w in
        elim (Bool-cases written.0) [
          | inr bad ↦ rw (handle_write, e, bad) (kept_with false stored agreed)
          | inl good ↦ elim (Bool-cases (has_pending_output written.1)) [
            | inl more ↦ rw (handle_write, e, good, more) (kept_with true stored agreed)
            | inr done ↦
                rw (handle_write, e, good, done) (kept_with true (disable_pollout fd stored) agreed)
          ]
        ]
  ]

  reset-IsAgreed :
      (v : Server) → IsAgreed v → IsAgreed (notify_and_disconnect fd (codes "Connection reset") v)
  reset-IsAgreed v w = notify_and_disconnect-IsAgreed fd (codes "Connection reset") v w

  check_broken-Kept : (r : Ready) (v : Server) → IsAgreed v → KeptWith (some (check_broken fd r v))
  unfolding check_broken
  check_broken-Kept r v w = elim (Bool-cases r.broken) [
    | inl e ↦
        rw (check_broken, e)
          (kept_with true (notify_and_disconnect fd (codes "Connection reset") v)
            (reset-IsAgreed v w))
    | inr e ↦ rw (check_broken, e) (kept_with false v w)
  ]

  read_failed-Kept : (v : Server) → IsAgreed v → IsAgreed (read_failed fd v)
  unfolding read_failed
  read_failed-Kept v w = elim (Bool-cases (has nat_order fd v.connections)) [
    | inl e ↦ rw (if◌then◌else◌, e) (reset-IsAgreed v w)
    | inr e ↦ rw (if◌then◌else◌, e) w
  ]

  check_write-Kept : (r : Ready) (v : Server) → IsAgreed v → KeptWith (check_write fd r v)
  unfolding check_write
  check_write-Kept r v w = elim (Bool-cases r.pollout) [
    | inr idle ↦ rw idle (check_broken-Kept r v w)
    | inl writable ↦ elim (Option-cases (handle_write r.sent fd v)) [
      | inl e ↦ rw (writable, e) (λ b v' h. absurd (cc))
      | inr ((true, v'), e) ↦
          rw (writable, e) (check_broken-Kept r v' (handle_write-Kept r.sent v w true v' e))
      | inr ((false, v'), e) ↦
          rw (writable, e)
            (kept_with true (notify_and_disconnect fd (codes "Connection reset") v')
              (reset-IsAgreed v' (handle_write-Kept r.sent v w false v' e)))
    ]
  ]

  pub check_read-Kept :
      (r : Ready) (v : Server) → IsAgreed v → KeptWith (check_read new_channel now fd r v)
  unfolding check_read
  check_read-Kept r v w = elim (Bool-cases r.pollin) [
    | inr quiet ↦ rw quiet (check_write-Kept r v w)
    | inl readable ↦ elim (Option-cases (handle_read new_channel r.received fd now v)) [
      | inl e ↦ rw (readable, e) (λ b v' h. absurd (cc))
      | inr ((true, v'), e) ↦
          rw (readable, e) (check_write-Kept r v' (handle_read-Kept r.received v w true v' e))
      | inr ((false, v'), e) ↦
          rw (readable, e)
            (kept_with true (read_failed fd v')
              (read_failed-Kept v' (handle_read-Kept r.received v w false v' e)))
    ]
  ]
