-- ===== src/Network/Run/Progress.antt =====
-- The body of the loop of run() of src/a/Server.cpp never meets a null connection.
use irc.Common.{ℕ, true, false, ◌≡◌, refl, Bool, some, arith, ap, ◌∙◌, Bool-cases, inl, inr, codes}
use irc.State.Server.{ServerState}
use irc.Network.Poll.{Ready}
use irc.Network.Server.{Server, notify_and_disconnect, handle_read}
use irc.Network.Server.Lines.{connected}
use irc.Network.Server.Reading.{handle_read-IsHandled, handle_write-IsHandled}
use irc.Network.Run.{check_broken, check_write, check_read, read_failed}

-- A descriptor with a connection can be written to, and the connection is found.
check_write-answers :
    (fd : ℕ) (r : Ready) (v : Server)
    → connected fd v ≡ true
    → (x : Bool × Server) × (check_write fd r v ≡ some x)
unfolding check_write
check_write-answers fd r v h =
    let (ok, v', ended, others) = handle_write-IsHandled fd r.sent v h in
    elim (Bool-cases r.pollout) [
      | inr idle ↦ (check_broken fd r v, rw idle refl)
      | inl writable ↦ elim (Bool-cases ok) [
        | inl good ↦ (check_broken fd r v', rw (writable, ended, good) refl)
        | inr bad ↦ (
          (true, notify_and_disconnect fd (codes "Connection reset") v'),
          rw (writable, ended, bad) refl,
        )
      ]
    ]

module _ (new_channel : ServerState → ℕ) (now : ℕ) where
  check_read-good :
      (fd : ℕ) (r : Ready) (v v' : Server)
      → r.pollin ≡ true
      → handle_read new_channel r.received fd now v ≡ some (true, v')
      → check_read new_channel now fd r v ≡ check_write fd r v'
  unfolding check_read
  check_read-good fd r v v' readable ended = rw (readable, ended) refl

  check_read-idle :
      (fd : ℕ) (r : Ready) (v : Server)
      → r.pollin ≡ false
      → check_read new_channel now fd r v ≡ check_write fd r v
  unfolding check_read
  check_read-idle fd r v idle = rw idle refl

  -- A descriptor with a connection is read from and written to, and the connection is found.
  pub check_read-answers :
      (fd : ℕ) (r : Ready) (v : Server)
      → connected fd v ≡ true
      → (x : Bool × Server) × (check_read new_channel now fd r v ≡ some x)
  unfolding check_read
  check_read-answers fd r v h =
      let (ok, v', ended, others) = handle_read-IsHandled new_channel fd now r.received v h in
      elim (Bool-cases r.pollin) [
        | inr idle ↦
            let (x, wrote) = check_write-answers fd r v h in
            (x, check_read-idle fd r v idle ∙ wrote)
        | inl readable ↦ elim (Bool-cases ok) [
          | inl good ↦
              let (x, wrote) = check_write-answers fd r v' (ground (arith, others fd, good, h)) in
              (x, check_read-good fd r v v' readable (ended ∙ ap (λ b. some (b, v')) good) ∙ wrote)
          | inr bad ↦ ((true, read_failed fd v'), rw (readable, ended, bad) refl)
        ]
      ]
