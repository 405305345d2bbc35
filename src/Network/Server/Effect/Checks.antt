-- ===== src/Network/Server/Effect/Checks.antt =====
-- What the body of the loop of run() of src/a/Server.cpp does to the array of descriptors, to the
-- connections and to the health monitor.
use irc.Common.{
  ℕ, Bool, true, false, ◌≡◌, Option, none, some, arith, subst, some_injective, Option-cases,
  Bool-cases, inl, inr, if◌then◌else◌, codes, ==_iff,
}
use irc.Common.Map.{has}
use irc.Common.Map.Keys.{nat_order}
use irc.State.Server.{ServerState}
use irc.Network.Poll.{Ready}
use irc.Network.Server.{Server, handle_read, handle_write, notify_and_disconnect}
use irc.Network.Server.Buffers.{received}
use irc.Network.Server.Lines.{connected}
use irc.Network.Server.Effect.{Effect, Effect-refl, effects, notify_and_disconnect-Effect}
use irc.Network.Server.Effect.Reading.{handle_read-Handles, handle_read-connected}
use irc.Network.Server.Effect.Writing.{handle_write-Stays}
use irc.Network.Run.{check_broken, check_write, read_failed, check_read}

-- The flag says exactly whether the descriptor is gone.
abbrev pub Checks : ℕ → Server → Option (Bool × Server) → Type 0
Checks fd v o = (gone : Bool) (v' : Server) → o ≡ some (gone, v') → Effect fd gone v v'

checked : {fd : ℕ} {v u : Server} {gone : Bool} → Effect fd gone v u → Checks fd v (some (gone, u))
checked {fd} {v} {u} {gone} e gone' v' same =
    subst (λ (x : Bool × Server). Effect fd x.0 v x.1) (some_injective same) e

checked_later :
    {fd : ℕ} {v u : Server} {o : Option (Bool × Server)}
    → Effect fd false v u
    → Checks fd u o
    → Checks fd v o
checked_later a later gone v' same = effects a (later gone v' same)

no_check : (fd : ℕ) (v : Server) → Checks fd v none
no_check fd v gone v' same = absurd (cc)

reset-Effect :
    (fd : ℕ) (v : Server) → Effect fd true v (notify_and_disconnect fd (codes "Connection reset") v)
reset-Effect fd v = notify_and_disconnect-Effect fd (codes "Connection reset") v

check_broken-Checks : (fd : ℕ) (r : Ready) (v : Server) → Checks fd v (some (check_broken fd r v))
unfolding check_broken
check_broken-Checks fd r v = elim (Bool-cases r.broken) [
  | inl e ↦ rw (check_broken, e) (checked (reset-Effect fd v))
  | inr e ↦ rw (check_broken, e) (checked (Effect-refl fd v))
]

check_write-Checks : (fd : ℕ) (r : Ready) (v : Server) → Checks fd v (check_write fd r v)
unfolding check_write
check_write-Checks fd r v = elim (Bool-cases r.pollout) [
  | inr idle ↦ rw idle (check_broken-Checks fd r v)
  | inl writable ↦ elim (Option-cases (handle_write r.sent fd v)) [
    | inl e ↦ rw (writable, e) (no_check fd v)
    | inr ((true, v'), e) ↦
        rw (writable, e)
          (checked_later (handle_write-Stays fd r.sent v true v' e) (check_broken-Checks fd r v'))
    | inr ((false, v'), e) ↦
        rw (writable, e)
          (checked (effects (handle_write-Stays fd r.sent v false v' e) (reset-Effect fd v')))
  ]
]

has-connected : (fd : ℕ) (v : Server) → has nat_order fd v.connections ≡ connected fd v
unfolding received
has-connected fd v = ground arith

-- After a read that failed the client is gone, whether QUIT or the failure has taken it.
read_failed-Effect :
    (fd : ℕ) (gone : Bool) (v u : Server)
    → connected fd v ≡ true
    → Effect fd gone v u
    → Effect fd true v (read_failed fd u)
unfolding read_failed
read_failed-Effect fd true v u known e =
    let left : has nat_order fd u.connections ≡ false =
      ground (arith, has-connected fd u, e.connection fd, ==_iff fd fd) in
    rw (if◌then◌else◌, left) e
read_failed-Effect fd false v u known e =
    let there : has nat_order fd u.connections ≡ true =
      ground (arith, has-connected fd u, e.connection fd, known) in
    rw (if◌then◌else◌, there) (effects e (reset-Effect fd u))

pub check_read-Checks :
    (new_channel : ServerState → ℕ) (now fd : ℕ) (r : Ready) (v : Server)
    → Checks fd v (check_read new_channel now fd r v)
unfolding check_read
check_read-Checks new_channel now fd r v = elim (Bool-cases r.pollin) [
  | inr quiet ↦ rw quiet (check_write-Checks fd r v)
  | inl readable ↦ elim (Option-cases (handle_read new_channel r.received fd now v)) [
    | inl e ↦ rw (readable, e) (no_check fd v)
    | inr ((true, v'), e) ↦
        let (gone, ran, h) = handle_read-Handles new_channel fd now r.received v true v' e in
        rw (readable, e)
          (checked_later (subst (λ b. Effect fd b v v') h ran) (check_write-Checks fd r v'))
    | inr ((false, v'), e) ↦
        let (gone, ran, h) = handle_read-Handles new_channel fd now r.received v false v' e in
        let known = handle_read-connected new_channel fd now r.received v (false, v') e in
        rw (readable, e) (checked (read_failed-Effect fd gone v v' known ran))
  ]
]
