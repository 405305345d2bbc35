-- ===== src/Command/Consistency/Rules.antt =====
-- One rule for each way in which a handler branches.
use irc.Common.{Text, Bool, true, false, Option, none, some, ◌≡◌, refl, if◌then◌else◌}
use irc.State.Server.{ServerState}
use irc.Protocol.Result.{CommandResult}
use irc.Command.Broadcast.{Outcome}

-- The property holds of the state that a handler leaves.
pub record Keeps (P : ServerState → Type 0) (o : Outcome) : Type 0 where
  pub kept : P o.1

module _ {P : ServerState → Type 0} where
  pub Keeps-if :
      (b : Bool) (x y : Outcome)
      → (b ≡ true → Keeps P x)
      → (b ≡ false → Keeps P y)
      → Keeps P (if b then x else y)
  Keeps-if true x y kx ky = kx refl
  Keeps-if false x y kx ky = ky refl

  -- Answers alone.
  pub Keeps-here : {s : ServerState} (r : CommandResult) → P s → Keeps P (r, s)
  Keeps-here r w = record { kept = w }

  -- A guard answers and leaves the state alone, or the handler goes on.
  pub Keeps-guard :
      (s : ServerState)
      → P s
      → (b : Bool) (r : CommandResult) (y : Outcome) → (b ≡ false → Keeps P y)
      → Keeps P (if b then (r, s) else y)
  Keeps-guard s w true r y ky = Keeps-here r w
  Keeps-guard s w false r y ky = ky refl

  -- A lookup that finds nothing is answered; else the handler goes on with what it found.
  pub Keeps-found {ℓ} :
      {A : Type ℓ} (s : ServerState)
      → P s
      → (o : Option A) (r : CommandResult) (f : A → Outcome)
      → ((a : A) → o ≡ some a → Keeps P (f a))
      → Keeps P (elim o [ none ↦ (r, s) | some a ↦ f a ])
  Keeps-found s w none r f kf = Keeps-here r w
  Keeps-found s w (some a) r f kf = kf a refl

  -- A refusal is answered; without one the handler goes on.
  pub Keeps-unless :
      (s : ServerState)
      → P s
      → (o : Option Text) (r : Text → CommandResult) (y : Outcome) → Keeps P y
      → Keeps P (elim o [ some refusal ↦ (r refusal, s) | none ↦ y ])
  Keeps-unless s w none r y ky = ky
  Keeps-unless s w (some refusal) r y ky = Keeps-here (r refusal) w
