-- ===== src/Command/Consistency/Known.antt =====
-- No command makes or removes a client: the descriptors with a client stay as they are.
use irc.Common.{ℕ, Bool, ◌≡◌, refl, Text, some, arith, ◌∙◌, Option-cases, inl, inr}
use irc.State.Server.{
  ServerState, get_channel, get_or_create_channel, make_channel, enter_channel,
  remove_channel_if_empty, drop_channel, detach, update_nick, add_client_to_channel,
  remove_client_from_channel,
}
use irc.State.Registry
use irc.State.Server.Known.{known}
use irc.State.Server.Links.{IsConsistent}
use irc.Command.Consistency.Stable.{Stable}
use irc.Command.Consistency.Soundness.{IsConsistent-Stable, Whoever}

known-update_nick :
    (g p : ℕ) (name : Text) (s : ServerState) → known g (update_nick p name s).1 ≡ known g s
unfolding update_nick Registry.update_nick Registry.rename
known-update_nick g p name s = ground arith

known-join :
    (g p : ℕ) (name : Text) (q : ℕ) (s : ServerState)
    → known g (add_client_to_channel (some p) name q s).1 ≡ known g s
unfolding add_client_to_channel get_or_create_channel make_channel enter_channel
known-join g p name q s = ground arith

known-detach : (g p q : ℕ) (name : Text) (s : ServerState) → known g (detach p q name s) ≡ known g s
unfolding detach remove_channel_if_empty drop_channel
known-detach g p q name s = ground arith

known-leave :
    (g p : ℕ) (name : Text) (s : ServerState)
    → known g (remove_client_from_channel (some p) name s) ≡ known g s
unfolding remove_client_from_channel
known-leave g p name s = elim (Option-cases (get_channel name s)) [
  | inl absent ↦ rw (remove_client_from_channel, absent) refl
  | inr (q, found) ↦ ground (arith, found, known-detach g p q name s)
]

-- The state is consistent, and its clients are those of the given descriptors.
pub record IsKnownAs (clients : ℕ → Bool) (s : ServerState) : Type 0 where
  pub consistent : IsConsistent s
  pub known_as : (g : ℕ) → known g s ≡ clients g

module _ (clients : ℕ → Bool) where
  known_still :
      {s s' : ServerState}
      → IsKnownAs clients s
      → IsConsistent s'
      → ((g : ℕ) → known g s' ≡ known g s)
      → IsKnownAs clients s'
  known_still w c same = record { consistent = c; known_as = λ g. same g ∙ w.known_as g }

  -- What every command keeps.
  pub IsKnownAs-Stable : Stable Whoever (IsKnownAs clients)
  IsKnownAs-Stable =
      let i = IsConsistent-Stable in
      record {
        consistent = λ s w. w.consistent;
        password = λ p s w a. known_still w (i.password p s w.consistent a) (λ g. refl);
        register = λ p s w able. known_still w (i.register p s w.consistent able) (λ g. refl);
        nick = λ p name s w alive valid.
            known_still w (i.nick p name s w.consistent alive valid)
              (λ g. known-update_nick g p name s);
        user = λ p u r s w new. known_still w (i.user p u r s w.consistent new) (λ g. refl);
        join = λ p name q s w alive fresh valid.
            known_still w (i.join p name q s w.consistent alive fresh valid)
              (λ g. known-join g p name q s);
        leave = λ p name s w.
            known_still w (i.leave p name s w.consistent) (λ g. known-leave g p name s);
        invite = λ p q s w alive. known_still w (i.invite p q s w.consistent alive) (λ g. refl);
        topic = λ q text s w. known_still w (i.topic q text s w.consistent) (λ g. refl);
        modes = λ q f s w kept. known_still w (i.modes q f s w.consistent kept) (λ g. refl);
        operator = λ p q b s w. known_still w (i.operator p q b s w.consistent) (λ g. refl);
      }
