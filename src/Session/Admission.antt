-- ===== src/Session/Admission.antt =====
-- A registered client has sent a PASS with the password of the server.
use irc.Common.{
  ℕ, Bool, true, false, not, ◌&&◌, ◌||◌, ◌≡◌, refl, sym, ap, ◌∙◌, Text, arith, text_eq, ==_iff,
  subst,
}
use irc.State.Client.{
  Client, new_client, set_pass_ok, set_username, set_realname, set_nick, mark_registered,
}
use irc.State.Channel.{Channel}
use irc.State.Registry
use irc.State.Server.{ServerState, server_state, add_client, client_at, change_client, update_nick}
use irc.State.Server.Links.{client_live}
use irc.State.Server.Frame.{join-account, leave-account}
use irc.State.Server.Departure.{remove_client-frame}
use irc.Protocol.Message.{get_single_param}
use irc.Command.Consistency.Run.{dispatch-keeps}
use irc.Command.Consistency.Stable.{Stable}
use irc.Command.Consistency.Soundness.{IsSound-Stable, IsSound}
use irc.Session.{Step, accepted, commanded, disconnected, Reach, here, next}
use irc.Session.Passes.{
  passes, passes_by, has_passed, password-update_nick, password-join, password-leave,
  password-remove_client,
}
use irc.Session.Invariants.{server_state-IsSound, add_client-IsSound, remove_client-IsSound}

-- The state is sound, its password is this one, and whoever PASS has accepted is among the given.
record IsAdmitted (password : Text) (given : ℕ → Bool) (s : ServerState) : Type 0 where
  pub sound : IsSound s
  pub same_password : s.password ≡ password
  pub admitted : (p : ℕ) → client_live p s ≡ true → (client_at p s).pass_ok ≡ true → given p ≡ true

-- What PASS has accepted.
abbrev pass_ok_of : Client → Bool
pass_ok_of c = c.pass_ok

module _ {password : Text} {given : ℕ → Bool} {s s' : ServerState} (w : IsAdmitted password given s)
    (sound : IsSound s') where
  -- A step that lets PASS accept nobody.
  framed-IsAdmitted :
      s'.password ≡ s.password
      → ((t : ℕ)
          → client_live t s' ≡ true
          → (client_live t s ≡ true) × ((client_at t s').pass_ok ≡ (client_at t s).pass_ok))
      → IsAdmitted password given s'
  framed-IsAdmitted same frame = record {
    sound = sound;
    same_password = same ∙ w.same_password;
    admitted = λ t h k. ground (arith, w.admitted t, frame t h);
  }

module _ (password : Text) (given : ℕ → Bool) where
  pass-IsAdmitted :
      (p : ℕ) (s : ServerState)
      → IsAdmitted password given s
      → given p ≡ true
      → IsAdmitted password given (change_client p (set_pass_ok true) s)
  unfolding set_pass_ok
  pass-IsAdmitted p s w gave = record {
    sound = IsSound-Stable.password p s w.sound tt;
    same_password = w.same_password;
    admitted = λ t h k. ground (arith, w.admitted t, gave, ==_iff p t);
  }

  -- What every command keeps.
  IsAdmitted-Stable : Stable (λ p. given p ≡ true) (IsAdmitted password given)
  unfolding set_username set_realname mark_registered update_nick Registry.update_nick
      Registry.rename set_nick
  IsAdmitted-Stable =
      let i = IsSound-Stable in
      record {
        consistent = λ s w. w.sound.consistent;
        password = λ p s w gave. pass-IsAdmitted p s w gave;
        register = λ p s w able.
            framed-IsAdmitted w (i.register p s w.sound able) refl (λ t h. (h, ground arith));
        nick = λ p name s w alive valid.
            framed-IsAdmitted w (i.nick p name s w.sound alive valid)
              (password-update_nick p name s) (λ t h. ground (arith, h));
        user = λ p u r s w new.
            framed-IsAdmitted w (i.user p u r s w.sound new) refl (λ t h. (h, ground arith));
        join = λ p name q s w alive fresh valid.
            framed-IsAdmitted w (i.join p name q s w.sound alive fresh valid)
              (password-join p name q s)
              (λ t h.
                let (same, live) = join-account t p name q s in (sym live ∙ h, ap pass_ok_of same));
        leave = λ p name s w.
            framed-IsAdmitted w (i.leave p name s w.sound) (password-leave p name s) (λ t h.
              let (same, live) = leave-account t p name s in (sym live ∙ h, ap pass_ok_of same));
        invite = λ p q s w alive.
            framed-IsAdmitted w (i.invite p q s w.sound alive) refl (λ t h. (h, refl));
        topic =
            λ q text s w. framed-IsAdmitted w (i.topic q text s w.sound) refl (λ t h. (h, refl));
        modes = λ q f s w kept.
            framed-IsAdmitted w (i.modes q f s w.sound kept) refl (λ t h. (h, refl));
        operator =
            λ p q b s w. framed-IsAdmitted w (i.operator p q b s w.sound) refl (λ t h. (h, refl));
      }

module _ (password : Text) (clients : ℕ → Client) (channels : ℕ → Channel) where
  start-IsAdmitted :
      (given : ℕ → Bool) → IsAdmitted password given (server_state password clients channels)
  unfolding server_state
  start-IsAdmitted given = record {
    sound = server_state-IsSound password clients channels;
    same_password = refl;
    admitted = λ p h k. cc;
  }

-- More may be given.
more-IsAdmitted :
    (password : Text) (given more : ℕ → Bool) (s : ServerState)
    → ((p : ℕ) → given p ≡ true → more p ≡ true)
    → IsAdmitted password given s
    → IsAdmitted password more s
more-IsAdmitted password given more s le w = record {
  sound = w.sound;
  same_password = w.same_password;
  admitted = λ p h k. le p (w.admitted p h k);
}

Step-IsAdmitted :
    (password : Text) (given : ℕ → Bool) {s t : ServerState} (st : Step s t)
    → IsAdmitted password given s
    → IsAdmitted password (λ p. passes_by password p (given p) st) t
unfolding passes_by passes add_client Registry.add_client new_client
Step-IsAdmitted password given (accepted fd host q s fresh) w = record {
  sound = add_client-IsSound fd host q w.sound fresh;
  same_password = w.same_password;
  admitted = λ p h k. ground (arith, w.admitted p, ==_iff q p);
}
Step-IsAdmitted password given (commanded fd msg now q monitor s fresh) w =
    let more = λ (p : ℕ). passes password p fd msg s || given p in
    dispatch-keeps (IsAdmitted-Stable password more) fd msg now q monitor
      (more-IsAdmitted password given more s (λ p h. ground (arith, h)) w) fresh
      (λ p found pass has right.
        let same : text_eq (get_single_param 0 msg) password ≡ true =
          subst (λ k. text_eq (get_single_param 0 msg) k ≡ true) w.same_password right in
        rw (passes, found, pass, has, same) (ground (arith, ==_iff p p)))
Step-IsAdmitted password given (disconnected fd s) w =
    framed-IsAdmitted w (remove_client-IsSound fd w.sound) (password-remove_client fd s)
      (λ t h. let (same, live) = (remove_client-frame t fd s).0 h in (live, ap pass_ok_of same))

Reach-IsAdmitted :
    (password : Text) (clients : ℕ → Client) (channels : ℕ → Channel) {t : ServerState}
    (r : Reach (server_state password clients channels) t)
    → IsAdmitted password (λ p. has_passed password p r) t
unfolding has_passed
Reach-IsAdmitted password clients channels here =
    start-IsAdmitted password clients channels (λ _. false)
Reach-IsAdmitted password clients channels (next r st) =
    Step-IsAdmitted password (λ p. has_passed password p r) st
      (Reach-IsAdmitted password clients channels r)

-- From an empty server, whatever clients are accepted, send and leave in whatever order: a registered
-- client has sent a PASS with the password of the server since it was accepted, and has a nickname, a
-- user name and a real name; nicknames are valid once given; every channel has a valid name, and either
-- no limit or one from 1 to INT_MAX.
pub Reach-IsSound :
    (password : Text) (clients : ℕ → Client) (channels : ℕ → Channel) {t : ServerState} (p : ℕ)
    (r : Reach (server_state password clients channels) t)
    → IsSound t
      × ((not (client_live p t && (client_at p t).registered) || has_passed password p r) ≡ true)
Reach-IsSound password clients channels {t} p r =
    let w = Reach-IsAdmitted password clients channels r in
    (w.sound, ground (arith, w.sound.admitted p, w.admitted p))
