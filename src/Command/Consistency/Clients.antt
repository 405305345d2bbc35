-- ===== src/Command/Consistency/Clients.antt =====
-- The handlers that change clients: PASS, NICK, USER.
use irc.Common.{ℕ, Bool, true, false, ◌≡◌, not, ◌&&◌, ltb, text_eq, Text, arith}
use irc.State.Names.{is_valid_nickname}
use irc.State.Client.{can_register}
use irc.State.Server.{ServerState, client_at, update_nick}
use irc.State.Server.Links.{client_live}
use irc.Protocol.Message.{Message, get_param_count, get_single_param, has_param}
use irc.Protocol.Result.{CommandResult}
use irc.Command.Consistency.Stable.{Stable}
use irc.Command.Consistency.Rules.{Keeps, Keeps-guard, Keeps-here}
use irc.Command.Registration.{maybe_register, handle_pass, handle_nick, handle_user, finish_nick}

pub not-true : (b : Bool) → not b ≡ false → b ≡ true
not-true b h = ground arith

module _ {Admits : ℕ → Type 0} {P : ServerState → Type 0} (i : Stable Admits P) where
  maybe_register-Keeps :
      (p : ℕ) (r : CommandResult) {s : ServerState} → P s → Keeps P (maybe_register p r s)
  unfolding maybe_register
  maybe_register-Keeps p r {s} w =
      Keeps-guard s w (not (not (client_at p s).registered && can_register (client_at p s))) _ _
        λ able. Keeps-here _ (i.register p s w (ground arith))

  finish_nick-Keeps :
      (fd : ℕ) (nick : Text) (p : ℕ) (o : Bool × ServerState)
      → P o.1
      → Keeps P (finish_nick fd nick p o)
  unfolding finish_nick
  finish_nick-Keeps fd nick p (true, s) w = maybe_register-Keeps p _ w
  finish_nick-Keeps fd nick p (false, s) w = Keeps-here _ w

module _ {Admits : ℕ → Type 0} {P : ServerState → Type 0} (i : Stable Admits P) (fd : ℕ)
    (msg : Message) (p : ℕ) {s : ServerState} (w : P s) where
  -- PASS admits only who sends the password.
  pub handle_pass-Keeps :
      (has_param 0 msg ≡ true → text_eq (get_single_param 0 msg) s.password ≡ true → Admits p)
      → Keeps P (handle_pass fd msg p s)
  unfolding handle_pass
  handle_pass-Keeps admits =
      let same = text_eq (get_single_param 0 msg) s.password in
      Keeps-guard s w (not (has_param 0 msg)) _ _ λ given.
        Keeps-guard s w (client_at p s).registered _ _ λ _. Keeps-guard s w (not same) _ _ λ right.
          Keeps-here _
            (i.password p s w (admits (not-true (has_param 0 msg) given) (not-true same right)))

  pub handle_nick-Keeps : client_live p s ≡ true → Keeps P (handle_nick fd msg p s)
  unfolding handle_nick
  handle_nick-Keeps alive =
      let nick = get_single_param 0 msg in
      Keeps-guard s w (not (has_param 0 msg)) _ _ λ _.
        Keeps-guard s w (not (is_valid_nickname nick)) _ _ λ valid.
          finish_nick-Keeps i fd nick p (update_nick p nick s)
            (i.nick p nick s w alive (not-true (is_valid_nickname nick) valid))

  pub handle_user-Keeps : Keeps P (handle_user fd msg p s)
  unfolding handle_user
  handle_user-Keeps = Keeps-guard s w (ltb (get_param_count msg) 4) _ _ λ _.
      Keeps-guard s w (client_at p s).registered _ _ λ new.
        maybe_register-Keeps i p _
          (i.user p (get_single_param 0 msg) (get_single_param 3 msg) s w new)
