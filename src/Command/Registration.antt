-- ===== src/Command/Registration.antt =====
-- PASS, NICK and USER of src/b/CommandDispatcher.cpp: how a client becomes registered.
use irc.Common.{ℕ, Bool, true, false, not, ◌&&◌, Text, codes, ltb, text_eq, if◌then◌else◌}
use irc.State.Names.{is_valid_nickname}
use irc.State.Client.{set_pass_ok, set_username, set_realname, can_register, mark_registered}
use irc.State.Server.{ServerState, client_at, change_client, update_nick}
use irc.Protocol.Message.{Message, get_param_count, get_single_param, has_param}
use irc.Protocol.Result.{CommandResult, no_result, add_reply}
use irc.Protocol.Replies.{
  need_more_params, already_registered, password_mismatch, erroneous_nickname, nick_in_use, welcome,
}
use irc.Command.Broadcast.{Outcome, answer}

unfoldable pub maybe_register : ℕ → CommandResult → ServerState → Outcome
maybe_register p result s =
    if not (not (client_at p s).registered && can_register (client_at p s))
    then (result, s)
    else let s' = change_client p mark_registered s in
      (add_reply (client_at p s').fd (welcome (client_at p s')) result, s')

unfoldable pub handle_pass : ℕ → Message → ℕ → ServerState → Outcome
handle_pass fd msg p s =
    if not (has_param 0 msg)
    then answer fd (need_more_params (client_at p s) (codes "PASS")) s
    else if (client_at p s).registered
    then answer fd (already_registered (client_at p s)) s
    else if not (text_eq (get_single_param 0 msg) s.password)
    then answer fd password_mismatch s
    else (no_result, change_client p (set_pass_ok true) s)

unfoldable pub finish_nick : ℕ → Text → ℕ → Bool × ServerState → Outcome
unfolding maybe_register
finish_nick fd nick p (true, s) = maybe_register p no_result s
finish_nick fd nick p (false, s) = answer fd (nick_in_use nick) s

unfoldable pub handle_nick : ℕ → Message → ℕ → ServerState → Outcome
unfolding finish_nick
handle_nick fd msg p s =
    if not (has_param 0 msg)
    then answer fd (need_more_params (client_at p s) (codes "NICK")) s
    else let nick = get_single_param 0 msg in
      if not (is_valid_nickname nick)
      then answer fd (erroneous_nickname (client_at p s) nick) s
      else finish_nick fd nick p (update_nick p nick s)

unfoldable pub handle_user : ℕ → Message → ℕ → ServerState → Outcome
unfolding maybe_register
handle_user fd msg p s =
    if ltb (get_param_count msg) 4
    then answer fd (need_more_params (client_at p s) (codes "USER")) s
    else if (client_at p s).registered
    then answer fd (already_registered (client_at p s)) s
    else maybe_register p no_result (
        change_client p (set_realname (get_single_param 3 msg))
          (change_client p (set_username (get_single_param 0 msg)) s))
