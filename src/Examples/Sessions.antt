-- ===== src/Examples/Sessions.antt =====
-- A short session: two clients come, one registers and joins a channel, and goes.
use irc.Common.{
  not, ◌&&◌, ◌||◌, text_eq, ◌≢◌, ◌∷◌, ℕ, true, false, ◌≡◌, refl, Text, codes, none, [],
}
use irc.Protocol.Parser.{parse}
use irc.State.Client.{
  new_client, set_nick, join_channel, set_pass_ok, set_username, set_realname, mark_registered,
  can_register,
}
use irc.State.Channel.{new_channel, add_member, has_member, member_count, set_operator}
use irc.State.Server.{
  ServerState, server_state, client_at, channel_at, add_client, update_nick, add_client_to_channel,
  get_or_create_channel, make_channel, enter_channel, get_client_by_fd, remove_client,
}
use irc.State.Server.Links.{IsConsistent, client_live, channel_live}
use irc.Command.Consistency.Soundness.{IsSound}
use irc.Command.Dispatch.{dispatch, dispatch_to, run_command, guarded}
use irc.Common.Map.{find, insert, put, same, erase}
use irc.Common.Map.Laws.{same_refl}
use irc.State.Names.Order.{name_order}
use irc.State.Names.{irc_less, char_less, irc_tolower, is_valid_nickname, is_valid_channel_name}
use irc.State.Registry
use irc.State.Registry.{rename}
use irc.Protocol.Message.{has_param, get_single_param}
use irc.Command.Registration.{handle_pass, handle_nick, handle_user, finish_nick, maybe_register}
use irc.Command.Membership.{handle_join}
use irc.Session.{Step, accepted, commanded, disconnected, Reach, here, next}
use irc.Session.Invariants.{Reach-IsConsistent, Reach-nick_unique}
use irc.Session.Passes.{has_passed}
use irc.Session.Admission.{Reach-IsSound}

abbrev pub empty_server : ServerState
empty_server = server_state (codes "secret") (λ _. new_client 0 []) (λ _. new_channel [])

abbrev pub accepted_state : ServerState
accepted_state =
    add_client 5 (codes "10.0.0.2") 200 (add_client 4 (codes "10.0.0.1") 100 empty_server)

-- The state after a line from the client with descriptor 4; a new channel is made at `q`.
abbrev pub after_line : Text → ℕ → ServerState → ServerState
after_line line q s = (dispatch 4 (parse line) 0 q s none).state

abbrev pub joined_state : ServerState
joined_state = after_line (codes "JOIN #42") 900 (
    after_line (codes "USER alice 0 * :Alice") 900
      (after_line (codes "NICK Alice") 900 (after_line (codes "PASS secret") 900 accepted_state)))

-- Everything that runs when the session is evaluated.
unfoldable pub evaluated : Unit {0}
unfolding server_state add_client Registry.add_client find insert put same irc_less char_less
    irc_tolower new_client new_channel parse dispatch dispatch_to run_command guarded handle_pass
    handle_nick handle_user handle_join text_eq has_param get_single_param update_nick
    Registry.update_nick rename set_nick is_valid_nickname is_valid_channel_name
    add_client_to_channel get_or_create_channel make_channel enter_channel add_member join_channel
    has_member member_count set_operator set_pass_ok set_username set_realname mark_registered
    can_register get_client_by_fd Registry.get_client_by_fd erase finish_nick maybe_register
evaluated = tt

fresh_client : client_live 200 (add_client 4 (codes "10.0.0.1") 100 empty_server) ≡ false
unfolding evaluated
fresh_client = refl

fresh_passed : channel_live 900 (after_line (codes "PASS secret") 900 accepted_state) ≡ false
unfolding evaluated
fresh_passed = refl

-- Two clients come; the first gives the password, a name, joins a channel, and is gone.
abbrev pub passed_state : ServerState
passed_state = after_line (codes "PASS secret") 900 accepted_state

abbrev pub nicked_state : ServerState
nicked_state = after_line (codes "NICK Alice") 900 passed_state

abbrev registered_state : ServerState
registered_state = after_line (codes "USER alice 0 * :Alice") 900 nicked_state

fresh_nicked : channel_live 900 nicked_state ≡ false
unfolding evaluated
fresh_nicked = refl

fresh_registered : channel_live 900 registered_state ≡ false
unfolding evaluated
fresh_registered = refl

fresh_accepted : channel_live 900 accepted_state ≡ false
unfolding evaluated
fresh_accepted = refl

line : (text : Text) (s : ServerState) → channel_live 900 s ≡ false → Step s (after_line text 900 s)
line text s fresh = commanded 4 (parse text) 0 900 none s fresh

first_fresh : client_live 100 empty_server ≡ false
unfolding evaluated
first_fresh = refl

session_joined : Reach empty_server joined_state
session_joined =
    next
      (next
        (next
          (next
            (next (next here (accepted 4 (codes "10.0.0.1") 100 _ first_fresh))
              (accepted 5 (codes "10.0.0.2") 200 _ fresh_client))
            (line (codes "PASS secret") accepted_state fresh_accepted))
          (line (codes "NICK Alice") passed_state fresh_passed))
        (line (codes "USER alice 0 * :Alice") nicked_state fresh_nicked))
      (line (codes "JOIN #42") registered_state fresh_registered)

Reach-IsConsistent_example : IsConsistent (remove_client 4 joined_state)
Reach-IsConsistent_example =
    Reach-IsConsistent (codes "secret") (λ _. new_client 0 []) (λ _. new_channel [])
      (next session_joined (disconnected 4 joined_state))

Reach-IsSound_example :
    IsSound joined_state
    × ((not (client_live 100 joined_state && (client_at 100 joined_state).registered)
          || has_passed (codes "secret") 100 session_joined)
        ≡ true)
Reach-IsSound_example =
    Reach-IsSound (codes "secret") (λ _. new_client 0 []) (λ _. new_channel []) 100 session_joined

-- Who is in the channel, and who is registered.
joined_alive : client_live 100 joined_state ≡ true
unfolding evaluated
joined_alive = refl

joined_nick : (client_at 100 joined_state).nickname ≡ codes "Alice"
unfolding evaluated
joined_nick = refl

joined_named : (client_at 100 joined_state).nickname ≢ []
joined_named e = cc (joined_nick, e)

joined_members : (channel_at 900 joined_state).members ≡ (100, record { is_operator = true }) ∷ []
unfolding evaluated
joined_members = refl

Reach-nick_unique_example : ◌≡◌ {A = ℕ} 100 100
Reach-nick_unique_example =
    Reach-nick_unique (codes "secret") (λ _. new_client 0 []) (λ _. new_channel []) 100 100
      session_joined joined_alive joined_alive joined_named
      (same_refl name_order (client_at 100 joined_state).nickname)
