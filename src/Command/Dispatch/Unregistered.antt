-- ===== src/Command/Dispatch/Unregistered.antt =====
-- What a client that is not registered can do (src/b/CommandDispatcher.cpp,
-- src/b/ChannelCommandHandler.cpp): nothing to the channels.
use irc.Common.{ℕ, true, false, ◌≡◌, refl, Bool, List, Option, some, Text, arith, codes}
use irc.Health.{ConnectionHealthMonitor}
use irc.Common.Heap.{Heap}
use irc.State.Channel.{Channel}
use irc.State.Server.{ServerState, client_at, update_nick, get_client_by_fd}
use irc.Protocol.Message.{Message, get_single_param}
use irc.Command.Registration.{handle_pass, handle_nick, handle_user, finish_nick, maybe_register}
use irc.Command.Membership.{handle_join, handle_part}
use irc.Command.Texting.{handle_privmsg, handle_notice}
use irc.Command.Moderation.{handle_kick, handle_invite, handle_topic}
use irc.Command.Mode.{handle_mode}
use irc.Command.Consistency.Run.{state-handle_text_message}
use irc.Command.Dispatch.{
  handle_ping, handle_quit, guarded, handle_unknown, run_command, dispatch_to, dispatch,
}

-- The channels: the map of their names, and the objects.
abbrev pub channels_of : ServerState → List (Text × ℕ) × Heap Channel
channels_of s = (s.channels, s.channel_objects)

module _ (fd : ℕ) (msg : Message) (q p : ℕ) (s : ServerState) where
  channels-update_nick : (nick : Text) → channels_of (update_nick p nick s).1 ≡ channels_of s
  unfolding update_nick
  channels-update_nick nick = ground arith

  channels-handle_pass : channels_of (handle_pass fd msg p s).1 ≡ channels_of s
  unfolding handle_pass
  channels-handle_pass = ground arith

  channels-handle_user : channels_of (handle_user fd msg p s).1 ≡ channels_of s
  unfolding handle_user maybe_register
  channels-handle_user = ground arith

  channels-finish_nick :
      (nick : Text) (b : Bool) (t : ServerState)
      → channels_of (finish_nick fd nick p (b, t)).1 ≡ channels_of t
  unfolding finish_nick maybe_register
  channels-finish_nick nick true t = ground arith
  channels-finish_nick nick false t = refl

  channels-handle_nick : channels_of (handle_nick fd msg p s).1 ≡ channels_of s
  unfolding handle_nick
  channels-handle_nick =
      let nick = get_single_param 0 msg in
      let (b, t) = update_nick p nick s in
      ground (arith, channels-finish_nick nick b t, channels-update_nick nick)

  module _ (unregistered : (client_at p s).registered ≡ false) where
    join-refused : (handle_join fd msg q p s).1 ≡ s
    unfolding handle_join
    join-refused = ground (arith, unregistered)

    part-refused : (handle_part fd msg p s).1 ≡ s
    unfolding handle_part
    part-refused = ground (arith, unregistered)

    kick-refused : (handle_kick fd msg p s).1 ≡ s
    unfolding handle_kick
    kick-refused = ground (arith, unregistered)

    invite-refused : (handle_invite fd msg p s).1 ≡ s
    unfolding handle_invite
    invite-refused = ground (arith, unregistered)

    topic-refused : (handle_topic fd msg p s).1 ≡ s
    unfolding handle_topic
    topic-refused = ground (arith, unregistered)

    mode-refused : (handle_mode fd msg p s).1 ≡ s
    unfolding handle_mode
    mode-refused = ground (arith, unregistered)

    channels-run_command : channels_of (run_command fd msg q p s).1 ≡ channels_of s
    unfolding run_command handle_ping handle_quit guarded handle_unknown handle_privmsg
        handle_notice
    channels-run_command = ground (
      arith,
      channels-handle_pass,
      channels-handle_nick,
      channels-handle_user,
      join-refused,
      part-refused,
      kick-refused,
      invite-refused,
      topic-refused,
      mode-refused,
      state-handle_text_message true fd msg (codes "PRIVMSG") p s,
      state-handle_text_message false fd msg (codes "NOTICE") p s,
    )

-- Whatever line a client sends that is not registered, no channel is made, removed or changed: neither
-- the names nor the members, topics, modes and invitations.
pub channels-dispatch :
    (fd : ℕ) (msg : Message) (now q p : ℕ) (s : ServerState)
    (monitor : Option ConnectionHealthMonitor)
    → get_client_by_fd fd s ≡ some p
    → (client_at p s).registered ≡ false
    → channels_of (dispatch fd msg now q s monitor).state ≡ channels_of s
unfolding dispatch dispatch_to
channels-dispatch fd msg now q p s monitor found unregistered =
    rw (dispatch, found) (ground (arith, channels-run_command fd msg q p s unregistered))
