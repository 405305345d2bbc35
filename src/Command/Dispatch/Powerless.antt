-- ===== src/Command/Dispatch/Powerless.antt =====
-- What a member that is not an operator of a channel can do to it (src/b/ChannelCommandHandler.cpp).
use irc.Common.{ℕ, true, false, ◌≡◌, some, arith}
use irc.State.Channel.{is_operator}
use irc.State.Server.{ServerState, channel_at, get_channel}
use irc.Protocol.Message.{Message, get_single_param}
use irc.Command.Moderation.{handle_kick, handle_topic, topic_of_channel}
use irc.Command.Mode.{handle_mode, mode_of_channel}

module _ (fd : ℕ) (msg : Message) (p q : ℕ) (s : ServerState) where
  kick-powerless :
      get_channel (get_single_param 0 msg) s ≡ some q
      → is_operator p (channel_at q s) ≡ false
      → (handle_kick fd msg p s).1 ≡ s
  unfolding handle_kick
  kick-powerless found member = ground (arith, found, member)

  mode-powerless :
      get_channel (get_single_param 0 msg) s ≡ some q
      → is_operator p (channel_at q s) ≡ false
      → (handle_mode fd msg p s).1 ≡ s
  unfolding handle_mode mode_of_channel
  mode-powerless found member = ground (arith, found, member)

  -- A client that is not an operator of the channel named by the first parameter changes nothing by
  -- KICK, and nothing by MODE.
  pub state-kick_mode :
      get_channel (get_single_param 0 msg) s ≡ some q
      → is_operator p (channel_at q s) ≡ false
      → ((handle_kick fd msg p s).1 ≡ s) × ((handle_mode fd msg p s).1 ≡ s)
  state-kick_mode found member = (kick-powerless found member, mode-powerless found member)

  -- On a channel whose topic is restricted, a client that is not an operator of it changes nothing by
  -- TOPIC.
  pub state-handle_topic :
      get_channel (get_single_param 0 msg) s ≡ some q
      → (channel_at q s).modes.topic_restricted ≡ true
      → is_operator p (channel_at q s) ≡ false
      → (handle_topic fd msg p s).1 ≡ s
  unfolding handle_topic topic_of_channel
  state-handle_topic found restricted member = ground (arith, found, restricted, member)
