-- ===== src/Command/Consistency/Channels.antt =====
-- The handlers that change channels: JOIN, PART, KICK, INVITE, TOPIC, MODE.
use irc.Common.{
  not, ltb, get_or, ◌&&◌, ◌==◌, [], ℕ, Bool, true, false, ◌≡◌, Text, Option, none, some,
}
use irc.State.Names.{is_valid_channel_name, is_valid_nickname}
use irc.State.Modes.{
  ChannelModes, limit_ok, set_key, unset_key, set_limit, unset_limit, set_invite_only,
  set_topic_restricted,
}
use irc.State.Server.{
  ServerState, client_at, channel_at, add_client_to_channel, get_client_by_nick, get_channel,
  invite_client_to_channel,
}
use irc.State.Registry
use irc.State.Channel.{has_member, is_operator}
use irc.State.Server.Links.{client_live, channel_live}
use irc.State.Modes.Laws.{
  limit-unset_key, limit-set_key, limit-unset_limit, limit-set_limit, limit-set_invite_only,
  limit-set_topic_restricted,
}
use irc.Command.Mode.Limit.{limit_ok-parse_positive_limit}
use irc.Command.Consistency.Stable.{Stable}
use irc.Command.Consistency.Clients.{not-true}
use irc.Protocol.Message.{Message, get_single_param, has_param, get_param_count}
use irc.Command.Consistency.Rules.{
  Keeps, Keeps-if, Keeps-guard, Keeps-found, Keeps-unless, Keeps-here,
}
use irc.Command.Membership.{refuse_join, welcome_to_channel, handle_join, handle_part}
use irc.Command.Moderation.{
  kick_target, handle_kick, invite_target, handle_invite, topic_of_channel, handle_topic,
}
use irc.Command.Mode.{
  parse_positive_limit, is_supported_single_mode_token, announce_mode, mode_key, mode_limit,
  apply_operator_mode, apply_mode, handle_mode,
}

welcome_to_channel-keeps :
    (P : ServerState → Type 0) (fd p : ℕ) (name : Text) (o : Option ℕ × ServerState)
    → P o.1
    → P (welcome_to_channel fd p name o).1
unfolding welcome_to_channel
welcome_to_channel-keeps P fd p name (none, s) w = w
welcome_to_channel-keeps P fd p name (some q, s) w = w

module _ {Admits : ℕ → Type 0} {P : ServerState → Type 0} (i : Stable Admits P) (fd : ℕ)
    (msg : Message) (p : ℕ) {s : ServerState} (w : P s) where
  pub handle_part-Keeps : Keeps P (handle_part fd msg p s)
  unfolding handle_part
  handle_part-Keeps =
      let name = get_single_param 0 msg in
      Keeps-guard s w (not (client_at p s).registered) _ _ λ _.
        Keeps-guard s w (not (has_param 0 msg)) _ _ λ _.
          Keeps-guard s w (not (is_valid_channel_name name)) _ _ λ _.
            Keeps-found s w (get_channel name s) _ _ λ q found.
              Keeps-guard s w (not (has_member p (channel_at q s))) _ _
                λ _. Keeps-here _ (i.leave p name s w)

  kick_target-Keeps : (q : ℕ) → Keeps P (kick_target fd msg p q s)
  unfolding kick_target
  kick_target-Keeps q =
      let name = get_single_param 0 msg in
      let nick = get_single_param 1 msg in
      Keeps-guard s w (not (is_valid_nickname nick)) _ _ λ _.
        Keeps-found s w (get_client_by_nick nick s) _ _ λ t found.
          Keeps-guard s w (not (has_member t (channel_at q s))) _ _
            λ _. Keeps-here _ (i.leave t name s w)

  pub handle_kick-Keeps : Keeps P (handle_kick fd msg p s)
  unfolding handle_kick
  handle_kick-Keeps =
      let name = get_single_param 0 msg in
      Keeps-guard s w (not (client_at p s).registered) _ _ λ _.
        Keeps-guard s w (ltb (get_param_count msg) 2) _ _ λ _.
          Keeps-guard s w (not (is_valid_channel_name name)) _ _ λ _.
            Keeps-found s w (get_channel name s) _ _ λ q found.
              Keeps-guard s w (not (has_member p (channel_at q s))) _ _ λ _.
                Keeps-guard s w (not (is_operator p (channel_at q s))) _ _ λ _. kick_target-Keeps q

  invite_target-Keeps : (t q : ℕ) → client_live t s ≡ true → Keeps P (invite_target fd msg p t q s)
  unfolding invite_target invite_client_to_channel
  invite_target-Keeps t q alive =
      let ch = channel_at q s in
      Keeps-guard s w (not (has_member p ch)) _ _ λ _. Keeps-guard s w (has_member t ch) _ _ λ _.
        Keeps-guard s w (ch.modes.invite_only && not (is_operator p ch)) _ _
          λ _. Keeps-here _ (i.invite t q s w alive)

  pub handle_invite-Keeps : Keeps P (handle_invite fd msg p s)
  unfolding handle_invite get_client_by_nick Registry.get_client_by_nick
  handle_invite-Keeps =
      let nick = get_single_param 0 msg in
      let name = get_single_param 1 msg in
      Keeps-guard s w (not (client_at p s).registered) _ _ λ _.
        Keeps-guard s w (ltb (get_param_count msg) 2) _ _ λ _.
          Keeps-guard s w (not (is_valid_nickname nick)) _ _ λ _.
            Keeps-guard s w (not (is_valid_channel_name name)) _ _ λ _.
              Keeps-found s w (get_client_by_nick nick s) _ _ λ t found.
                Keeps-found s w (get_channel name s) _ _ λ q _.
                  invite_target-Keeps t q
                    ((i.consistent s w).linked.owned.nick_found nick t found).0

  topic_of_channel-Keeps : (q : ℕ) → Keeps P (topic_of_channel fd msg p q s)
  unfolding topic_of_channel
  topic_of_channel-Keeps q =
      let ch = channel_at q s in
      Keeps-guard s w (not (has_param 1 msg)) _ _ λ _.
        Keeps-guard s w (ch.modes.topic_restricted && not (is_operator p ch)) _ _
          λ _. Keeps-here _ (i.topic q (get_single_param 1 msg) s w)

  pub handle_topic-Keeps : Keeps P (handle_topic fd msg p s)
  unfolding handle_topic
  handle_topic-Keeps =
      let name = get_single_param 0 msg in
      Keeps-guard s w (not (client_at p s).registered) _ _ λ _.
        Keeps-guard s w (not (has_param 0 msg)) _ _ λ _.
          Keeps-guard s w (not (is_valid_channel_name name)) _ _ λ _.
            Keeps-found s w (get_channel name s) _ _ λ q _.
              Keeps-guard s w (not (has_member p (channel_at q s))) _ _
                λ _. topic_of_channel-Keeps q

  pub handle_join-Keeps :
      (q : ℕ)
      → client_live p s ≡ true
      → channel_live q s ≡ false
      → Keeps P (handle_join fd msg q p s)
  unfolding handle_join
  handle_join-Keeps q alive fresh =
      let name = get_single_param 0 msg in
      Keeps-guard s w (not (client_at p s).registered) _ _ λ _.
        Keeps-guard s w (not (has_param 0 msg)) _ _ λ _.
          Keeps-guard s w (not (is_valid_channel_name name)) _ _ λ valid.
            Keeps-unless s w (refuse_join msg p name s) _ _ (record {
              kept =
                  welcome_to_channel-keeps P fd p name (add_client_to_channel (some p) name q s)
                    (i.join p name q s w alive fresh (not-true (is_valid_channel_name name) valid));
            })

  announce_mode-Keeps :
      (f : ChannelModes → ChannelModes) (arg : Text) (q : ℕ)
      → ((m : ChannelModes) → limit_ok m.limit ≡ true → limit_ok (f m).limit ≡ true)
      → Keeps P (announce_mode f arg msg p q s)
  unfolding announce_mode
  announce_mode-Keeps f arg q kept = Keeps-here _ (i.modes q f s w kept)

  mode_key-Keeps : (adding : Bool) (q : ℕ) → Keeps P (mode_key adding fd msg p q s)
  unfolding mode_key
  mode_key-Keeps adding q =
      Keeps-if (not adding) _ _ (λ _. announce_mode-Keeps unset_key [] q limit-unset_key)
        λ _. Keeps-guard s w (not (has_param 2 msg)) _ _ λ _.
          announce_mode-Keeps (set_key (get_single_param 2 msg)) (get_single_param 2 msg) q
            (limit-set_key (get_single_param 2 msg))

  mode_limit-Keeps : (adding : Bool) (q : ℕ) → Keeps P (mode_limit adding fd msg p q s)
  unfolding mode_limit
  mode_limit-Keeps adding q =
      let arg = get_single_param 2 msg in
      Keeps-if (not adding) _ _ (λ _. announce_mode-Keeps unset_limit [] q limit-unset_limit)
        λ _. Keeps-guard s w (not (has_param 2 msg)) _ _ λ _.
          Keeps-found s w (parse_positive_limit arg) _ _ λ limit parsed.
            announce_mode-Keeps (set_limit limit) arg q
              (limit-set_limit limit (limit_ok-parse_positive_limit arg limit parsed))

  apply_operator_mode-Keeps :
      (adding : Bool) (q : ℕ) → Keeps P (apply_operator_mode adding fd msg p q s)
  unfolding apply_operator_mode
  apply_operator_mode-Keeps adding q =
      let nick = get_single_param 2 msg in
      Keeps-guard s w (not (has_param 2 msg)) _ _ λ _.
        Keeps-guard s w (not (is_valid_nickname nick)) _ _ λ _.
          Keeps-found s w (get_client_by_nick nick s) _ _ λ t _.
            Keeps-guard s w (not (has_member t (channel_at q s))) _ _
              λ _. Keeps-here _ (i.operator t q adding s w)

  apply_mode-Keeps : (q : ℕ) → Keeps P (apply_mode fd msg p q s)
  unfolding apply_mode
  apply_mode-Keeps q =
      let token = get_single_param 1 msg in
      let adding = get_or token 0 0 == b'+' in
      let letter = get_or token 1 0 in
      Keeps-if (letter == b'i') _ _
        (λ _. announce_mode-Keeps (set_invite_only adding) [] q (limit-set_invite_only adding))
        λ _.
          Keeps-if (letter == b't') _ _
            (λ _.
              announce_mode-Keeps (set_topic_restricted adding) [] q
                (limit-set_topic_restricted adding))
            λ _.
              Keeps-if (letter == b'k') _ _ (λ _. mode_key-Keeps adding q)
                λ _.
                  Keeps-if (letter == b'l') _ _ (λ _. mode_limit-Keeps adding q)
                    λ _. apply_operator_mode-Keeps adding q

  pub handle_mode-Keeps : Keeps P (handle_mode fd msg p s)
  unfolding handle_mode
  handle_mode-Keeps =
      let name = get_single_param 0 msg in
      Keeps-guard s w (not (client_at p s).registered) _ _ λ _.
        Keeps-guard s w (ltb (get_param_count msg) 1) _ _ λ _.
          Keeps-guard s w (not (is_valid_channel_name name)) _ _ λ _.
            Keeps-found s w (get_channel name s) _ _ λ q _.
              Keeps-guard s w (not (has_member p (channel_at q s))) _ _ λ _.
                Keeps-guard s w (get_param_count msg == 1) _ _ λ _.
                  Keeps-guard s w (not (is_operator p (channel_at q s))) _ _ λ _.
                    Keeps-guard s w (not (is_supported_single_mode_token (get_single_param 1 msg)))
                      _ _ λ _. apply_mode-Keeps q
