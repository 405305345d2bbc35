-- ===== src/Command/Consistency/Run.antt =====
-- Dispatch keeps the invariant, and PRIVMSG and NOTICE leave the state as it is.
use irc.Common.{
  ℕ, Bool, true, false, not, ◌≡◌, Text, Option, arith, Bool-cases, Option-cases, inl, inr, text_eq,
  codes, String, is_empty, some,
}
use irc.State.Server.{ServerState, client_at, get_client_by_fd}
use irc.State.Registry
use irc.State.Server.Links.{client_live, channel_live}
use irc.Health.{ConnectionHealthMonitor}
use irc.Protocol.Message.{Message, get_single_param, has_param}
use irc.Command.Broadcast.{Outcome}
use irc.State.Client.{get_full_prefix}
use irc.Protocol.Replies.{no_registered, need_more_params}
use irc.Command.Texting.{
  message_text, answer_if, bad_target, text_to_channel, text_to_client, handle_text_message,
  handle_privmsg, handle_notice,
}
use irc.Command.Dispatch.{handle_ping, handle_unknown, guarded, run_command, dispatch_to, dispatch}
use irc.Command.Consistency.Stable.{Stable}
use irc.Command.Consistency.Rules.{Keeps, Keeps-if, Keeps-guard, Keeps-here}
use irc.Command.Consistency.Clients.{handle_pass-Keeps, handle_nick-Keeps, handle_user-Keeps}
use irc.Command.Consistency.Channels.{
  handle_join-Keeps, handle_part-Keeps, handle_kick-Keeps, handle_invite-Keeps, handle_topic-Keeps,
  handle_mode-Keeps,
}

module _ (b : Bool) (fd : ℕ) where
  state-answer_if : (text : Text) (s : ServerState) → (answer_if b fd text s).1 ≡ s
  unfolding answer_if
  state-answer_if text s = ground arith

  state-bad_target : (target : Text) (p : ℕ) (s : ServerState) → (bad_target fd target b p s).1 ≡ s
  unfolding bad_target
  state-bad_target target p s = ground arith

  state-text_to_channel :
      (target message : Text) (p : ℕ) (s : ServerState)
      → (text_to_channel fd target message b p s).1 ≡ s
  unfolding text_to_channel
  state-text_to_channel target message p s = ground arith

  state-text_to_client :
      (target message : Text) (p : ℕ) (s : ServerState)
      → (text_to_client fd target message b p s).1 ≡ s
  unfolding text_to_client
  state-text_to_client target message p s = ground arith

  -- No text changes the server state, whether it is delivered or refused.
  pub state-handle_text_message :
      (msg : Message) (command : Text) (p : ℕ) (s : ServerState)
      → (handle_text_message fd msg command b p s).1 ≡ s
  unfolding handle_text_message
  state-handle_text_message msg command p s =
      let target = get_single_param 0 msg in
      let message =
        message_text command (get_full_prefix (client_at p s)) target (get_single_param 1 msg) in
      ground (
        arith,
        state-answer_if (no_registered (client_at p s)) s,
        state-answer_if (need_more_params (client_at p s) command) s,
        state-bad_target target p s,
        state-text_to_channel target message p s,
        state-text_to_client target message p s,
      )

-- A handler that leaves the state alone keeps what holds of it.
Keeps-unchanged :
    {P : ServerState → Type 0} (o : Outcome) {s : ServerState} → P s → o.1 ≡ s → Keeps P o
Keeps-unchanged o w e = record { kept = rw e w }

module _ {Admits : ℕ → Type 0} {P : ServerState → Type 0} (i : Stable Admits P) (fd : ℕ)
    (msg : Message) (p : ℕ) {s : ServerState} (w : P s) where
  handle_privmsg-Keeps : Keeps P (handle_privmsg fd msg p s)
  unfolding handle_privmsg
  handle_privmsg-Keeps =
      Keeps-unchanged _ w (state-handle_text_message true fd msg (codes "PRIVMSG") p s)

  handle_notice-Keeps : Keeps P (handle_notice fd msg p s)
  unfolding handle_notice
  handle_notice-Keeps =
      Keeps-unchanged _ w (state-handle_text_message false fd msg (codes "NOTICE") p s)

  handle_ping-Keeps : Keeps P (handle_ping fd msg p s)
  unfolding handle_ping
  handle_ping-Keeps = Keeps-guard s w (not (has_param 0 msg)) _ _ λ _. Keeps-here _ w

  handle_unknown-Keeps : Keeps P (handle_unknown fd msg p s)
  unfolding handle_unknown
  handle_unknown-Keeps = Keeps-guard s w (not (is_empty msg.command)) _ _ λ _. Keeps-here _ w

  guarded-Keeps : (o : Outcome) → Keeps P o → Keeps P (guarded fd p s o)
  unfolding guarded
  guarded-Keeps o k = Keeps-guard s w (not (client_at p s).pass_ok) _ _ λ _. k

  run_command-Keeps :
      (q : ℕ)
      → client_live p s ≡ true
      → channel_live q s ≡ false
      → (text_eq msg.command (codes "PASS") ≡ true
          → has_param 0 msg ≡ true
          → text_eq (get_single_param 0 msg) s.password ≡ true
          → Admits p)
      → Keeps P (run_command fd msg q p s)
  unfolding run_command
  run_command-Keeps q alive fresh admits =
      let command = λ (name : String). text_eq msg.command (codes name) in
      Keeps-if (command "PING") _ _ (λ _. handle_ping-Keeps)
        λ _.
          Keeps-if (command "QUIT") _ _ (λ _. Keeps-here _ w)
            λ _.
              Keeps-if (command "PASS") _ _ (λ pass. handle_pass-Keeps i fd msg p w (admits pass))
                λ _.
                  Keeps-if (command "NICK") _ _
                    (λ _. guarded-Keeps _ (handle_nick-Keeps i fd msg p w alive))
                    λ _.
                      Keeps-if (command "USER") _ _
                        (λ _. guarded-Keeps _ (handle_user-Keeps i fd msg p w))
                        λ _.
                          Keeps-if (command "JOIN") _ _
                            (λ _. handle_join-Keeps i fd msg p w q alive fresh)
                            λ _.
                              Keeps-if (command "PART") _ _ (λ _. handle_part-Keeps i fd msg p w)
                                λ _.
                                  Keeps-if (command "PRIVMSG") _ _ (λ _. handle_privmsg-Keeps)
                                    λ _.
                                      Keeps-if (command "NOTICE") _ _ (λ _. handle_notice-Keeps)
                                        λ _.
                                          Keeps-if (command "KICK") _ _
                                            (λ _. handle_kick-Keeps i fd msg p w)
                                            λ _.
                                              Keeps-if (command "INVITE") _ _
                                                (λ _. handle_invite-Keeps i fd msg p w)
                                                λ _.
                                                  Keeps-if (command "TOPIC") _ _
                                                    (λ _. handle_topic-Keeps i fd msg p w)
                                                    λ _.
                                                      Keeps-if (command "MODE") _ _
                                                        (λ _. handle_mode-Keeps i fd msg p w)
                                                        λ _. handle_unknown-Keeps

module _ {Admits : ℕ → Type 0} {P : ServerState → Type 0} (i : Stable Admits P) (fd : ℕ)
    (msg : Message) (now q : ℕ) (monitor : Option ConnectionHealthMonitor) where
  dispatch_to-keeps :
      (p : ℕ) {s : ServerState}
      → P s
      → client_live p s ≡ true
      → channel_live q s ≡ false
      → (text_eq msg.command (codes "PASS") ≡ true
          → has_param 0 msg ≡ true
          → text_eq (get_single_param 0 msg) s.password ≡ true
          → Admits p)
      → P (dispatch_to fd msg now q p s monitor).state
  unfolding dispatch_to
  dispatch_to-keeps p {s} w alive fresh admits =
      elim (Bool-cases (text_eq msg.command (codes "PONG"))) [
        | inl pong ↦ rw (dispatch_to, pong) w
        | inr other ↦
            rw (dispatch_to, other) (run_command-Keeps i fd msg p w q alive fresh admits).kept
      ]

  -- What every change keeps, every command keeps, whoever sends it and whatever address a new channel
  -- gets; only a PASS with the password of the state admits its client.
  pub dispatch-keeps :
      {s : ServerState}
      → P s
      → channel_live q s ≡ false
      → ((p : ℕ)
          → get_client_by_fd fd s ≡ some p
          → text_eq msg.command (codes "PASS") ≡ true
          → has_param 0 msg ≡ true
          → text_eq (get_single_param 0 msg) s.password ≡ true
          → Admits p)
      → P (dispatch fd msg now q s monitor).state
  unfolding dispatch get_client_by_fd Registry.get_client_by_fd
  dispatch-keeps {s} w fresh admits = elim (Option-cases (get_client_by_fd fd s)) [
    | inl absent ↦ rw (dispatch, absent) w
    | inr (p, found) ↦
        rw (dispatch, found)
          (dispatch_to-keeps p w ((i.consistent s w).linked.owned.fd_found fd p found).0 fresh
            (admits p found))
  ]
