-- ===== src/Bonus/Bot/Safety.antt =====
-- Nothing that bonus/Bot.cpp is sent can make it queue two lines as one: no line of its queue has a
-- newline inside.
use irc.Common.{
  ℕ, zero, suc, true, false, not, ◌&&◌, ◌||◌, ◌≡◌, refl, Bool, List, [], ◌∷◌, ◌++◌, Text, codes,
  arith, ◌==◌, if◌then◌else◌, all, all-append, all-take, all-drop, get_or, text_eq, is_empty,
  Option-cases, inl, inr, Bool-cases,
}
use irc.Protocol.Message.{Message, get_single_param, has_param}
use irc.Protocol.Parser.Bytes.{all_bytes}
use irc.Bonus.Formatter.{crlf, pong, join, privmsg, quit}
use irc.Bonus.Bot.{
  Bot, enqueue, end_of_nick, sender_nick, reply_target, build_command_reply, send_reply,
  handle_privmsg, handle_message,
}

-- No newline.
abbrev pub is_clean : Text → Bool
is_clean s = all (λ c. not (c == 10)) s

-- One newline, at the end.
abbrev pub is_line : Text → Bool
is_line [] = false
is_line (c ∷ []) = c == 10
is_line (c ∷ d ∷ s) = not (c == 10) && is_line (d ∷ s)

is_line-append : (s t : Text) → is_clean s ≡ true → is_line t ≡ true → is_line (s ++ t) ≡ true
is_line-append [] t h k = k
is_line-append (c ∷ []) [] h k = cc
is_line-append (c ∷ []) (d ∷ t) h k = ground (arith, h, k)
is_line-append (c ∷ d ∷ s) t h k = ground (arith, is_line-append (d ∷ s) t)

is_clean-append : (s t : Text) → is_clean (s ++ t) ≡ (is_clean s && is_clean t)
is_clean-append s t = all-append (λ c. not (c == 10)) s t

is_line-pong : (token : Text) → is_clean token ≡ true → is_line (pong token) ≡ true
unfolding pong
is_line-pong token h =
    is_line-append (codes "PONG :") (token ++ crlf) refl (is_line-append token crlf h refl)

is_line-join : (channel : Text) → is_clean channel ≡ true → is_line (join channel) ≡ true
unfolding join
is_line-join channel h =
    is_line-append (codes "JOIN ") (channel ++ crlf) refl (is_line-append channel crlf h refl)

is_line-privmsg :
    (target text : Text)
    → is_clean target ≡ true
    → is_clean text ≡ true
    → is_line (privmsg target text) ≡ true
unfolding privmsg
is_line-privmsg target text h k =
    is_line-append (codes "PRIVMSG " ++ target ++ codes " :" ++ text) crlf
      (ground (
        arith,
        is_clean-append (codes "PRIVMSG " ++ target ++ codes " :") text,
        is_clean-append (codes "PRIVMSG " ++ target) (codes " :"),
        is_clean-append (codes "PRIVMSG ") target,
        h,
        k,
      ))
      refl

-- What the bot is started with, and the lines that it has received, have no newlines inside; the lines
-- that it has queued have one each, at the end.
pub record IsClean (b : Bot) : Type 0 where
  pub channel_clean : is_clean b.channel ≡ true
  pub lines_clean : all is_clean b.line_buffer.lines ≡ true
  pub outbox_lines : all is_line b.outbox ≡ true

module _ (line : Text) (b : Bot) (w : IsClean b) (h : is_line line ≡ true) where
  enqueue-IsClean : IsClean (enqueue line b)
  unfolding enqueue
  enqueue-IsClean = record {
    channel_clean = w.channel_clean;
    lines_clean = w.lines_clean;
    outbox_lines = ground (arith, all-append is_line b.outbox (line ∷ []), w.outbox_lines, h);
  }

is_clean-sender_nick :
    (prefix : Text) → is_clean prefix ≡ true → is_clean (sender_nick prefix) ≡ true
unfolding sender_nick
is_clean-sender_nick prefix h = elim (Option-cases (end_of_nick prefix)) [
  | inl absent ↦ rw (sender_nick, absent) h
  | inr (n, found) ↦ rw (sender_nick, found) (all-take (λ c. not (c == 10)) n prefix h)
]

all-get_or : (ps : List Text) (i : ℕ) → all is_clean ps ≡ true → is_clean (get_or ps i []) ≡ true
all-get_or [] i h = refl
all-get_or (p ∷ ps) zero h = ground (arith, h)
all-get_or (p ∷ ps) (suc i) h = all-get_or ps i (ground (arith, h))

module _ (message : Message) (h : all_bytes (λ c. not (c == 10)) message ≡ true) where
  is_clean-param : (i : ℕ) → is_clean (get_single_param i message) ≡ true
  unfolding get_single_param
  is_clean-param i = all-get_or message.params i (ground (arith, h))

  is_clean-reply_target : is_clean (reply_target message) ≡ true
  unfolding reply_target
  is_clean-reply_target = ground (arith, is_clean-param 0, is_clean-sender_nick message.prefix, h)

  send_reply-IsClean :
      (text : Text) (b : Bot)
      → IsClean b
      → is_clean text ≡ true
      → IsClean (send_reply message text b)
  unfolding send_reply
  send_reply-IsClean text b w k = elim (Bool-cases (is_empty text)) [
    | inl nothing ↦ rw (if◌then◌else◌, nothing) w
    | inr something ↦
        rw (if◌then◌else◌, something)
          (enqueue-IsClean (privmsg (reply_target message) text) b w
            (is_line-privmsg (reply_target message) text is_clean-reply_target k))
  ]

quit_line : is_line (quit (codes "bonus bot shutting down")) ≡ true
unfolding quit
quit_line = refl

module _ (now : Text) (now_clean : is_clean now ≡ true) where
  is_clean-build_command_reply :
      (text : Text) (b : Bot)
      → is_clean text ≡ true
      → is_clean (build_command_reply now text b).0 ≡ true
  unfolding build_command_reply
  is_clean-build_command_reply text b h =
      ground (arith, all-drop (λ c. not (c == 10)) 6 text h, now_clean)

  build_command_reply-IsClean :
      (text : Text) (b : Bot) → IsClean b → IsClean (build_command_reply now text b).1
  unfolding build_command_reply enqueue
  build_command_reply-IsClean text b w =
      let farewell = quit (codes "bonus bot shutting down") in
      record {
        channel_clean = ground (arith, w.channel_clean);
        lines_clean = ground (arith, w.lines_clean);
        outbox_lines =
            ground (arith, w.outbox_lines, all-append is_line b.outbox (farewell ∷ []), quit_line);
      }

  module _ (message : Message) (h : all_bytes (λ c. not (c == 10)) message ≡ true) where
    handle_privmsg-IsClean : (b : Bot) → IsClean b → IsClean (handle_privmsg now message b)
    unfolding handle_privmsg
    handle_privmsg-IsClean b w =
        let text = get_single_param 1 message in
        let answered =
          send_reply-IsClean message h (build_command_reply now text b).0
            (build_command_reply now text b).1 (build_command_reply-IsClean text b w)
            (is_clean-build_command_reply text b (is_clean-param message h 1)) in
        elim (Bool-cases (not (has_param 1 message))) [
          | inl missing ↦ rw (if◌then◌else◌, missing) w
          | inr there ↦ elim (Bool-cases (is_empty text || not (get_or text 0 0 == b'!'))) [
            | inl other ↦ rw (if◌then◌else◌, there, other) w
            | inr command ↦ rw (if◌then◌else◌, there, command) answered
          ]
        ]

    pub handle_message-IsClean : (b : Bot) → IsClean b → IsClean (handle_message now message b)
    unfolding handle_message
    handle_message-IsClean b w =
        let token = get_single_param 0 message in
        let joining =
          enqueue-IsClean (join b.channel) b w (is_line-join b.channel w.channel_clean) in
        elim (Bool-cases (text_eq message.command (codes "PING") && has_param 0 message)) [
          | inl ping ↦
              rw (if◌then◌else◌, ping)
                (enqueue-IsClean (pong token) b w (is_line-pong token (is_clean-param message h 0)))
          | inr no_ping ↦
              elim (Bool-cases (text_eq message.command (codes "001") && not b.joined)) [
                | inl welcome ↦
                    rw (if◌then◌else◌, no_ping, welcome)
                      (record {
                        channel_clean = joining.channel_clean;
                        lines_clean = joining.lines_clean;
                        outbox_lines = joining.outbox_lines;
                      })
                | inr no_welcome ↦ elim (Bool-cases (text_eq message.command (codes "PRIVMSG"))) [
                  | inl privmsg ↦
                      rw (if◌then◌else◌, no_ping, no_welcome, privmsg) (handle_privmsg-IsClean b w)
                  | inr other ↦ rw (if◌then◌else◌, no_ping, no_welcome, other) w
                ]
              ]
        ]
