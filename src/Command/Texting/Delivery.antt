-- ===== src/Command/Texting/Delivery.antt =====
-- Who gets a text that is sent to a channel (src/b/CommandDispatcher.cpp), and how often.
use irc.Common.{
  ℕ, zero, suc, true, ◌≡◌, Bool, List, [], ◌∷◌, ◌++◌, some, Text, arith, ◌==◌, if◌then◌else◌, pos,
  append_assoc, append-nil,
}
use irc.State.Channel.{has_member}
use irc.State.Server.{ServerState, client_at, channel_at, get_channel}
use irc.Protocol.Result.{OutgoingMessage, CommandResult, no_result, add_reply}
use irc.Command.Broadcast.{add_replies_to_members, members_of}
use irc.Command.Texting.{text_to_channel}

-- The texts that go to `fd`, in order.
unfoldable pub messages_to : ℕ → List OutgoingMessage → List Text
messages_to fd [] = []
messages_to fd (m ∷ ms) =
    let rest = messages_to fd ms in if m.fd == fd then m.message ∷ rest else rest

-- A text so many times.
unfoldable pub copies : ℕ → Text → List Text
copies zero message = []
copies (suc n) message = message ∷ copies n message

-- How many of the clients have the descriptor `g`.
abbrev pub count_fd : ℕ → List ℕ → ServerState → ℕ
count_fd g [] s = 0
count_fd g (p ∷ ps) s =
    let rest = count_fd g ps s in if (client_at p s).fd == g then suc rest else rest

messages_to-append :
    (fd : ℕ) (ms : List OutgoingMessage) (m : OutgoingMessage)
    → messages_to fd (ms ++ m ∷ [])
      ≡ messages_to fd ms ++ (if m.fd == fd then m.message ∷ [] else [])
unfolding messages_to
messages_to-append fd [] m = ground arith
messages_to-append fd (n ∷ ms) m = ground (arith, messages_to-append fd ms m)

module _ (g fd : ℕ) (message : Text) (s : ServerState) where
  messages_to-add_reply :
      (p : ℕ) (r : CommandResult)
      → messages_to g (add_reply (client_at p s).fd message r).replies
        ≡ messages_to g r.replies ++ (if (client_at p s).fd == g then message ∷ [] else [])
  unfolding add_reply
  messages_to-add_reply p r =
      messages_to-append g r.replies (record { fd = (client_at p s).fd; message = message })

  messages_to-add_replies_to_members :
      (result : CommandResult) (ps : List ℕ)
      → messages_to g (add_replies_to_members result ps message (pos fd) s).replies
        ≡ messages_to g result.replies ++ copies (if g == fd then 0 else count_fd g ps s) message
  unfolding add_replies_to_members copies
  messages_to-add_replies_to_members result [] =
      ground (arith, append-nil (messages_to g result.replies))
  messages_to-add_replies_to_members result (p ∷ ps) =
      let before = messages_to g result.replies in
      let later = copies (count_fd g ps s) message in
      ground (
        arith,
        messages_to-add_replies_to_members result ps,
        messages_to-add_replies_to_members (add_reply (client_at p s).fd message result) ps,
        messages_to-add_reply p result,
        append_assoc before (message ∷ []) later,
        append-nil before,
      )

-- A text that a member sends to a channel goes to each descriptor as often as it is that of a member
-- of the channel, and not to the sender; nothing else goes to any of them.
pub messages_to-text_to_channel :
    (g fd : ℕ) (target message : Text) (reply_on_error : Bool) (p q : ℕ) (s : ServerState)
    → get_channel target s ≡ some q
    → has_member p (channel_at q s) ≡ true
    → messages_to g (text_to_channel fd target message reply_on_error p s).0.replies
      ≡ copies (if g == fd then 0 else count_fd g (members_of q s) s) message
unfolding text_to_channel messages_to
messages_to-text_to_channel g fd target message reply_on_error p q s found member =
    rw (text_to_channel, found, member)
      (messages_to-add_replies_to_members g fd message s no_result (members_of q s))
