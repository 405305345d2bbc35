-- ===== src/Examples/Opening.antt =====
-- The sockets of the server and of the bot, where a call fails.
use irc.Common.{List, true, false, ◌≡◌, refl, [], ◌∷◌, none, some, codes, if◌then◌else◌}
use irc.State.Client.{new_client}
use irc.State.Channel.{new_channel}
use irc.Network.Opening.{SocketAnswers, construct, files_of, keeps_socket, construct-files}
use irc.Bonus.Bot.Connecting.{
  Address, connect_to_server, close_if_open, first_connection, with_kept, connect_to_server-files,
}

abbrev taken_port : SocketAnswers
taken_port = record {
  sigint_handled = true;
  sigpipe_ignored = true;
  socket = some 3;
  reused = true;
  nonblocking = true;
  bound = false;
  listening = true;
}

construct-files_example :
    files_of (
      construct taken_port
        (codes "secret")
        (λ _. new_client 0 [])
        (λ _. new_channel [])
        (0 ∷ 1 ∷ 2 ∷ []))
    ≡ (if keeps_socket (
          construct taken_port
            (codes "secret")
            (λ _. new_client 0 [])
            (λ _. new_channel [])
            (0 ∷ 1 ∷ 2 ∷ []))
        then 3 ∷ 0 ∷ 1 ∷ 2 ∷ []
        else 0 ∷ 1 ∷ 2 ∷ [])
construct-files_example =
    construct-files taken_port 3 (codes "secret") (λ _. new_client 0 []) (λ _. new_channel [])
      (0 ∷ 1 ∷ 2 ∷ []) refl refl

-- The first address has no socket, the second refuses.
abbrev addresses : List Address
addresses =
    record { socket = none; connects = false }
    ∷ record { socket = some 3; connects = false }
    ∷ record { socket = some 3; connects = true }
    ∷ []

connect_to_server-files_example :
    ((connect_to_server (some addresses) true (0 ∷ [])).1 ≡ first_connection addresses)
    × ((connect_to_server (some addresses) true (0 ∷ [])).2
        ≡ with_kept (first_connection addresses) (0 ∷ []))
    × (close_if_open
          (connect_to_server (some addresses) true (0 ∷ [])).1
          (connect_to_server (some addresses) true (0 ∷ [])).2
        ≡ 0 ∷ [])
connect_to_server-files_example = connect_to_server-files addresses true (0 ∷ []) refl
