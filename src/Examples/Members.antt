-- ===== src/Examples/Members.antt =====
-- A client that registers and joins a channel over its socket.
use irc.Common.{
  List, concat, Bool, true, false, ◌≡◌, refl, [], ◌∷◌, ◌++◌, Text, Option, none, some, codes,
}
use irc.State.Client.{new_client}
use irc.State.Channel.{new_channel, has_member, get_members}
use irc.State.Server.{client_at, channel_at}
use irc.State.Server.Links.{channel_live}
use irc.Protocol.Result.{OutgoingMessage, add_reply}
use irc.Command.Texting.Delivery.{messages_to}
use irc.Network.Server.Queueing.{unsent}
use irc.Command.Broadcast.{add_replies_to_members}
use irc.Examples.Sessions.{evaluated}
use irc.Health.{update_activity, get_or_create_state, write_state}
use irc.Network.Connection.{
  bytes, has_complete_line, pop_line, find_newline, line_before, read_from_socket, is_line_too_long,
  buffer_send, new_connection,
}
use irc.Network.Poll.{Ready, no_events, with_fd, with_pollout}
use irc.Network.Server.{
  Server, handle_read, handle_received, read_lines, read_round, handle_line, apply_command_result,
  enqueue_replies, enqueue_reply, enable_pollout, accept_client, add_fd, new_server,
}
use irc.Network.Server.Lines.{connected}
use irc.Network.Run.{check_read, check_write, check_broken}
use irc.Network.Run.Progress.{check_read-answers}
use irc.Network.Server.Buffers.{received}
use irc.Network.Shutdown.Reached.{Reached, ready, Reached-member_queued}
use irc.Examples.Shutdown.{allocator, allocator-fresh, one_connection, one_connection-Reached}

abbrev line : Text → Text
line text = text ++ (13 ∷ 10 ∷ [])

abbrev joining : Ready
joining = record no_events {
  pollin = true;
  received = bytes (
      line (codes "PASS secret")
      ++ line (codes "NICK al")
      ++ line (codes "USER a 0 * :Al")
      ++ line (codes "JOIN #42"));
}

abbrev server_of : Server → Option (Bool × Server) → Server
server_of v none = v
server_of v (some (gone, v')) = v'

abbrev joined_server : Server
joined_server = server_of one_connection (check_read allocator 0 4 joining one_connection)

-- What runs when the server is evaluated, beside what runs in a session.
unfoldable joined_evaluated : Unit {0}
unfolding evaluated check_read check_write check_broken handle_read handle_received read_lines
    read_round has_complete_line pop_line find_newline line_before read_from_socket is_line_too_long
    update_activity get_or_create_state write_state handle_line apply_command_result enqueue_replies
    enqueue_reply enable_pollout with_pollout buffer_send accept_client add_fd new_server with_fd
    new_connection add_reply add_replies_to_members get_members
joined_evaluated = tt

abbrev flag_of : Option (Bool × Server) → Bool
flag_of none = false
flag_of (some (gone, v')) = gone

answer_of :
    (v : Server) (o : Option (Bool × Server)) (x : Bool × Server)
    → o ≡ some x
    → o ≡ some (flag_of o, server_of v o)
answer_of v none x h = absurd (cc)
answer_of v (some (gone, v')) x h = refl

has_connection : connected 4 one_connection ≡ true
unfolding evaluated accept_client add_fd new_server received
has_connection = refl

joined_channel : channel_live 0 joined_server.state ≡ true
unfolding joined_evaluated
joined_channel = refl

joined_member : has_member 100 (channel_at 0 joined_server.state) ≡ true
unfolding joined_evaluated
joined_member = refl

-- One reply for this client, and one for a descriptor without a connection.
abbrev two_replies : List OutgoingMessage
two_replies =
    record { fd = 4; message = codes "hello" } ∷ record { fd = 9; message = codes "lost" } ∷ []

joined_server-Reached :
    Reached allocator 3 (codes "secret") (λ _. new_client 0 []) (λ _. new_channel []) joined_server
unfolding new_server accept_client add_fd
joined_server-Reached =
    let (x, answered) = check_read-answers allocator 0 4 joining one_connection has_connection in
    let answer = check_read allocator 0 4 joining one_connection in
    ready 4 0 joining (flag_of answer) one_connection joined_server refl
      (answer_of one_connection answer x answered) one_connection-Reached

Reached-member_queued_example :
    (buffer : Text) × (unsent (client_at 100 joined_server.state).fd joined_server ≡ some buffer)
    × (unsent (client_at 100 joined_server.state).fd (enqueue_replies two_replies joined_server)
        ≡ some (buffer ++ concat (messages_to (client_at 100 joined_server.state).fd two_replies)))
Reached-member_queued_example =
    Reached-member_queued allocator 3 (codes "secret") (λ _. new_client 0 []) (λ _. new_channel [])
      allocator-fresh joined_server 100 0 two_replies joined_server-Reached joined_channel
      joined_member
