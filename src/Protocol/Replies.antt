-- ===== src/Protocol/Replies.antt =====
-- src/b/ReplyBuilder.cpp: the texts of replies and notifications.
use irc.Common.{ℕ, List, [], ◌∷◌, ◌++◌, Text, codes, is_empty, if◌then◌else◌}
use irc.State.Client.{Client, get_full_prefix}
use irc.State.Channel.{Channel, get_members, is_operator}

abbrev pub server_name : Text
server_name = codes "irc.local"

abbrev pub crlf : Text
crlf = 13 ∷ 10 ∷ []

abbrev pub space : Text
space = codes " "

-- The nickname, or a star before there is one.
unfoldable pub reply_target : Client → Text
reply_target c = if is_empty c.nickname then codes "*" else c.nickname

unfoldable pub numeric_reply : Text → Text → Text → Text → Text
numeric_reply code target params text =
    codes ":"
    ++ server_name
    ++ space
    ++ code
    ++ space
    ++ target
    ++ (if is_empty params then [] else space ++ params)
    ++ codes " :"
    ++ text
    ++ crlf

unfoldable pub ping : Text → Text
ping token = codes ":" ++ server_name ++ codes " PING :" ++ token ++ crlf

unfoldable pub pong : Text → Text
pong token =
    codes ":" ++ server_name ++ codes " PONG " ++ server_name ++ codes " :" ++ token ++ crlf

unfoldable pub welcome : Client → Text
unfolding numeric_reply get_full_prefix
welcome c =
    numeric_reply (codes "001") c.nickname []
      (codes "Welcome to the IRC Network " ++ get_full_prefix c)

unfoldable pub password_mismatch : Text
unfolding numeric_reply
password_mismatch = numeric_reply (codes "464") (codes "*") [] (codes "Password incorrect")

unfoldable pub nick_in_use : Text → Text
unfolding numeric_reply
nick_in_use nick = numeric_reply (codes "433") (codes "*") nick (codes "Nickname is already in use")

unfoldable pub need_more_params : Client → Text → Text
unfolding numeric_reply reply_target
need_more_params c command =
    numeric_reply (codes "461") (reply_target c) command (codes "Not enough parameters")

unfoldable pub already_registered : Client → Text
unfolding numeric_reply reply_target
already_registered c =
    numeric_reply (codes "462") (reply_target c) [] (codes "You may not reregister")

unfoldable pub erroneous_nickname : Client → Text → Text
unfolding numeric_reply reply_target
erroneous_nickname c nick =
    numeric_reply (codes "432") (reply_target c) nick (codes "Erroneous nickname")

unfoldable pub no_such_nick : Client → Text → Text
unfolding numeric_reply reply_target
no_such_nick c target_name =
    numeric_reply (codes "401") (reply_target c) target_name (codes "No such nick/channel")

unfoldable pub no_such_channel : Client → Text → Text
unfolding numeric_reply reply_target
no_such_channel c channel_name =
    numeric_reply (codes "403") (reply_target c) channel_name (codes "No such channel")

unfoldable pub no_topic : Client → Text → Text
unfolding numeric_reply reply_target
no_topic c channel_name =
    numeric_reply (codes "331") (reply_target c) channel_name (codes "No topic is set")

unfoldable pub end_of_names : Client → Text → Text
unfolding numeric_reply reply_target
end_of_names c channel_name =
    numeric_reply (codes "366") (reply_target c) channel_name (codes "End of /NAMES list")

unfoldable pub cannot_send_to_chan : Client → Text → Text
unfolding numeric_reply reply_target
cannot_send_to_chan c channel_name =
    numeric_reply (codes "404") (reply_target c) channel_name (codes "Cannot send to channel")

unfoldable pub user_not_in_channel : Client → Text → Text
unfolding numeric_reply reply_target
user_not_in_channel c channel_name =
    numeric_reply (codes "441") (reply_target c) channel_name (codes "You are not on that channel")

unfoldable pub not_on_channel : Client → Text → Text
unfolding numeric_reply reply_target
not_on_channel c channel_name =
    numeric_reply (codes "442") (reply_target c) channel_name (codes "You are not on that channel")

unfoldable pub chan_op_privs_needed : Client → Text → Text
unfolding numeric_reply reply_target
chan_op_privs_needed c channel_name =
    numeric_reply (codes "482") (reply_target c) channel_name (codes "You are not channel operator")

unfoldable pub channel_is_full : Client → Text → Text
unfolding numeric_reply reply_target
channel_is_full c channel_name =
    numeric_reply (codes "471") (reply_target c) channel_name (codes "Cannot join channel (+l)")

unfoldable pub invite_only_chan : Client → Text → Text
unfolding numeric_reply reply_target
invite_only_chan c channel_name =
    numeric_reply (codes "473") (reply_target c) channel_name (codes "Cannot join channel (+i)")

unfoldable pub bad_channel_key : Client → Text → Text
unfolding numeric_reply reply_target
bad_channel_key c channel_name =
    numeric_reply (codes "475") (reply_target c) channel_name (codes "Cannot join channel (+k)")

unfoldable pub no_registered : Client → Text
unfolding numeric_reply reply_target
no_registered c = numeric_reply (codes "451") (reply_target c) [] (codes ":You have not registered")

unfoldable pub unknown_command : Client → Text → Text
unfolding numeric_reply reply_target
unknown_command c command =
    numeric_reply (codes "421") (reply_target c) command (codes "Unknown command")

unfoldable pub unknown_mode : Client → Text → Text
unfolding numeric_reply reply_target
unknown_mode c mode_token =
    numeric_reply (codes "472") (reply_target c) mode_token (codes "is unknown mode char to me")

unfoldable pub topic_reply : Client → Text → Text → Text
unfolding numeric_reply reply_target
topic_reply c channel_name topic = numeric_reply (codes "332") (reply_target c) channel_name topic

unfoldable pub user_on_channel : Client → Text → Text → Text
unfolding numeric_reply reply_target
user_on_channel c target_nick channel_name =
    numeric_reply (codes "443") (reply_target c) (target_nick ++ space ++ channel_name)
      (codes "is already on channel")

unfoldable pub invalid_mode_param : Client → Text → Text → Text → Text
unfolding numeric_reply reply_target
invalid_mode_param c channel_name mode_token mode_arg =
    numeric_reply (codes "696") (reply_target c)
      (channel_name ++ space ++ mode_token ++ space ++ mode_arg) (codes "Invalid mode parameter")

unfoldable pub channel_mode_is : Client → Text → Text → Text → Text
unfolding reply_target
channel_mode_is c channel_name modes mode_args =
    codes ":"
    ++ server_name
    ++ codes " 324 "
    ++ reply_target c
    ++ space
    ++ channel_name
    ++ space
    ++ modes
    ++ (if is_empty mode_args then [] else space ++ mode_args)
    ++ crlf

unfoldable pub inviting : Client → Text → Text → Text
unfolding reply_target
inviting c target_nick channel_name =
    codes ":"
    ++ server_name
    ++ codes " 341 "
    ++ reply_target c
    ++ space
    ++ target_nick
    ++ space
    ++ channel_name
    ++ crlf

-- The loop of nameReply over the members: operators have an `@`. `client` is what stands behind a
-- pointer.
unfoldable pub member_names : (ℕ → Client) → Channel → Text → List ℕ → Text
unfolding is_operator
member_names client ch names [] = names
member_names client ch names (p ∷ rest) =
    member_names client ch
      (names
        ++ (if is_empty names then [] else space)
        ++ (if is_operator p ch then codes "@" else [])
        ++ (client p).nickname)
      rest

unfoldable pub name_reply : Client → (ℕ → Client) → Channel → Text
unfolding numeric_reply reply_target member_names get_members
name_reply c client ch =
    numeric_reply (codes "353") (reply_target c) (codes "= " ++ ch.name)
      (member_names client ch [] (get_members ch))

unfoldable pub join : Text → Text → Text → Text
join client_full_prefix command channel_name =
    codes ":" ++ client_full_prefix ++ space ++ command ++ space ++ channel_name ++ crlf

unfoldable pub part : Text → Text → Text → Text
part client_full_prefix command channel_name =
    codes ":" ++ client_full_prefix ++ space ++ command ++ space ++ channel_name ++ crlf

unfoldable pub privmsg : Text → Text → Text → Text → Text
privmsg client command target text =
    codes ":" ++ client ++ space ++ command ++ space ++ target ++ codes " :" ++ text ++ crlf

unfoldable pub notice : Text → Text → Text → Text → Text
notice client command target text =
    codes ":" ++ client ++ space ++ command ++ space ++ target ++ codes " :" ++ text ++ crlf

unfoldable pub topic : Text → Text → Text → Text → Text
topic client command target text =
    codes ":" ++ client ++ space ++ command ++ space ++ target ++ codes " :" ++ text ++ crlf

unfoldable pub invite : Text → Text → Text → Text
invite client target channel_name =
    codes ":" ++ client ++ codes " INVITE " ++ target ++ codes " :" ++ channel_name ++ crlf

unfoldable pub kick : Text → Text → Text → Text → Text
kick client channel_name target reason =
    codes ":"
    ++ client
    ++ codes " KICK "
    ++ channel_name
    ++ space
    ++ target
    ++ codes " :"
    ++ reason
    ++ crlf

unfoldable pub mode : Text → Text → Text → Text → Text
mode client channel_name mode_token mode_arg =
    codes ":"
    ++ client
    ++ codes " MODE "
    ++ channel_name
    ++ space
    ++ mode_token
    ++ (if is_empty mode_arg then [] else space ++ mode_arg)
    ++ crlf

unfoldable pub quit : Text → Text → Text
quit client reason = codes ":" ++ client ++ codes " QUIT :" ++ reason ++ crlf
