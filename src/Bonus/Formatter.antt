-- ===== src/Bonus/Formatter.antt =====
-- bonus/irc/IrcFormatter.cpp: the lines that the bot sends, with their terminators.
pub mod Parsing
use irc.Common.{[], ◌∷◌, ◌++◌, Text, codes}

abbrev pub crlf : Text
crlf = 13 ∷ 10 ∷ []

unfoldable pub pass : Text → Text
pass password = codes "PASS " ++ password ++ crlf

unfoldable pub nick : Text → Text
nick nickname = codes "NICK " ++ nickname ++ crlf

unfoldable pub user : Text → Text → Text
user username realname = codes "USER " ++ username ++ codes " 0 * :" ++ realname ++ crlf

unfoldable pub pong : Text → Text
pong token = codes "PONG :" ++ token ++ crlf

unfoldable pub join : Text → Text
join channel = codes "JOIN " ++ channel ++ crlf

unfoldable pub command_with_trailing : Text → Text → Text → Text
command_with_trailing command target trailing =
    command ++ codes " " ++ target ++ codes " :" ++ trailing ++ crlf

unfoldable pub privmsg : Text → Text → Text
unfolding command_with_trailing
privmsg target text = command_with_trailing (codes "PRIVMSG") target text

unfoldable pub quit : Text → Text
quit message = codes "QUIT :" ++ message ++ crlf
