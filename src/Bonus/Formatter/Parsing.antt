-- ===== src/Bonus/Formatter/Parsing.antt =====
-- The server's parser (src/b/Parser.cpp) reads the lines of the bonus bot as they are meant.
use irc.Common.{true, ◌≡◌, refl, [], ◌∷◌, ◌++◌, Text, codes, append-nil, append_assoc, arith}
use irc.Protocol.Parser.{parse, upper_command, to_upper}
use irc.Protocol.Parser.Printing.{is_word, print, parse-print}
use irc.Protocol.Parser.Words.{parse-print_words}
use irc.Bonus.Formatter.{crlf, pass, nick, user, pong, join, privmsg, quit}

privmsg-print :
    (target text : Text) → privmsg target text ≡ print [] (codes "PRIVMSG") (target ∷ []) text
unfolding privmsg
privmsg-print target text = simp append_assoc refl

user-print :
    (username realname : Text)
    → user username realname
      ≡ print [] (codes "USER") (username ∷ codes "0" ∷ codes "*" ∷ []) realname
unfolding user
user-print username realname = simp append_assoc refl

pong-print : (token : Text) → pong token ≡ print [] (codes "PONG") [] token
unfolding pong
pong-print token = refl

quit-print : (message : Text) → quit message ≡ print [] (codes "QUIT") [] message
unfolding quit
quit-print message = refl

-- A text that the bot sends to a target is read as PRIVMSG with exactly these two parameters, whatever
-- the text holds, if the target is a word.
pub parse-privmsg :
    (target text : Text)
    → is_word target ≡ true
    → parse (privmsg target text)
      ≡ record { prefix = []; command = codes "PRIVMSG"; params = target ∷ text ∷ [] }
unfolding upper_command to_upper
parse-privmsg target text h =
    rw (privmsg-print target text)
      (parse-print [] (codes "PRIVMSG") (target ∷ []) text refl refl (ground (arith, h)))

-- The line that answers a PING is read as PONG with the token, whatever the token holds.
pub parse-pong :
    (token : Text)
    → parse (pong token) ≡ record { prefix = []; command = codes "PONG"; params = token ∷ [] }
unfolding upper_command to_upper
parse-pong token = rw (pong-print token) (parse-print [] (codes "PONG") [] token refl refl refl)

pub parse-quit :
    (message : Text)
    → parse (quit message) ≡ record { prefix = []; command = codes "QUIT"; params = message ∷ [] }
unfolding upper_command to_upper
parse-quit message =
    rw (quit-print message) (parse-print [] (codes "QUIT") [] message refl refl refl)

parse-word :
    (command word : Text)
    → is_word command ≡ true
    → is_word word ≡ true
    → parse (command ++ (b' ' ∷ word ++ crlf))
      ≡ record { prefix = []; command = upper_command command; params = word ∷ [] }
parse-word command word h k =
    simp (append_assoc, append-nil) at
      (parse-print_words [] command (word ∷ []) refl h (ground (arith, k)))

parse-join :
    (channel : Text)
    → is_word channel ≡ true
    → parse (join channel) ≡ record { prefix = []; command = codes "JOIN"; params = channel ∷ [] }
unfolding join upper_command to_upper
parse-join channel h = parse-word (codes "JOIN") channel refl h

-- The lines with which the bot registers are read as PASS, NICK and USER with the parameters that the
-- server wants, if the password and the nickname are words; the real name may hold anything.
pub parse-registration :
    (password nickname realname : Text)
    → is_word password ≡ true
    → is_word nickname ≡ true
    → (parse (pass password)
        ≡ record { prefix = []; command = codes "PASS"; params = password ∷ [] })
      × (parse (nick nickname)
          ≡ record { prefix = []; command = codes "NICK"; params = nickname ∷ [] })
      × (parse (user nickname realname) ≡ record {
        prefix = [];
        command = codes "USER";
        params = nickname ∷ codes "0" ∷ codes "*" ∷ realname ∷ [];
      })
unfolding pass nick upper_command to_upper
parse-registration password nickname realname h k = (
  parse-word (codes "PASS") password refl h,
  parse-word (codes "NICK") nickname refl k,
  rw (user-print nickname realname) (
      parse-print [] (codes "USER") (nickname ∷ codes "0" ∷ codes "*" ∷ []) realname refl refl
        (ground (arith, k))),
)
