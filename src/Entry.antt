-- ===== src/Entry.antt =====
-- The command lines of the two programs: src/main.cpp and bonus/main.cpp.
use irc.Common.{
  ℕ, ◌≤◌, ℤ, pos, negsuc, Bool, true, false, not, ◌&&◌, ◌||◌, ◌≡◌, List, [], Option, none, some,
  Text, codes, arith, ltb, ◌==◌, if◌then◌else◌, length, get_or, is_empty, all, subst, Option-cases,
  inl, inr,
}
use irc.Common.Decimal.{strtol, c_str, is_decimal_digit}

-- A port number that a socket can have.
unfoldable pub port_of : ℤ → Option ℕ
port_of (pos n) = if ltb n 1 || ltb 65535 n then none else some n
port_of (negsuc n) = none

unfoldable pub parse_port : Text → Option ℕ
unfolding port_of
parse_port text =
    let parsed = strtol (c_str text) in
    if not (is_empty parsed.end) then none else port_of parsed.value

-- How main() of the server ends, or what it starts.
pub data Start : Type 0 where
  usage : Start
  invalid_port : Text → Start
  serve : ℕ → Text → Start

-- The arguments, without the name of the program.
unfoldable pub server_arguments : List Text → Start
unfolding parse_port
server_arguments args =
    if not (length args == 2) then usage else elim (parse_port (get_or args 0 [])) [
      | none ↦ invalid_port (get_or args 0 [])
      | some port ↦ serve port (get_or args 1 [])
    ]

-- isValidPort of bonus/main.cpp
unfoldable pub is_valid_port : Text → Bool
unfolding parse_port
is_valid_port port =
    if is_empty port || not (all is_decimal_digit port)
    then false
    else elim (parse_port port) [ none ↦ false | some _ ↦ true ]

-- isValidChannel of bonus/main.cpp
unfoldable pub is_valid_channel : Text → Bool
is_valid_channel channel = not (is_empty channel) && get_or channel 0 0 == b'#'

pub record BotArguments : Type 0 where
  pub host : Text
  pub port : Text
  pub password : Text
  pub channel : Text
  pub nickname : Text

pub data BotStart : Type 0 where
  bot_usage bad_port bad_channel no_nickname : BotStart
  run_bot : BotArguments → BotStart

unfoldable pub checked_arguments : BotArguments → BotStart
checked_arguments a =
    if not (is_valid_port a.port)
    then bad_port
    else if not (is_valid_channel a.channel)
    then bad_channel
    else if is_empty a.nickname
    then no_nickname
    else run_bot a

abbrev arguments_of : List Text → BotArguments
arguments_of args = record {
  host = get_or args 0 [];
  port = get_or args 1 [];
  password = get_or args 2 [];
  channel = get_or args 3 [];
  nickname = if length args == 5 then get_or args 4 [] else codes "bonusbot";
}

unfoldable pub bot_arguments : List Text → BotStart
unfolding checked_arguments
bot_arguments args =
    if not (length args == 4) && not (length args == 5)
    then bot_usage
    else checked_arguments (arguments_of args)

port_of_bounds : (n : ℤ) (port : ℕ) → port_of n ≡ some port → (1 ≤ port) × (port ≤ 65535)
unfolding port_of
port_of_bounds (pos n) port h = ground arith
port_of_bounds (negsuc n) port h = cc

parse_port_bounds :
    (text : Text) (port : ℕ) → parse_port text ≡ some port → (1 ≤ port) × (port ≤ 65535)
unfolding parse_port
parse_port_bounds text port h = ground (arith, port_of_bounds (strtol (c_str text)).value port)

-- The server starts only on a port from 1 to 65535, and with the password that it is given.
pub server_arguments_bounds :
    (args : List Text) (port : ℕ) (password : Text)
    → server_arguments args ≡ serve port password
    → (1 ≤ port) × (port ≤ 65535) × (get_or args 1 [] ≡ password)
unfolding server_arguments
server_arguments_bounds args port password h =
    ground (arith, parse_port_bounds (get_or args 0 []) port)

accepted_port :
    (text : Text) → is_valid_port text ≡ true → (port : ℕ) × (parse_port text ≡ some port)
unfolding is_valid_port
accepted_port text h = elim (Option-cases (parse_port text)) [
  | inl e ↦ absurd (ground arith)
  | inr (port, e) ↦ (port, e)
]

checked_arguments-valid :
    (a b : BotArguments)
    → checked_arguments b ≡ run_bot a
    → (b ≡ a)
      × (is_valid_port b.port ≡ true)
      × (is_valid_channel b.channel ≡ true)
      × (is_empty b.nickname ≡ false)
unfolding checked_arguments
checked_arguments-valid a b h = ground arith

-- A bot that starts has a port of digits that the server takes too, a channel whose name begins with #,
-- and a nickname.
pub bot_arguments-valid :
    (args : List Text) (a : BotArguments)
    → bot_arguments args ≡ run_bot a
    → (all is_decimal_digit a.port ≡ true)
      × ((port : ℕ) × (parse_port a.port ≡ some port))
      × (get_or a.channel 0 0 ≡ b'#')
      × (is_empty a.nickname ≡ false)
unfolding bot_arguments is_valid_channel is_valid_port
bot_arguments-valid args a h =
    let (e, is_port, is_channel, is_named) =
      checked_arguments-valid a (arguments_of args) (ground arith) in
    subst
      (λ a.
        (all is_decimal_digit a.port ≡ true)
        × ((port : ℕ) × (parse_port a.port ≡ some port))
        × (get_or a.channel 0 0 ≡ b'#')
        × (is_empty a.nickname ≡ false))
      e (ground arith, accepted_port (get_or args 1 []) is_port, ground arith, is_named)
