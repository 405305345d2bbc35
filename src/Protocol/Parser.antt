-- ===== src/Protocol/Parser.antt =====
-- src/b/Parser.cpp: one line into a message. The pair of a text and a position is the text from
-- that position on.
pub mod Printing
pub mod Words
pub mod Bytes
use mathlib.Core.Option
use irc.Common.{
  ℕ, zero, suc, ◌-◌, Bool, ◌&&◌, List, [], ◌∷◌, map, Option, none, some, Text, leb, ◌==◌,
  if◌then◌else◌, length, get_or, take,
}
use irc.Protocol.Message.{Message, no_message}

unfoldable pub remove_irc_line_terminator : Text → Text
remove_irc_line_terminator line =
    if leb 2 (length line)
      && get_or line (length line - 2) 0 == 13
      && get_or line (length line - 1) 0 == 10
    then take (length line - 2) line
    else line

-- toupper() in the C locale
unfoldable pub to_upper : ℕ → ℕ
to_upper c = if leb b'a' c && leb c b'z' then c - 32 else c

unfoldable pub upper_command : Text → Text
upper_command = map to_upper

unfoldable pub is_message_separator : ℕ → Bool
is_message_separator c = c == b' '

unfoldable pub skip_separators : Text → Text
unfolding is_message_separator
skip_separators [] = []
skip_separators (c ∷ s) =
    let rest = skip_separators s in if is_message_separator c then rest else c ∷ s

-- The bytes up to the next separator, and the rest from the separator on.
unfoldable pub read_token : Text → Text × Text
unfolding is_message_separator
read_token [] = ([], [])
read_token (c ∷ s) =
    let (token, rest) = read_token s in
    if is_message_separator c then ([], c ∷ s) else (c ∷ token, rest)

-- The end of readPrefix, from the prefix and what follows it: `none` is `return false`.
unfoldable pub after_prefix : Text × Text → Option (Text × Text)
unfolding skip_separators
after_prefix (prefix, []) = none
after_prefix (prefix, c ∷ s) = some (prefix, skip_separators (c ∷ s))

unfoldable pub prefix_from : Text → Option (Text × Text)
unfolding read_token after_prefix
prefix_from [] = some ([], [])
prefix_from (c ∷ s) = if c == b':' then after_prefix (read_token s) else some ([], c ∷ s)

unfoldable pub read_prefix : Text → Option (Text × Text)
unfolding skip_separators prefix_from
read_prefix input = prefix_from (skip_separators input)

-- One round of the loop of readParams, behind the separators. `next` is the rounds that follow.
unfoldable pub params_round : (Text → Option (List Text)) → Text → Option (List Text)
unfolding read_token
params_round next [] = some []
params_round next (c ∷ s) =
    if c == b':'
    then some (s ∷ [])
    else let (token, rest) = read_token (c ∷ s) in Option.map (λ ps. token ∷ ps) (next rest)

-- `none` means that the rounds ran out.
unfoldable pub read_params_on : ℕ → Text → Option (List Text)
unfolding params_round skip_separators
read_params_on zero input = none
read_params_on (suc rounds) input = params_round (read_params_on rounds) (skip_separators input)

-- Each round takes a byte at least, so the length of the text and one more round are enough.
unfoldable pub read_params : Text → List Text
unfolding read_params_on
read_params input = elim (read_params_on (suc (length input)) input) [ none ↦ [] | some ps ↦ ps ]

unfoldable pub parse_command : Text → Text × Text → Message
unfolding upper_command to_upper read_params
parse_command prefix (command, rest) = record {
  prefix = prefix;
  command = upper_command command;
  params = read_params rest;
}

unfoldable pub parse_rest : Option (Text × Text) → Message
unfolding read_token parse_command
parse_rest none = no_message
parse_rest (some (prefix, [])) = no_message
parse_rest (some (prefix, c ∷ s)) = parse_command prefix (read_token (c ∷ s))

unfoldable pub parse : Text → Message
unfolding remove_irc_line_terminator read_prefix parse_rest
parse line = parse_rest (read_prefix (remove_irc_line_terminator line))
