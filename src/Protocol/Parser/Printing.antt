-- ===== src/Protocol/Parser/Printing.antt =====
-- Messages as IRC writes them on a line, and what src/b/Parser.cpp reads back from them.
use mathlib.Core.Option
use irc.Common.{
  ℕ, zero, suc, ◌+◌, ◌<◌, ◌≤◌, Option, ◌||◌, true, not, ◌&&◌, ◌≡◌, refl, Bool, List, [], ◌∷◌, ◌++◌,
  some, Text, arith, ◌==◌, length, is_empty, all, length-append, take, get_or, ap, ◌∙◌,
}
use irc.Protocol.Parser.{
  skip_separators, read_token, is_message_separator, params_round, read_params_on, read_params,
  parse_rest, read_prefix, prefix_from, after_prefix, parse, remove_irc_line_terminator,
  upper_command, parse_command,
}

abbrev pub has_no_space : Text → Bool
has_no_space s = all (λ c. not (c == b' ')) s

-- A parameter that is not the last, or a command: not empty, without spaces, and not after a colon.
abbrev pub is_word : Text → Bool
is_word s = not (is_empty s) && has_no_space s && not (get_or s 0 0 == b':')

-- A text at which a token ends.
abbrev pub ends_token : Text → Bool
ends_token s = is_empty s || get_or s 0 0 == b' '

abbrev pub print_params : List Text → Text → Text
print_params [] trailing = b' ' ∷ b':' ∷ trailing
print_params (p ∷ ps) trailing = b' ' ∷ p ++ print_params ps trailing

read_token-append :
    (token rest : Text)
    → has_no_space token ≡ true
    → ends_token rest ≡ true
    → read_token (token ++ rest) ≡ (token, rest)
unfolding read_token is_message_separator
read_token-append [] [] h k = refl
read_token-append [] (c ∷ rest) h k = ground arith
read_token-append (c ∷ token) rest h k = ground (arith, read_token-append token rest)

pub skip_separators-word :
    (word rest : Text) → is_word word ≡ true → skip_separators (word ++ rest) ≡ word ++ rest
unfolding skip_separators is_message_separator
skip_separators-word [] rest h = cc
skip_separators-word (c ∷ word) rest h = ground arith

ends_token-print_params :
    (ps : List Text) (trailing : Text) → ends_token (print_params ps trailing) ≡ true
ends_token-print_params [] trailing = refl
ends_token-print_params (p ∷ ps) trailing = refl

pub params_round-word :
    (next : Text → Option (List Text)) (word rest : Text)
    → is_word word ≡ true
    → ends_token rest ≡ true
    → params_round next (word ++ rest) ≡ Option.map (λ ps. word ∷ ps) (next rest)
unfolding params_round
params_round-word next [] rest h k = cc
params_round-word next (c ∷ word) rest h k = ground (arith, read_token-append (c ∷ word) rest)

-- Enough rounds for the parameters read them all.
read_params_on-print :
    (n : ℕ) (ps : List Text) (trailing : Text)
    → all is_word ps ≡ true
    → length ps < n
    → read_params_on n (print_params ps trailing) ≡ some (ps ++ trailing ∷ [])
unfolding read_params_on
read_params_on-print zero ps trailing h k = ground arith
read_params_on-print (suc n) [] trailing h k = refl
read_params_on-print (suc n) (p ∷ ps) trailing h k =
    rw
      (
        skip_separators-word p (print_params ps trailing) (ground arith),
        params_round-word (read_params_on n) p (print_params ps trailing) (ground arith)
            (ends_token-print_params ps trailing),
        read_params_on-print n ps trailing (ground arith) (omega arith),
      )
      refl

length-print_params :
    (ps : List Text) (trailing : Text) → length ps ≤ length (print_params ps trailing)
length-print_params [] trailing = omega arith
length-print_params (p ∷ ps) trailing =
    omega (arith, length-print_params ps trailing, length-append p (print_params ps trailing))

read_params-print :
    (ps : List Text) (trailing : Text)
    → all is_word ps ≡ true
    → read_params (print_params ps trailing) ≡ ps ++ trailing ∷ []
unfolding read_params
read_params-print ps trailing h =
    rw
      (
        read_params,
        read_params_on-print (suc (length (print_params ps trailing))) ps trailing h
            (omega (arith, length-print_params ps trailing)),
      )
      refl

-- The prefix, when there is one, before the rest of the line.
abbrev pub print_prefix : Text → Text → Text
print_prefix [] rest = rest
print_prefix (c ∷ prefix) rest = b':' ∷ (c ∷ prefix) ++ b' ' ∷ rest

-- A whole line with its terminator.
abbrev pub print : Text → Text → List Text → Text → Text
print prefix command ps trailing =
    print_prefix prefix (command ++ print_params ps trailing) ++ 13 ∷ 10 ∷ []

take-append_length : (s t : Text) → take (length s) (s ++ t) ≡ s
take-append_length [] t = refl
take-append_length (c ∷ s) t = rw (take-append_length s t)

suc_shift : (m i : ℕ) → suc m + i ≡ suc (m + i)
suc_shift m i = omega arith

get_or-append_length : (s t : Text) (i d : ℕ) → get_or (s ++ t) (length s + i) d ≡ get_or t i d
get_or-append_length [] t i d = ap (λ n. get_or t n d) (omega arith)
get_or-append_length (c ∷ s) t i d =
    ap (λ n. get_or (c ∷ s ++ t) n d) (suc_shift (length s) i) ∙ get_or-append_length s t i d

remove_irc_line_terminator-print : (s : Text) → remove_irc_line_terminator (s ++ 13 ∷ 10 ∷ []) ≡ s
unfolding remove_irc_line_terminator
remove_irc_line_terminator-print s = ground (
  arith,
  length-append s (13 ∷ 10 ∷ []),
  take-append_length s (13 ∷ 10 ∷ []),
  get_or-append_length s (13 ∷ 10 ∷ []) 0 0,
  get_or-append_length s (13 ∷ 10 ∷ []) 1 0,
)

read_prefix-print :
    (prefix command rest : Text)
    → has_no_space prefix ≡ true
    → is_word command ≡ true
    → read_prefix (print_prefix prefix (command ++ rest)) ≡ some (prefix, command ++ rest)
unfolding read_prefix prefix_from after_prefix
read_prefix-print [] [] rest h k = cc
read_prefix-print [] (c ∷ command) rest h k =
    rw (skip_separators-word (c ∷ command) rest k) (ground arith)
read_prefix-print (c ∷ prefix) command rest h k =
    rw
      (
        read_token-append (c ∷ prefix) (b' ' ∷ command ++ rest) h refl,
        skip_separators-word command rest k,
      )
      refl

parse_rest-tail :
    (prefix command tail : Text)
    → is_word command ≡ true
    → ends_token tail ≡ true
    → parse_rest (some (prefix, command ++ tail))
      ≡ record { prefix = prefix; command = upper_command command; params = read_params tail }
unfolding parse_rest parse_command
parse_rest-tail prefix [] tail h k = cc
parse_rest-tail prefix (c ∷ command) tail h k =
    rw (read_token-append (c ∷ command) tail (ground arith) k) refl

-- The prefix and the command of a line, whatever its parameters are.
pub parse-tail :
    (prefix command tail : Text)
    → has_no_space prefix ≡ true
    → is_word command ≡ true
    → ends_token tail ≡ true
    → parse (print_prefix prefix (command ++ tail) ++ 13 ∷ 10 ∷ [])
      ≡ record { prefix = prefix; command = upper_command command; params = read_params tail }
unfolding parse
parse-tail prefix command tail h k l =
    rw
      (
        remove_irc_line_terminator-print (print_prefix prefix (command ++ tail)),
        read_prefix-print prefix command tail h k,
      )
      (parse_rest-tail prefix command tail k l)

-- A message printed on a line, with its terminator, is read back: its prefix as it is, its command
-- in upper case, and its parameters in order, of which the last may hold anything, also spaces and
-- colons. The prefix has no space; the command and the other parameters are not empty, have no space,
-- and do not begin with a colon.
pub parse-print :
    (prefix command : Text) (ps : List Text) (trailing : Text)
    → has_no_space prefix ≡ true
    → is_word command ≡ true
    → all is_word ps ≡ true
    → parse (print prefix command ps trailing)
      ≡ record { prefix = prefix; command = upper_command command; params = ps ++ trailing ∷ [] }
parse-print prefix command ps trailing h k l =
    rw (← read_params-print ps trailing l) (
      parse-tail prefix command (print_params ps trailing) h k
        (ends_token-print_params ps trailing))
