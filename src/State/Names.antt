-- ===== src/State/Names.antt =====
-- src/c/Utils.cpp: which nicknames and channel names are well formed, and IRC's comparison of names
-- without regard to case. A `char` is its byte, 0 to 255.
pub mod Order
use irc.Common.{
  ℕ, ◌+◌, ◌-◌, Bool, true, false, not, ◌&&◌, ◌||◌, [], ◌∷◌, Text, ltb, leb, ◌==◌, if◌then◌else◌,
  is_empty, all, length, get_or, drop,
}

unfoldable pub irc_tolower : ℕ → ℕ
irc_tolower c =
    if leb b'A' c && leb c b'Z'
    then c + (b'a' - b'A')
    else if c == b'['
    then b'{'
    else if c == b']'
    then b'}'
    else if c == b'\\'
    then b'|'
    else if c == b'~'
    then b'^'
    else c

unfoldable pub is_letter : ℕ → Bool
is_letter c = (leb b'A' c && leb c b'Z') || (leb b'a' c && leb c b'z')

unfoldable pub is_digit : ℕ → Bool
is_digit c = leb b'0' c && leb c b'9'

unfoldable pub is_special : ℕ → Bool
is_special c = (leb b'[' c && leb c b'`') || (leb b'{' c && leb c b'}')

unfoldable pub is_nickname_char : ℕ → Bool
unfolding is_letter is_digit is_special
is_nickname_char c = is_letter c || is_digit c || is_special c || c == b'-'

unfoldable pub is_channel_string_char : ℕ → Bool
is_channel_string_char c =
    if c == 0 || c == 7 || c == 13 || c == 10
    then false
    else not (c == b' ') && not (c == b',') && not (c == b':')

-- `<` on `char`, which is signed on the platforms that the server is built for.
unfoldable pub char_less : ℕ → ℕ → Bool
char_less a b =
    if leb 128 a
    then (if leb 128 b then ltb a b else true)
    else if leb 128 b
    then false
    else ltb a b

-- IrcStringCompare::operator()
unfoldable pub irc_less : Text → Text → Bool
irc_less [] [] = false
irc_less [] (b ∷ t) = true
irc_less (a ∷ s) [] = false
irc_less (a ∷ s) (b ∷ t) =
    let lower_a = irc_tolower a in
    let lower_b = irc_tolower b in
    let rest = irc_less s t in
    if char_less lower_a lower_b then true else if char_less lower_b lower_a then false else rest

unfoldable pub is_valid_nickname : Text → Bool
unfolding is_letter is_special is_nickname_char
is_valid_nickname name =
    if is_empty name || ltb 9 (length name)
    then false
    else if not (is_letter (get_or name 0 0)) && not (is_special (get_or name 0 0))
    then false
    else all is_nickname_char (drop 1 name)

unfoldable pub is_valid_channel_name : Text → Bool
unfolding is_channel_string_char
is_valid_channel_name name =
    if ltb (length name) 2 || not (get_or name 0 0 == b'#')
    then false
    else all is_channel_string_char (drop 1 name)
