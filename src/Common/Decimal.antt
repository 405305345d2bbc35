-- ===== src/Common/Decimal.antt =====
-- Decimal numbers: `ostringstream << n`, and `strtol` with base 10 on a NUL-terminated text.
use irc.Common.{
  ℕ, zero, suc, ◌+◌, ◌-◌, ◌*◌, ◌/◌, ◌%◌, ◌^◌, ℤ, pos, negsuc, Bool, true, false, not, ◌&&◌, ◌||◌,
  [], ◌∷◌, ◌++◌, Text, ltb, leb, ◌==◌, if◌then◌else◌,
}

unfoldable pub decimal_on : ℕ → ℕ → Text
decimal_on zero n = []
decimal_on (suc fuel) n =
    let rest = decimal_on fuel (n / 10) in
    if ltb n 10 then (b'0' + n) ∷ [] else rest ++ (b'0' + n % 10) ∷ []

-- A number has at most as many digits as its value, plus one.
unfoldable pub decimal : ℕ → Text
unfolding decimal_on
decimal n = decimal_on (suc n) n

unfoldable pub decimal_int : ℤ → Text
unfolding decimal
decimal_int (pos n) = decimal n
decimal_int (negsuc n) = b'-' ∷ decimal (suc n)

abbrev pub is_decimal_digit : ℕ → Bool
is_decimal_digit c = leb b'0' c && leb c b'9'

-- isspace() in the C locale
abbrev pub is_space : ℕ → Bool
is_space c = c == b' ' || (leb 9 c && leb c 13)

-- c_str(), as a reader of a NUL-terminated text sees it
unfoldable pub c_str : Text → Text
c_str [] = []
c_str (c ∷ s) = let rest = c_str s in if c == 0 then [] else c ∷ rest

unfoldable pub skip_space : Text → Text
skip_space [] = []
skip_space (c ∷ s) = let rest = skip_space s in if is_space c then rest else c ∷ s

-- The number that the leading digits spell, after `acc`, and what follows them.
unfoldable pub read_digits : ℕ → Text → ℕ × Text
read_digits acc [] = (acc, [])
read_digits acc (c ∷ s) =
    let rest = read_digits (acc * 10 + (c - b'0')) s in
    if is_decimal_digit c then rest else (acc, c ∷ s)

pub record Parsed : Type 0 where
  pub value : ℤ
  pub end : Text
  pub out_of_range : Bool

abbrev pub long_max : ℕ
long_max = 2 ^ 63 - 1

abbrev pub negate : ℕ → ℤ
negate zero = pos zero
negate (suc n) = negsuc n

-- After the sign: `start` is where the text began, the end pointer if there is no digit.
unfoldable pub strtol_signed : Bool → Text → Text → Parsed
unfolding read_digits
strtol_signed negative start [] = record { value = pos 0; end = start; out_of_range = false }
strtol_signed negative start (c ∷ s) =
    if not (is_decimal_digit c)
    then record { value = pos 0; end = start; out_of_range = false }
    else let (n, end) = read_digits 0 (c ∷ s) in
      if negative
      then (if ltb (long_max + 1) n
          then record { value = negate (long_max + 1); end = end; out_of_range = true }
          else record { value = negate n; end = end; out_of_range = false })
      else if ltb long_max n
      then record { value = pos long_max; end = end; out_of_range = true }
      else record { value = pos n; end = end; out_of_range = false }

unfoldable pub strtol_unspaced : Text → Text → Parsed
unfolding strtol_signed
strtol_unspaced start [] = strtol_signed false start []
strtol_unspaced start (c ∷ s) =
    if c == b'-'
    then strtol_signed true start s
    else if c == b'+'
    then strtol_signed false start s
    else strtol_signed false start (c ∷ s)

unfoldable pub strtol : Text → Parsed
unfolding strtol_unspaced skip_space
strtol s = strtol_unspaced s (skip_space s)
