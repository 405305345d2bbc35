-- ===== src/Command/Mode/Limit.antt =====
-- Which texts `MODE +l` takes as a limit (parsePositiveLimit).
use irc.Common.{ℤ, pos, negsuc, true, false, Bool, leb, ◌&&◌, ◌^◌, ◌-◌, Text, some, ◌≡◌, arith}
use irc.Common.Decimal.{strtol, c_str}
use irc.State.Modes.{limit_ok}
use irc.Command.Mode.{parse_positive_limit, limit_of}

limit_ok-limit_of : (n m : ℤ) → limit_of n ≡ some m → limit_ok m ≡ true
limit_ok-limit_of (pos n) m h = ground arith
limit_ok-limit_of (negsuc n) m h = ground arith

pub limit_ok-parse_positive_limit :
    (value : Text) (n : ℤ) → parse_positive_limit value ≡ some n → limit_ok n ≡ true
unfolding parse_positive_limit
limit_ok-parse_positive_limit value n h =
    ground (arith, limit_ok-limit_of (strtol (c_str value)).value n)

-- From 1 to INT_MAX.
abbrev pub is_positive_int : ℤ → Bool
is_positive_int (pos n) = leb 1 n && leb n (2 ^ 31 - 1)
is_positive_int (negsuc n) = false

is_positive_int-limit_of : (n m : ℤ) → limit_of n ≡ some m → is_positive_int m ≡ true
is_positive_int-limit_of (pos n) m h = ground arith
is_positive_int-limit_of (negsuc n) m h = ground arith

-- A limit that is accepted from a text is from 1 to INT_MAX, whatever the text.
pub is_positive_int-parse_positive_limit :
    (value : Text) (n : ℤ) → parse_positive_limit value ≡ some n → is_positive_int n ≡ true
unfolding parse_positive_limit
is_positive_int-parse_positive_limit value n h =
    ground (arith, is_positive_int-limit_of (strtol (c_str value)).value n)
