-- ===== src/Bircd/Output.antt =====
-- bircd/libft: the functions that write to a descriptor, by the bytes that they write. An overflow of an
-- int is `none`.
pub mod Digits
pub mod Decimal
use irc.Common.{
  ℕ, zero, suc, ◌+◌, ◌*◌, ◌/◌, ◌%◌, ℤ, pos, negsuc, List, [], ◌∷◌, ◌++◌, Option, none, some, Text,
  codes, leb, ◌==◌, if◌then◌else◌,
}
use irc.Common.Decimal.{negate, c_str}

abbrev pub int_max : ℕ
int_max = 2147483647

-- The operators / and % of C on an int and a positive int: towards zero.
abbrev pub quotient : ℤ → ℕ → ℤ
quotient (pos m) d = pos (m / d)
quotient (negsuc m) d = negate (suc m / d)

abbrev pub remainder : ℤ → ℕ → ℤ
remainder (pos m) d = pos (m % d)
remainder (negsuc m) d = negate (suc m % d)

-- ((n >= 0) - (n < 0)) * q, where q has the sign of n or is 0.
abbrev pub unsigned : ℤ → ℕ
unsigned (pos m) = m
unsigned (negsuc m) = suc m

-- The loop that looks for the divisor, from `tmp_n`.
unfoldable pub grow_divisor : ℕ → ℤ → ℕ → Option ℕ
grow_divisor zero tmp_n divisor = none
grow_divisor (suc rounds) tmp_n divisor =
    let later = grow_divisor rounds (quotient tmp_n 10) (divisor * 10) in
    if unsigned tmp_n == 0 then some divisor else if leb (divisor * 10) int_max then later else none

-- The loop that writes the digits.
unfoldable pub put_digits : ℕ → ℤ → ℕ → Option Text
put_digits zero n divisor = none
put_digits (suc rounds) n divisor =
    let later = put_digits rounds (remainder n divisor) (divisor / 10) in
    if divisor == 0 then some [] else elim later [
      | none ↦ none
      | some text ↦ some ((b'0' + unsigned (quotient n divisor)) ∷ text)
    ]

-- The digits, with one round more than the divisor has digits.
unfoldable pub put_number : ℤ → Option Text
unfolding grow_divisor put_digits
put_number n = elim (grow_divisor (suc (unsigned n)) (quotient n 10) 1) [
  | none ↦ none
  | some divisor ↦ put_digits (suc divisor) n divisor
]

unfoldable pub ft_putnbr_fd : ℤ → Option Text
unfolding put_number
ft_putnbr_fd (pos zero) = some (b'0' ∷ [])
ft_putnbr_fd (pos (suc m)) = put_number (pos (suc m))
ft_putnbr_fd (negsuc m) = elim (put_number (negsuc m)) [
  | none ↦ none
  | some text ↦ some (b'-' ∷ text)
]

-- A text up to its zero byte; NULL writes nothing.
unfoldable pub ft_putstr_fd : Option Text → Option Text
ft_putstr_fd none = some []
ft_putstr_fd (some s) = some (c_str s)

-- One call after another.
abbrev then_write : Option Text → Option Text → Option Text
then_write none later = none
then_write (some text) none = none
then_write (some text) (some more) = some (text ++ more)

abbrev calls : List (Option Text) → Option Text
calls [] = some []
calls (c ∷ cs) = then_write c (calls cs)

abbrev text_of : Text → Option Text
text_of s = ft_putstr_fd (some s)

abbrev number_of : ℕ → Option Text
number_of n = ft_putnbr_fd (pos n)

-- What broadcast_message says of a message.
unfoldable pub report_message : ℕ → Text → Option Text
unfolding ft_putstr_fd ft_putnbr_fd
report_message sender_fd msg = calls (
    text_of (codes "[fd=")
    ∷ number_of sender_fd
    ∷ text_of (codes "] msg=[")
    ∷ text_of msg
    ∷ text_of (codes "]" ++ 10 ∷ [])
    ∷ [])

-- What broadcast_message says of a client whose write buffer has no room.
unfoldable pub report_full : ℕ → ℕ → ℕ → Option Text
unfolding ft_putstr_fd ft_putnbr_fd
report_full i needed size = calls (
    text_of (codes "Max SendQ limit exceeded for fd ")
    ∷ number_of i
    ∷ text_of (codes ": ")
    ∷ number_of needed
    ∷ text_of (codes " > ")
    ∷ number_of size
    ∷ text_of (10 ∷ [])
    ∷ [])

-- What client_read says of a client that is gone.
unfoldable pub report_gone : ℕ → Option Text
unfolding ft_putstr_fd ft_putnbr_fd
report_gone cs =
    calls (text_of (codes "client ") ∷ number_of cs ∷ text_of (codes " gone away" ++ 10 ∷ []) ∷ [])
