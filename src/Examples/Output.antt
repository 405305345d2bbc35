-- ===== src/Examples/Output.antt =====
-- The numbers and the reports that bircd writes.
use irc.Common.{negsuc, ◌≡◌, refl, ◌++◌, [], ◌∷◌, some, codes}
use irc.Common.Decimal.{c_str, decimal_int}
use irc.Bircd.Output.{
  grow_divisor, put_digits, put_number, ft_putnbr_fd, ft_putstr_fd, report_message,
}
use irc.Bircd.Output.Decimal.{ft_putnbr_fd-decimal_int}

-- INT_MIN
ft_putnbr_fd-decimal_int_example :
    ft_putnbr_fd (negsuc 2147483647) ≡ some (decimal_int (negsuc 2147483647))
ft_putnbr_fd-decimal_int_example = ft_putnbr_fd-decimal_int (negsuc 2147483647) refl

reported_message : report_message 4 (codes "hi") ≡ some (codes "[fd=4] msg=[hi]" ++ 10 ∷ [])
unfolding report_message ft_putstr_fd ft_putnbr_fd put_number grow_divisor put_digits c_str
reported_message = refl
