-- ===== src/Bircd/Output/Decimal.antt =====
-- ft_putnbr_fd of bircd/libft writes decimal numbers.
use irc.Common.{
  ℕ, zero, suc, ◌+◌, ◌*◌, ◌/◌, ◌%◌, ◌≤◌, ◌<◌, ℤ, pos, negsuc, Bool, true, false, ◌≡◌, refl, sym, ap,
  subst, ◌∙◌, [], ◌∷◌, ◌++◌, some, Text, arith, ltb, leb, ◌==◌, Bool-cases, inl, inr, if◌then◌else◌,
}
use irc.Common.Decimal.{negate, decimal_on, decimal, decimal_int}
use irc.Bircd.Output.{
  int_max, quotient, remainder, unsigned, grow_divisor, put_digits, put_number, ft_putnbr_fd,
}
use irc.Bircd.Output.Digits.{tens, digits, tens-pos, digits_front, zero_first, lt-tens}
use native.Mathlib.Nat.{mod-lt, mul-div_cancel_left, div-one, mul_assoc, mul-le-mul_right, mul_comm}

-- The values of a 32-bit int.
abbrev pub is_int : ℤ → Bool
is_int (pos m) = leb m int_max
is_int (negsuc m) = leb m int_max

unsigned-negate : (k : ℕ) → unsigned (negate k) ≡ k
unsigned-negate zero = refl
unsigned-negate (suc k) = refl

unsigned-quotient : (n : ℤ) (d : ℕ) → unsigned (quotient n d) ≡ unsigned n / d
unsigned-quotient (pos m) d = refl
unsigned-quotient (negsuc m) d = unsigned-negate (suc m / d)

unsigned-remainder : (n : ℤ) (d : ℕ) → unsigned (remainder n d) ≡ unsigned n % d
unsigned-remainder (pos m) d = refl
unsigned-remainder (negsuc m) d = unsigned-negate (suc m % d)

put_digits-end : (rounds : ℕ) (n : ℤ) → put_digits (suc rounds) n 0 ≡ some []
unfolding put_digits
put_digits-end rounds n = refl

-- A round of the loop, from what the later rounds write.
put_digits-round :
    (rounds : ℕ) (n : ℤ) (d : ℕ) (text : Text)
    → 0 < d
    → put_digits rounds (remainder n d) (d / 10) ≡ some text
    → put_digits (suc rounds) n d ≡ some ((b'0' + unsigned n / d) ∷ text)
unfolding put_digits
put_digits-round rounds n d text h later =
    let more : (d == 0) ≡ false = ground (arith, h) in
    rw (put_digits, more, later) (ap (λ q. some ((b'0' + q) ∷ text)) (unsigned-quotient n d))

-- The loop over a divisor with `k` zeros.
put_digits-digits :
    (k rounds : ℕ) (n : ℤ)
    → suc k < rounds
    → unsigned n < 10 * tens k
    → put_digits rounds n (tens k) ≡ some (digits k (unsigned n))
unfolding tens digits
put_digits-digits k zero n enough below = absurd (omega (arith, enough))
put_digits-digits zero (suc zero) n enough below = absurd (omega (arith, enough))
put_digits-digits zero (suc (suc rounds)) n enough below =
    put_digits-round (suc rounds) n 1 [] (omega arith) (put_digits-end rounds (remainder n 1))
    ∙ ap (λ q. some ((b'0' + q) ∷ [])) (div-one (unsigned n))
put_digits-digits (suc k) (suc rounds) n enough below =
    let t = tens (suc k) in
    let shorter : t / 10 ≡ tens k = mul-div_cancel_left (tens k) (omega arith) in
    let less : unsigned (remainder n t) < 10 * tens k =
      subst (λ x. x < t) (sym (unsigned-remainder n t)) (mod-lt (unsigned n) (tens-pos (suc k))) in
    let later =
      ap (λ d. put_digits rounds (remainder n t) d) shorter
      ∙ put_digits-digits k rounds (remainder n t) (omega (arith, enough)) less in
    put_digits-round rounds n t (digits k (unsigned (remainder n t))) (tens-pos (suc k)) later
    ∙ ap (λ m. some ((b'0' + unsigned n / t) ∷ digits k m)) (unsigned-remainder n t)
    ∙ ap some (digits_front k (unsigned n))

-- The divisor that the first loop finds: the digits are as many as the number has.
record Grown (rounds : ℕ) (tmp_n : ℤ) (m j : ℕ) : Type 0 where
  pub zeros : ℕ
  pub found : grow_divisor rounds tmp_n (tens j) ≡ some (tens (zeros + j))
  pub long_enough : m < 10 * tens zeros
  pub fits : tens zeros ≤ m
  pub spelled : decimal_on rounds m ≡ digits zeros m

grow_divisor-stop :
    (rounds : ℕ) (tmp_n : ℤ) (d : ℕ)
    → unsigned tmp_n ≡ 0
    → grow_divisor (suc rounds) tmp_n d ≡ some d
unfolding grow_divisor
grow_divisor-stop rounds tmp_n d h =
    let stops : (unsigned tmp_n == 0) ≡ true = ground (arith, h) in
    rw (grow_divisor, if◌then◌else◌, stops) refl

grow_divisor-round :
    (rounds : ℕ) (tmp_n : ℤ) (d : ℕ)
    → 0 < unsigned tmp_n
    → 10 * d ≤ int_max
    → grow_divisor (suc rounds) tmp_n d ≡ grow_divisor rounds (quotient tmp_n 10) (10 * d)
unfolding grow_divisor
grow_divisor-round rounds tmp_n d h small =
    let goes_on : (unsigned tmp_n == 0) ≡ false = ground (arith, h) in
    let fits : leb (d * 10) int_max ≡ true = ground (arith, small) in
    rw (grow_divisor, if◌then◌else◌, goes_on, fits)
      (ap (λ e. grow_divisor rounds (quotient tmp_n 10) e) (mul_comm d 10))

grow_divisor-Grown :
    (rounds m : ℕ) (tmp_n : ℤ) (j : ℕ)
    → m < rounds
    → 0 < m
    → unsigned tmp_n ≡ m / 10
    → m * tens j ≤ 2147483648
    → Grown rounds tmp_n m j
unfolding decimal_on tens digits
grow_divisor-Grown zero m tmp_n j enough more tmp small = absurd (omega (arith, enough))
grow_divisor-Grown (suc rounds) m tmp_n j enough more tmp small = elim (Bool-cases (ltb m 10)) [
  | inl one_digit ↦ record {
    zeros = 0;
    found =
        grow_divisor-stop rounds tmp_n (tens j) (ground (arith, tmp, one_digit))
        ∙ ap (λ k. some (tens k)) (zero_first j);
    long_enough = ground (arith, one_digit);
    fits = omega (arith, more);
    spelled = rw (if◌then◌else◌, one_digit) refl;
  }
  | inr longer ↦
      let t = tens j in
      let ten : 10 ≤ m = ground (arith, longer) in
      let above : 10 * t ≤ m * t = mul-le-mul_right t ten in
      let less : m / 10 * (10 * t) ≤ m * t =
        subst (λ x. x ≤ m * t) (mul_assoc (m / 10) 10 t) (mul-le-mul_right t (omega arith)) in
      let w =
        grow_divisor-Grown rounds (m / 10) (quotient tmp_n 10) (suc j) (omega (arith, enough, ten))
          (omega (arith, ten)) (unsigned-quotient tmp_n 10 ∙ ap (λ x. x / 10) tmp)
          (omega (arith, less, small)) in
      let step =
        grow_divisor-round rounds tmp_n t (omega (arith, tmp, ten)) (omega (arith, above, small)) in
      let count : w.zeros + suc j ≡ suc w.zeros + j = omega arith in
      record {
        zeros = suc w.zeros;
        found = step ∙ w.found ∙ ap (λ k. some (tens k)) count;
        long_enough = omega (arith, w.long_enough);
        fits = omega (arith, w.fits);
        spelled =
            rw (if◌then◌else◌, longer) (ap (λ text. text ++ ((b'0' + m % 10) ∷ [])) w.spelled);
      }
]

put_number-decimal :
    (n : ℤ) → 0 < unsigned n → unsigned n ≤ 2147483648 → put_number n ≡ some (decimal (unsigned n))
unfolding put_number decimal tens
put_number-decimal n more small =
    let m = unsigned n in
    let w =
      grow_divisor-Grown (suc m) m (quotient n 10) 0 (omega arith) more (unsigned-quotient n 10)
        (omega (arith, small)) in
    let exact : w.zeros + 0 ≡ w.zeros = omega arith in
    let found = w.found ∙ ap (λ k. some (tens k)) exact in
    rw (put_number, found)
      (put_digits-digits w.zeros (suc (tens w.zeros)) n (omega (arith, lt-tens w.zeros))
          w.long_enough
        ∙ ap some (sym w.spelled))

-- For every int, the least one included, ft_putnbr_fd writes its decimal text, both of its loops end, and
-- no divisor overflows.
pub ft_putnbr_fd-decimal_int : (n : ℤ) → is_int n ≡ true → ft_putnbr_fd n ≡ some (decimal_int n)
unfolding ft_putnbr_fd decimal_int decimal decimal_on
ft_putnbr_fd-decimal_int (pos zero) h = refl
ft_putnbr_fd-decimal_int (pos (suc m)) h =
    put_number-decimal (pos (suc m)) (omega arith) (ground (arith, h))
ft_putnbr_fd-decimal_int (negsuc m) h =
    rw (ft_putnbr_fd, put_number-decimal (negsuc m) (omega arith) (ground (arith, h))) refl
