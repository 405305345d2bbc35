-- ===== src/Bircd/Output/Digits.antt =====
-- Decimal digits by powers of ten: the first digit apart, and the last one apart.
use irc.Common.{
  ℕ, zero, suc, ◌+◌, ◌-◌, ◌*◌, ◌/◌, ◌%◌, ◌≤◌, ◌<◌, ◌≡◌, refl, sym, ap, subst, ◌∙◌, [], ◌∷◌, ◌++◌,
  Text, arith,
}
use native.Mathlib.Nat.{
  div-div-eq-div-mul, mod-mod_of_dvd, mod_def, mul_assoc, mul-div-le, dvd-mul_right,
}

-- A power of ten.
unfoldable pub tens : ℕ → ℕ
tens zero = 1
tens (suc k) = 10 * tens k

-- The `k + 1` digits of a number, the last one apart.
unfoldable pub digits : ℕ → ℕ → Text
digits zero m = (b'0' + m) ∷ []
digits (suc k) m = digits k (m / 10) ++ ((b'0' + m % 10) ∷ [])

pub tens-pos : (k : ℕ) → 0 < tens k
unfolding tens
tens-pos zero = omega arith
tens-pos (suc k) = omega (arith, tens-pos k)

-- A number without its last digit, in front of a divisor.
pub peel : (m d : ℕ) → 0 < d → (m % (10 * d)) / 10 ≡ (m / 10) % d
peel m d h =
    let whole = m / (10 * d) in
    let same : d * (m / 10 / d) ≡ d * whole = ap (λ q. d * q) (div-div-eq-div-mul m 10 d) in
    let left : m % (10 * d) ≡ m - 10 * (d * whole) =
      mod_def m (10 * d) ∙ ap (λ x. m - x) (mul_assoc 10 d whole) in
    let right : (m / 10) % d ≡ m / 10 - d * whole =
      mod_def (m / 10) d ∙ ap (λ x. m / 10 - x) same in
    let below : 10 * (d * whole) ≤ m =
      subst (λ x. x ≤ m) (mul_assoc 10 d whole) (mul-div-le m (10 * d)) in
    omega (arith, left, right, below)

-- A digit in front of the digits of the rest.
pub digits_front :
    (k m : ℕ) → (b'0' + m / tens (suc k)) ∷ digits k (m % tens (suc k)) ≡ digits (suc k) m
unfolding digits tens
digits_front zero m = refl
digits_front (suc k) m =
    let t = tens (suc k) in
    let low : m % (10 * t) % 10 ≡ m % 10 = mod-mod_of_dvd 10 m (dvd-mul_right 10 t) in
    let rest = digits_front k (m / 10) in
    rw (low, peel m t (tens-pos (suc k)), sym (div-div-eq-div-mul m 10 t))
      (ap (λ text. text ++ ((b'0' + m % 10) ∷ [])) rest)

pub zero_first : (j : ℕ) → j ≡ 0 + j
zero_first j = omega arith

pub lt-tens : (k : ℕ) → k < tens k
unfolding tens
lt-tens zero = omega arith
lt-tens (suc k) = omega (arith, lt-tens k)
