-- ===== src/Bircd/Memory/Access.antt =====
-- When the calls of bircd's library stay within the array that they write.
use irc.Common.{
  ℕ, zero, suc, ◌+◌, ◌-◌, ◌≤◌, true, false, ◌≡◌, refl, sym, ap, subst, ◌∙◌, [], ◌∷◌, ◌++◌, Option,
  some, Text, arith, leb, ◌==◌, if◌then◌else◌, length, take, drop, append_assoc, Option-cases, inl,
  inr, Bool-cases, length-append,
}
use irc.Common.Lines.{find_char, find_char-lt_length, length-drop}
use irc.Bircd.Memory.{
  write_at, read_at, ft_strlen, string_at, ft_strlcpy, end_within, ft_strlcat, ft_memmove,
}

-- A text that a zero byte ends.
abbrev pub HasNul : Text → Type 0
HasNul a = (n : ℕ) × (ft_strlen a ≡ some n)

-- An access of this array that succeeds, and leaves its size.
abbrev pub Stores : Option Text → Text → Type 0
Stores o a = (a' : Text) × (o ≡ some a') × (length a' ≡ length a)

length-take : (n : ℕ) (s : Text) → n ≤ length s → length (take n s) ≡ n
length-take zero s h = ground arith
length-take (suc n) [] h = omega arith
length-take (suc n) (c ∷ s) h = ground (arith, length-take n s)

pub write_at-Stores :
    (i : ℕ) (bytes a : Text) → i + length bytes ≤ length a → Stores (write_at i bytes a) a
unfolding write_at
write_at-Stores i bytes a h =
    let n = i + length bytes in
    (
      take i a ++ (bytes ++ drop n a),
      ground (arith, h),
      omega (
        arith,
        h,
        length-append (take i a) (bytes ++ drop n a),
        length-append bytes (drop n a),
        length-take i a (omega (arith, h)),
        length-drop n a,
      ),
    )

leb-of_le : (a b : ℕ) → a ≤ b → leb a b ≡ true
leb-of_le a b h = ground arith

find_char-here : (k : ℕ) (s t : Text) → (n : ℕ) × (find_char k (s ++ k ∷ t) ≡ some n)
unfolding find_char
find_char-here k [] t = (0, ground arith)
find_char-here k (c ∷ s) t =
    let (n, later) = find_char-here k s t in
    elim (Bool-cases (c == k)) [
      | inl e ↦ (0, rw (if◌then◌else◌, e) refl)
      | inr e ↦ (suc n, rw (if◌then◌else◌, e, later) refl)
    ]

written :
    (i : ℕ) (bytes a a' : Text)
    → write_at i bytes a ≡ some a'
    → take i a ++ (bytes ++ drop (i + length bytes) a) ≡ a'
unfolding write_at
written i bytes a a' h = ground arith

pub write_at-HasNul : (i : ℕ) (s a a' : Text) → write_at i (s ++ 0 ∷ []) a ≡ some a' → HasNul a'
unfolding write_at
write_at-HasNul i s a a' h =
    let d = drop (i + length (s ++ 0 ∷ [])) a in
    subst HasNul (written i (s ++ 0 ∷ []) a a' h) (
      subst HasNul
        (append_assoc (take i a) s (0 ∷ d)
          ∙ ap (λ r. take i a ++ r) (sym (append_assoc s (0 ∷ []) d)))
        (find_char-here 0 (take i a ++ s) d))

string_at-some : (src : Text) → HasNul src → (s : Text) × (string_at src ≡ some s)
unfolding string_at
string_at-some src (n, found) = (take n src, rw (string_at, found) refl)

length-take_le : (n : ℕ) (s : Text) → length (take n s) ≤ n
length-take_le zero s = ground arith
length-take_le (suc n) [] = omega arith
length-take_le (suc n) (c ∷ s) = ground (arith, length-take_le n s)

pub ft_strlcpy-Stores :
    (i : ℕ) (src : Text) (size : ℕ) (a : Text)
    → HasNul src
    → i + size ≤ length a
    → Stores (ft_strlcpy i src size a) a
unfolding ft_strlcpy
ft_strlcpy-Stores i src size a nul h =
    let (s, e) = string_at-some src nul in
    elim (Bool-cases (size == 0)) [
      | inl z ↦ (a, rw (ft_strlcpy, e, if◌then◌else◌, z) refl, refl)
      | inr nz ↦
          let (a', stored, same) = write_at-Stores i (take (size - 1) s ++ 0 ∷ []) a (
            ground (
              arith,
              length-append (take (size - 1) s) (0 ∷ []),
              length-take_le (size - 1) s,
              h,
              nz,
            )) in
          (a', rw (ft_strlcpy, e, if◌then◌else◌, nz) stored, same)
    ]

module _ (i : ℕ) (src s : Text) (size : ℕ) (a a' : Text) (e : string_at src ≡ some s) where
  copied_none : (size == 0) ≡ true → ft_strlcpy i src size a ≡ some a' → a ≡ a'
  unfolding ft_strlcpy
  copied_none z h = ground arith

  copied :
      (size == 0) ≡ false
      → ft_strlcpy i src size a ≡ some a'
      → write_at i (take (size - 1) s ++ 0 ∷ []) a ≡ some a'
  unfolding ft_strlcpy
  copied nz h = ground arith

pub ft_strlcpy-HasNul :
    (i : ℕ) (src : Text) (size : ℕ) (a a' : Text)
    → HasNul src
    → HasNul a
    → ft_strlcpy i src size a ≡ some a'
    → HasNul a'
ft_strlcpy-HasNul i src size a a' nul before h =
    let (s, e) = string_at-some src nul in
    elim (Bool-cases (size == 0)) [
      | inl z ↦ subst HasNul (copied_none i src s size a a' e z h) before
      | inr nz ↦ write_at-HasNul i (take (size - 1) s) a a' (copied i src s size a a' e nz h)
    ]

pub ft_strlcat-Stores :
    (src : Text) (size : ℕ) (a : Text)
    → HasNul src
    → size ≤ length a
    → Stores (ft_strlcat src size a) a
unfolding ft_strlcat end_within
ft_strlcat-Stores src size a nul h = elim (Option-cases (find_char 0 (take size a))) [
  | inl e ↦
      rw (ft_strlcat, end_within, e, if◌then◌else◌, leb-of_le size (length a) h)
        (ft_strlcpy-Stores size src (size - size) a nul (omega (arith, h)))
  | inr (i, e) ↦
      rw (ft_strlcat, end_within, e)
        (ft_strlcpy-Stores i src (size - i) a nul
          (omega (arith, h, find_char-lt_length 0 (take size a) i e, length-take_le size a)))
]

pub ft_strlcat-HasNul :
    (src : Text) (size : ℕ) (a a' : Text)
    → HasNul src
    → HasNul a
    → ft_strlcat src size a ≡ some a'
    → HasNul a'
unfolding ft_strlcat
ft_strlcat-HasNul src size a a' nul before h = elim (Option-cases (end_within size a)) [
  | inl e ↦ absurd (ground arith)
  | inr (i, e) ↦ ft_strlcpy-HasNul i src (size - i) a a' nul before (ground arith)
]

pub ft_memmove-Stores :
    (dst src len : ℕ) (a : Text)
    → src + len ≤ length a
    → dst ≤ src
    → Stores (ft_memmove dst src len a) a
unfolding ft_memmove
ft_memmove-Stores dst src len a h k =
    rw (ft_memmove, read_at, if◌then◌else◌, leb-of_le (src + len) (length a) h)
      (write_at-Stores dst (take len (drop src a)) a
        (omega (arith, h, k, length-take_le len (drop src a))))
