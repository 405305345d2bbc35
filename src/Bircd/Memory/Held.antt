-- ===== src/Bircd/Memory/Held.antt =====
-- The text that an array holds, and what the calls of bircd's library make of it.
use irc.Common.{
  ℕ, zero, suc, ◌+◌, ◌-◌, ◌<◌, ◌≤◌, true, false, ◌≡◌, refl, sym, ap, subst, ◌∙◌, [], ◌∷◌, ◌++◌,
  Option, none, some, Text, arith, leb, ◌==◌, if◌then◌else◌, length, take, drop, append_assoc,
  length-append,
}
use irc.Common.Lines.{find_char, length-drop}
use irc.Bircd.Memory.{
  write_at, read_at, ft_strlen, string_at, ft_strlcpy, end_within, ft_strlcat, ft_memmove,
}

-- The array begins with this text and a zero byte, and the text has none.
pub record Holds (a s : Text) : Type 0 where
  pub behind : Text
  pub array : a ≡ s ++ 0 ∷ behind
  pub no_nul : find_char 0 s ≡ none

find_char-end : (s d : Text) → find_char 0 s ≡ none → find_char 0 (s ++ 0 ∷ d) ≡ some (length s)
unfolding find_char
find_char-end [] d h = refl
find_char-end (c ∷ s) d h = ground (arith, h, find_char-end s d)

find_char-end_within :
    (s d : Text) (n : ℕ)
    → find_char 0 s ≡ none
    → length s < n
    → find_char 0 (take n (s ++ 0 ∷ d)) ≡ some (length s)
unfolding find_char
find_char-end_within s d zero h k = absurd (omega (arith, k))
find_char-end_within [] d (suc n) h k = refl
find_char-end_within (c ∷ s) d (suc n) h k = ground (arith, h, k, find_char-end_within s d n)

absent-append :
    (s t : Text) → find_char 0 s ≡ none → find_char 0 t ≡ none → find_char 0 (s ++ t) ≡ none
unfolding find_char
absent-append [] t h k = k
absent-append (c ∷ s) t h k = ground (arith, h, k, absent-append s t)

absent-drop : (n : ℕ) (s : Text) → find_char 0 s ≡ none → find_char 0 (drop n s) ≡ none
unfolding find_char
absent-drop zero s h = h
absent-drop (suc n) [] h = h
absent-drop (suc n) (c ∷ s) h = ground (arith, h, absent-drop n s)

take-length : (s t : Text) → take (length s) (s ++ t) ≡ s
take-length [] t = refl
take-length (c ∷ s) t = ap (λ r. c ∷ r) (take-length s t)

take-all : (n : ℕ) (s : Text) → length s ≤ n → take n s ≡ s
take-all zero [] h = refl
take-all zero (c ∷ s) h = absurd (omega (arith, h))
take-all (suc n) [] h = refl
take-all (suc n) (c ∷ s) h = ap (λ r. c ∷ r) (take-all n s (omega (arith, h)))

drop-append : (n : ℕ) (s t : Text) → n ≤ length s → drop n (s ++ t) ≡ drop n s ++ t
drop-append zero s t h = refl
drop-append (suc n) [] t h = absurd (omega (arith, h))
drop-append (suc n) (c ∷ s) t h = drop-append n s t (omega (arith, h))

pub ft_strlen-Holds : (a s : Text) → Holds a s → ft_strlen a ≡ some (length s)
ft_strlen-Holds a s w = rw w.array (find_char-end s w.behind w.no_nul)

string_at-Holds : (a s : Text) → Holds a s → string_at a ≡ some s
unfolding string_at
string_at-Holds a s w =
    rw (string_at, ft_strlen-Holds a s w) (ap some (rw w.array (take-length s (0 ∷ w.behind))))

-- What a call makes: it succeeds, the array then holds this text, and has its size.
abbrev pub Makes : Option Text → Text → Text → Type 0
Makes o a s = (a' : Text) × (o ≡ some a') × Holds a' s × (length a' ≡ length a)

-- A text is written behind the first bytes of the array.
write_at-Makes :
    (s t a : Text)
    → take (length s) a ≡ s
    → find_char 0 s ≡ none
    → find_char 0 t ≡ none
    → length s + length t < length a
    → Makes (write_at (length s) (t ++ 0 ∷ []) a) a (s ++ t)
unfolding write_at
write_at-Makes s t a front h k room =
    let n = length s + length (t ++ 0 ∷ []) in
    let fits : leb n (length a) ≡ true = ground (arith, room, length-append t (0 ∷ [])) in
    (
      take (length s) a ++ ((t ++ 0 ∷ []) ++ drop n a),
      rw (write_at, if◌then◌else◌, fits) refl,
      record {
        behind = drop n a;
        array = rw front (
            ap (λ r. s ++ r) (append_assoc t (0 ∷ []) (drop n a))
            ∙ sym (append_assoc s t (0 ∷ drop n a)));
        no_nul = absent-append s t h k;
      },
      rw front (
          omega (
            arith,
            room,
            length-append s ((t ++ 0 ∷ []) ++ drop n a),
            length-append (t ++ 0 ∷ []) (drop n a),
            length-append t (0 ∷ []),
            length-drop n a,
          )),
    )

pub ft_strlcpy-Makes :
    (src t : Text) (size : ℕ) (a : Text)
    → Holds src t
    → length t < size
    → size ≤ length a
    → Makes (ft_strlcpy 0 src size a) a t
unfolding ft_strlcpy find_char
ft_strlcpy-Makes src t size a w h k =
    let positive : (size == 0) ≡ false = ground (arith, h) in
    rw
      (
        ft_strlcpy,
        string_at-Holds src t w,
        if◌then◌else◌,
        positive,
        take-all (size - 1) t (omega (arith, h)),
      )
      (write_at-Makes [] t a refl refl w.no_nul (omega (arith, h, k)))

pub ft_strlcat-Makes :
    (src t : Text) (size : ℕ) (a s : Text)
    → Holds src t
    → Holds a s
    → length s + length t < size
    → size ≤ length a
    → Makes (ft_strlcat src size a) a (s ++ t)
unfolding ft_strlcat end_within ft_strlcpy
ft_strlcat-Makes src t size a s w v h k =
    let ends : find_char 0 (take size a) ≡ some (length s) =
      rw v.array (find_char-end_within s v.behind size v.no_nul (omega (arith, h))) in
    let positive : (size - length s == 0) ≡ false = ground (arith, h) in
    rw
      (
        ft_strlcat,
        end_within,
        ends,
        ft_strlcpy,
        string_at-Holds src t w,
        if◌then◌else◌,
        positive,
        take-all (size - length s - 1) t (omega (arith, h)),
      )
      (write_at-Makes s t a (rw v.array (take-length s (0 ∷ v.behind))) v.no_nul w.no_nul
        (omega (arith, h, k)))

moved-drop :
    (n : ℕ) (s d : Text)
    → n ≤ length s
    → take (length s - n + 1) (drop n (s ++ 0 ∷ d)) ≡ drop n s ++ 0 ∷ []
moved-drop n s d h =
    rw (drop-append n s (0 ∷ d) h, ← append_assoc (drop n s) (0 ∷ []) d)
      (subst (λ k. take k ((drop n s ++ 0 ∷ []) ++ d) ≡ drop n s ++ 0 ∷ [])
        (length-append (drop n s) (0 ∷ []) ∙ omega (arith, length-drop n s))
        (take-length (drop n s ++ 0 ∷ []) d))

-- The text less its first bytes is moved to the front, with the zero byte.
pub ft_memmove-Makes :
    (n : ℕ) (a s : Text)
    → Holds a s
    → n ≤ length s
    → length s < length a
    → Makes (ft_memmove 0 n (length s - n + 1) a) a (drop n s)
unfolding ft_memmove read_at find_char
ft_memmove-Makes n a s w h k =
    let inside : leb (n + (length s - n + 1)) (length a) ≡ true = ground (arith, h, k) in
    let moved : take (length s - n + 1) (drop n a) ≡ drop n s ++ 0 ∷ [] =
      ap (λ (r : Text). take (length s - n + 1) (drop n r)) w.array ∙ moved-drop n s w.behind h in
    rw (ft_memmove, read_at, if◌then◌else◌, inside, moved)
      (write_at-Makes [] (drop n s) a refl refl (absent-drop n s w.no_nul)
        (omega (arith, k, length-drop n s)))
