-- ===== src/Common/Lines.antt =====
-- A stream of bytes as lines: the reference that the line buffers of the server, of the bonus bot and
-- of the study servers are compared with.
use irc.Common.{
  ℕ, zero, suc, ◌-◌, ◌<◌, false, ◌≡◌, refl, ap, ◌∙◌, List, [], ◌∷◌, ◌++◌, Option, none, some, Text,
  arith, ◌==◌, if◌then◌else◌, length, take, drop, Option-cases, inl, inr, Bool-cases,
}

-- std::string::find(char)
unfoldable pub find_char : ℕ → Text → Option ℕ
find_char k [] = none
find_char k (c ∷ s) =
    let later = find_char k s in
    if c == k then some 0 else elim later [ none ↦ none | some i ↦ some (suc i) ]

-- A byte before the first line, or before what is no line yet.
unfoldable pub join_byte : ℕ → List Text → Text → List Text × Text
join_byte c [] rest = ([], c ∷ rest)
join_byte c (l ∷ ls) rest = ((c ∷ l) ∷ ls, rest)

-- The lines that a newline ends, each without it, and what follows the last of them.
unfoldable pub lines_of : Text → List Text × Text
lines_of [] = ([], [])
lines_of (c ∷ s) =
    let (ls, rest) = lines_of s in if c == 10 then ([] ∷ ls, rest) else join_byte c ls rest

pub lines_of-absent : (s : Text) → find_char 10 s ≡ none → lines_of s ≡ ([], s)
unfolding find_char lines_of join_byte
lines_of-absent [] h = refl
lines_of-absent (c ∷ s) h = elim (Option-cases (find_char 10 s)) [
  | inl absent ↦ ground (arith, lines_of-absent s absent, absent, h)
  | inr (i, found) ↦ ground (arith, found, h)
]

-- At the first newline the line ends, and the others follow.
pub lines_of-found :
    (s : Text) (n : ℕ)
    → find_char 10 s ≡ some n
    → lines_of s ≡ (take n s ∷ (lines_of (drop (suc n) s)).0, (lines_of (drop (suc n) s)).1)
unfolding find_char lines_of join_byte
lines_of-found [] n h = cc
lines_of-found (c ∷ s) zero h = ground (arith, h)
lines_of-found (c ∷ s) (suc n) h = elim (Option-cases (find_char 10 s)) [
  | inl absent ↦ ground (arith, absent, h)
  | inr (i, found) ↦ ground (arith, found, h, lines_of-found s n)
]

pub find_char-lt_length : (k : ℕ) (s : Text) (n : ℕ) → find_char k s ≡ some n → n < length s
unfolding find_char
find_char-lt_length k [] n h = cc
find_char-lt_length k (c ∷ s) n h = elim (Option-cases (find_char k s)) [
  | inl absent ↦ ground (arith, absent, h)
  | inr (i, found) ↦ ground (arith, found, h, find_char-lt_length k s i found)
]

join_byte-append :
    (c : ℕ) (ls : List Text) (rest t : Text)
    → (c == 10) ≡ false
    → join_byte c (ls ++ (lines_of (rest ++ t)).0) (lines_of (rest ++ t)).1 ≡ (
      (join_byte c ls rest).0 ++ (lines_of ((join_byte c ls rest).1 ++ t)).0,
      (lines_of ((join_byte c ls rest).1 ++ t)).1,
    )
unfolding join_byte lines_of
join_byte-append c [] rest t h = rw (if◌then◌else◌, h) refl
join_byte-append c (l ∷ ls) rest t h = refl

-- A line that is not ended yet goes on with what comes later.
pub lines_of-append :
    (s t : Text)
    → lines_of (s ++ t)
      ≡ ((lines_of s).0 ++ (lines_of ((lines_of s).1 ++ t)).0, (lines_of ((lines_of s).1 ++ t)).1)
unfolding lines_of
lines_of-append [] t = refl
lines_of-append (c ∷ s) t = elim (Bool-cases (c == 10)) [
  | inl newline ↦ rw (if◌then◌else◌, newline) (ap (λ x. ([] ∷ x.0, x.1)) (lines_of-append s t))
  | inr inside ↦
      rw (if◌then◌else◌, inside)
        (ap (λ x. join_byte c x.0 x.1) (lines_of-append s t)
          ∙ join_byte-append c (lines_of s).0 (lines_of s).1 t inside)
]

pub length-drop : (n : ℕ) (s : Text) → length (drop n s) ≡ length s - n
length-drop zero s = omega arith
length-drop (suc n) [] = omega arith
length-drop (suc n) (c ∷ s) = omega (arith, length-drop n s)
