-- ===== src/Network/Connection/Lines.antt =====
-- The lines that src/a/Connection.cpp takes from its buffer are those of the stream.
use irc.Common.{
  ℕ, zero, suc, ◌+◌, ◌<◌, ◌≤◌, true, ◌≡◌, refl, sym, ap, ◌∙◌, List, [], ◌∷◌, none, some, Text,
  arith, length, take, drop, get_or, Option-cases, inl, inr,
}
use irc.Common.Lines.{find_char, find_char-lt_length, lines_of, lines_of-absent, lines_of-found}
use irc.Network.Connection.{Connection, find_newline, has_complete_line, line_before, pop_line}
use irc.Bonus.LineBuffer.{without_return}

find_newline_lem : (s : Text) → find_newline s ≡ find_char 10 s
unfolding find_newline find_char
find_newline_lem [] = refl
find_newline_lem (c ∷ s) = rw (find_newline_lem s) refl

length-take : (n : ℕ) (s : Text) → n ≤ length s → length (take n s) ≡ n
length-take zero s h = refl
length-take (suc n) [] h = omega (arith, h)
length-take (suc n) (c ∷ s) h = ground (arith, length-take n s, h)

get_or-take : (m n : ℕ) (s : Text) → m < n → get_or (take n s) m 0 ≡ get_or s m 0
get_or-take m zero s h = absurd (omega (arith, h))
get_or-take m (suc n) [] h = refl
get_or-take zero (suc n) (c ∷ s) h = refl
get_or-take (suc m) (suc n) (c ∷ s) h = get_or-take m n s (omega (arith, h))

take-take : (m n : ℕ) (s : Text) → m ≤ n → take m (take n s) ≡ take m s
take-take zero n s h = refl
take-take (suc m) zero s h = absurd (omega (arith, h))
take-take (suc m) (suc n) [] h = refl
take-take (suc m) (suc n) (c ∷ s) h = ap (λ r. c ∷ r) (take-take m n s (omega (arith, h)))

-- The line before a newline, as the bot's line buffer takes it too.
line_before_lem : (n : ℕ) (s : Text) → n < length s → line_before n s ≡ without_return (take n s)
unfolding line_before without_return
line_before_lem zero s h = refl
line_before_lem (suc n) [] h = absurd (omega (arith, h))
line_before_lem (suc n) (c ∷ s) h =
    ground (arith, length-take n s, h, get_or-take n (suc n) (c ∷ s), take-take n (suc n) (c ∷ s))

no_lines : (l : Text) (ls : List Text) → [] ≡ l ∷ ls → ⊥
no_lines l ls h = cc

same_lines : (k l : Text) (ks ls : List Text) → k ∷ ks ≡ l ∷ ls → (k ≡ l) × (ks ≡ ls)
same_lines k l ks ls h = (cc, cc)

pair_of :
    (x : List Text × Text) (ls : List Text) (rest : Text) → x.0 ≡ ls → x.1 ≡ rest → x ≡ (ls, rest)
pair_of (ks, r) ls rest h k = cc

-- Where the stream that has been received begins with a complete line, hasCompleteLine says so, popLine
-- answers this line less a carriage return at its end, and leaves the lines and the rest that follow it.
pub pop_line-lines_of :
    (c : Connection) (l : Text) (ls : List Text)
    → (lines_of c.recv_buffer).0 ≡ l ∷ ls
    → (c' : Connection) × ((has_complete_line c).0 ≡ true)
      × (pop_line (has_complete_line c).1 ≡ some (without_return l, c'))
      × (lines_of c'.recv_buffer ≡ (ls, (lines_of c.recv_buffer).1))
unfolding has_complete_line pop_line
pop_line-lines_of c l ls h = elim (Option-cases (find_char 10 c.recv_buffer)) [
  | inl absent ↦
      absurd (no_lines l ls (sym (ap (λ x. x.0) (lines_of-absent c.recv_buffer absent)) ∙ h))
  | inr (n, found) ↦
      let buffer = c.recv_buffer in
      let next : n + 1 ≡ suc n = omega arith in
      let split = lines_of-found buffer n found in
      let (first, others) =
        same_lines (take n buffer) l (lines_of (drop (suc n) buffer)).0 ls
          (sym (ap (λ x. x.0) split) ∙ h) in
      let at : find_newline buffer ≡ some n = find_newline_lem buffer ∙ found in
      let left : Connection = record c { recv_buffer = drop (n + 1) buffer; nl_pos = none } in
      (
        left,
        rw (has_complete_line, at) refl,
        rw at (
            ap (λ x. some (x, left))
              (line_before_lem n buffer (find_char-lt_length 10 buffer n found)
                ∙ ap without_return first)),
        ap (λ k. lines_of (drop k buffer)) next
            ∙ pair_of (lines_of (drop (suc n) buffer)) ls (lines_of buffer).1 others
                (sym (ap (λ x. x.1) split)),
      )
]
