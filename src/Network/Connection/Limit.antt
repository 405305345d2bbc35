-- ===== src/Network/Connection/Limit.antt =====
-- The limit on the length of a line in src/a/Connection.cpp.
use irc.Common.{
  ℕ, zero, suc, ◌<◌, ◌≤◌, not, ◌≡◌, [], ◌∷◌, none, some, Text, arith, leb, ltb, if◌then◌else◌,
  length, take, Bool-cases, Option-cases, inl, inr,
}
use irc.Common.Lines.{find_char, find_char-lt_length}
use irc.Network.Connection.{Connection, has_newline, is_line_too_long}

-- The length of the first line with its newline, or of all there is where none has come yet.
abbrev pub first_line_length : Text → ℕ
first_line_length s = elim (find_char 10 s) [ none ↦ length s | some n ↦ suc n ]

has_newline-take :
    (n : ℕ) (s : Text) → n < length s → not (has_newline (take n s)) ≡ ltb n (first_line_length s)
unfolding has_newline find_char
has_newline-take zero [] h = absurd (omega (arith, h))
has_newline-take (suc n) [] h = absurd (omega (arith, h))
has_newline-take zero (c ∷ s) h = elim (Option-cases (find_char 10 s)) [
  | inl e ↦ ground (arith, e)
  | inr (i, e) ↦ ground (arith, e)
]
has_newline-take (suc n) (c ∷ s) h = elim (Option-cases (find_char 10 s)) [
  | inl e ↦ ground (arith, e, has_newline-take n s, h)
  | inr (i, e) ↦ ground (arith, e, has_newline-take n s, h)
]

first_line_length_le : (s : Text) → first_line_length s ≤ length s
first_line_length_le s = elim (Option-cases (find_char 10 s)) [
  | inl e ↦ rw (first_line_length, e) (omega arith)
  | inr (n, e) ↦ rw (first_line_length, e) (omega (arith, find_char-lt_length 10 s n e))
]

-- A client is disconnected for its line exactly when the first line that it has sent, with its newline,
-- or what has come of it so far, is longer than 512 bytes; what stands behind the first line is not
-- looked at.
pub is_line_too_long-first_line :
    (c : Connection) → is_line_too_long c ≡ ltb 512 (first_line_length c.recv_buffer)
unfolding is_line_too_long
is_line_too_long-first_line c = elim (Bool-cases (leb (length c.recv_buffer) 512)) [
  | inl short ↦
      rw (if◌then◌else◌, short) (ground (arith, short, first_line_length_le c.recv_buffer))
  | inr long ↦ rw (if◌then◌else◌, long) (has_newline-take 512 c.recv_buffer (ground (arith, long)))
]
