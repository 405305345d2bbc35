-- ===== src/Bircd/Memory.antt =====
-- Arrays of bytes, and what bircd calls of its library (bircd/libft). `none` is an access outside of an
-- array, which the language leaves undefined.
pub mod Access
pub mod Held
use irc.Common.{
  ℕ, zero, suc, ◌+◌, ◌-◌, [], ◌∷◌, ◌++◌, Option, none, some, Text, leb, ◌==◌, if◌then◌else◌, length,
  take, drop,
}
use irc.Common.Lines.{find_char}

-- An array of so many bytes.
unfoldable pub zeros : ℕ → Text
zeros zero = []
zeros (suc n) = 0 ∷ zeros n

unfoldable pub write_at : ℕ → Text → Text → Option Text
write_at i bytes a =
    if leb (i + length bytes) (length a)
    then some (take i a ++ (bytes ++ drop (i + length bytes) a))
    else none

unfoldable pub read_at : ℕ → ℕ → Text → Option Text
read_at i n a = if leb (i + n) (length a) then some (take n (drop i a)) else none

-- The length of a text that a zero byte ends.
abbrev pub ft_strlen : Text → Option ℕ
ft_strlen a = find_char 0 a

-- The bytes before the zero byte.
unfoldable pub string_at : Text → Option Text
string_at a = elim (ft_strlen a) [ none ↦ none | some n ↦ some (take n a) ]

-- The copy starts at index `i` of the array; what it returns, the length of `src`, is not used.
unfoldable pub ft_strlcpy : ℕ → Text → ℕ → Text → Option Text
unfolding write_at string_at
ft_strlcpy i src size a = elim (string_at src) [
  | none ↦ none
  | some s ↦ if size == 0 then some a else write_at i (take (size - 1) s ++ 0 ∷ []) a
]

-- Where the text in the array ends, or the size if it does not end before.
unfoldable pub end_within : ℕ → Text → Option ℕ
end_within size a = elim (find_char 0 (take size a)) [
  | none ↦ if leb size (length a) then some size else none
  | some i ↦ some i
]

unfoldable pub ft_strlcat : Text → ℕ → Text → Option Text
unfolding ft_strlcpy end_within
ft_strlcat src size a = elim (end_within size a) [
  | none ↦ none
  | some i ↦ ft_strlcpy i src (size - i) a
]

-- Both places are in one array.
unfoldable pub ft_memmove : ℕ → ℕ → ℕ → Text → Option Text
unfolding read_at write_at
ft_memmove dst src len a = elim (read_at src len a) [
  | none ↦ none
  | some bytes ↦ write_at dst bytes a
]
