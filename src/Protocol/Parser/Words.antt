-- ===== src/Protocol/Parser/Words.antt =====
-- Lines whose last parameter stands without a colon, as src/b/Parser.cpp reads them.
use irc.Common.{
  ℕ, zero, suc, ◌<◌, ◌≤◌, true, ◌≡◌, refl, List, [], ◌∷◌, ◌++◌, some, Text, arith, length, all,
  length-append,
}
use irc.Protocol.Parser.{
  skip_separators, params_round, read_params_on, read_params, parse, upper_command,
}
use irc.Protocol.Parser.Printing.{
  has_no_space, is_word, ends_token, print_prefix, skip_separators-word, params_round-word,
  parse-tail,
}

abbrev pub print_words : List Text → Text
print_words [] = []
print_words (p ∷ ps) = b' ' ∷ p ++ print_words ps

ends_token-print_words : (ps : List Text) → ends_token (print_words ps) ≡ true
ends_token-print_words [] = refl
ends_token-print_words (p ∷ ps) = refl

read_params_on-nil : (n : ℕ) → read_params_on (suc n) [] ≡ some []
unfolding read_params_on params_round skip_separators
read_params_on-nil n = refl

read_params_on-words :
    (n : ℕ) (ps : List Text)
    → all is_word ps ≡ true
    → length ps < n
    → read_params_on n (print_words ps) ≡ some ps
unfolding read_params_on
read_params_on-words zero ps h k = ground arith
read_params_on-words (suc n) [] h k = read_params_on-nil n
read_params_on-words (suc n) (p ∷ ps) h k =
    rw
      (
        skip_separators-word p (print_words ps) (ground arith),
        params_round-word (read_params_on n) p (print_words ps) (ground arith)
            (ends_token-print_words ps),
        read_params_on-words n ps (ground arith) (omega arith),
      )
      refl

length-print_words : (ps : List Text) → length ps ≤ length (print_words ps)
length-print_words [] = omega arith
length-print_words (p ∷ ps) = omega (arith, length-print_words ps, length-append p (print_words ps))

read_params-words : (ps : List Text) → all is_word ps ≡ true → read_params (print_words ps) ≡ ps
unfolding read_params
read_params-words ps h =
    rw
      (
        read_params,
        read_params_on-words (suc (length (print_words ps))) ps h
            (omega (arith, length-print_words ps)),
      )
      refl

-- A command with words for parameters is read back.
pub parse-print_words :
    (prefix command : Text) (ps : List Text)
    → has_no_space prefix ≡ true
    → is_word command ≡ true
    → all is_word ps ≡ true
    → parse (print_prefix prefix (command ++ print_words ps) ++ 13 ∷ 10 ∷ [])
      ≡ record { prefix = prefix; command = upper_command command; params = ps }
parse-print_words prefix command ps h k l =
    rw
      (
        parse-tail prefix command (print_words ps) h k (ends_token-print_words ps),
        read_params-words ps l,
      )
      refl
