-- ===== src/Protocol/Parser/Bytes.antt =====
-- The prefix and the parameters that src/b/Parser.cpp reads are made of bytes of the line.
use irc.Common.{
  ℕ, zero, suc, ◌-◌, true, ◌&&◌, ◌≡◌, refl, Bool, List, [], ◌∷◌, Option, none, some, Text, arith,
  all, all-take, length,
}
use irc.Protocol.Message.{Message}
use mathlib.Core.Option
use irc.Protocol.Parser.{
  remove_irc_line_terminator, skip_separators, read_token, after_prefix, prefix_from, read_prefix,
  params_round, read_params_on, read_params, parse_command, parse_rest, parse,
}

module _ (p : ℕ → Bool) where
  all-skip_separators : (s : Text) → all p s ≡ true → all p (skip_separators s) ≡ true
  unfolding skip_separators
  all-skip_separators [] h = refl
  all-skip_separators (c ∷ s) h = ground (arith, all-skip_separators s)

  all-read_token :
      (s : Text)
      → all p s ≡ true
      → (all p (read_token s).0 ≡ true) × (all p (read_token s).1 ≡ true)
  unfolding read_token
  all-read_token [] h = (refl, refl)
  all-read_token (c ∷ s) h = ground (arith, all-read_token s)

  -- Every parameter of a list, or none at all.
  abbrev all_params : Option (List Text) → Bool
  all_params none = true
  all_params (some ps) = all (all p) ps

  all-params_round :
      (next : Text → Option (List Text)) (s : Text)
      → ((t : Text) → all p t ≡ true → all_params (next t) ≡ true)
      → all p s ≡ true
      → all_params (params_round next s) ≡ true
  unfolding params_round
  all-params_round next [] later h = refl
  all-params_round next (c ∷ s) later h =
      ground (arith, all-read_token (c ∷ s) h, later (read_token (c ∷ s)).1)

  all-read_params_on :
      (rounds : ℕ) (s : Text) → all p s ≡ true → all_params (read_params_on rounds s) ≡ true
  unfolding read_params_on
  all-read_params_on zero s h = refl
  all-read_params_on (suc rounds) s h =
      all-params_round (read_params_on rounds) (skip_separators s) (all-read_params_on rounds)
        (all-skip_separators s h)

  all-read_params : (s : Text) → all p s ≡ true → all (all p) (read_params s) ≡ true
  unfolding read_params
  all-read_params s h = ground (arith, all-read_params_on (suc (length s)) s h)

  -- The fields of a message that keep the bytes of the line as they are.
  abbrev pub all_bytes : Message → Bool
  all_bytes m = all p m.prefix && all (all p) m.params

  all-parse_rest :
      (o : Option (Text × Text))
      → all_params (Option.map (λ x. x.0 ∷ x.1 ∷ []) o) ≡ true
      → all_bytes (parse_rest o) ≡ true
  unfolding parse_rest parse_command
  all-parse_rest none h = refl
  all-parse_rest (some (prefix, [])) h = refl
  all-parse_rest (some (prefix, c ∷ s)) h =
      ground (arith, all-read_token (c ∷ s), all-read_params (read_token (c ∷ s)).1)

  all-after_prefix :
      (x : Text × Text)
      → (all p x.0 && all p x.1) ≡ true
      → all_params (Option.map (λ x. x.0 ∷ x.1 ∷ []) (after_prefix x)) ≡ true
  unfolding after_prefix
  all-after_prefix (prefix, []) h = refl
  all-after_prefix (prefix, c ∷ s) h = ground (arith, all-skip_separators (c ∷ s))

  all-prefix_from :
      (s : Text)
      → all p s ≡ true
      → all_params (Option.map (λ x. x.0 ∷ x.1 ∷ []) (prefix_from s)) ≡ true
  unfolding prefix_from
  all-prefix_from [] h = refl
  all-prefix_from (c ∷ s) h = ground (arith, all-read_token s, all-after_prefix (read_token s))

  pub all-parse : (line : Text) → all p line ≡ true → all_bytes (parse line) ≡ true
  unfolding parse remove_irc_line_terminator read_prefix
  all-parse line h =
      let kept = remove_irc_line_terminator line in
      let kept_all : all p kept ≡ true = ground (arith, all-take p (length line - 2) line h) in
      all-parse_rest (read_prefix kept)
        (all-prefix_from (skip_separators kept) (all-skip_separators kept kept_all))
