-- ===== src/State/Names/Order.antt =====
-- IrcStringCompare is the comparator that `std::map` needs: two names are equivalent exactly when
-- they are equal after folding case, and the order is transitive.
use irc.Common.{ℕ, true, false, not, ◌&&◌, ◌≡◌, ◌↔◌, refl, [], ◌∷◌, map, Text, arith}
use irc.Common.Map.{KeyOrder}
use irc.State.Names.{irc_tolower, char_less, irc_less}

char_less_connex : (a b : ℕ) → char_less a b ≡ false → char_less b a ≡ false → a ≡ b
unfolding char_less
char_less_connex a b h k = ground arith

char_less_asymm : (a b : ℕ) → char_less a b ≡ true → char_less b a ≡ false
unfolding char_less
char_less_asymm a b h = ground arith

char_less_irrefl : (a : ℕ) → char_less a a ≡ false
unfolding char_less
char_less_irrefl a = ground arith

char_less_trans : (a b c : ℕ) → char_less a b ≡ true → char_less b c ≡ true → char_less a c ≡ true
unfolding char_less
char_less_trans a b c h k = ground arith

-- The names as the server compares them.
unfoldable pub fold_case : Text → Text
fold_case s = map irc_tolower s

irc_less_refl : (s t : Text) → fold_case s ≡ fold_case t → irc_less s t ≡ false
unfolding fold_case irc_less
irc_less_refl [] [] h = refl
irc_less_refl [] (b ∷ t) h = cc
irc_less_refl (a ∷ s) [] h = cc
irc_less_refl (a ∷ s) (b ∷ t) h =
    ground (arith, irc_less_refl s t, char_less_irrefl (irc_tolower b))

irc_less_connex :
    (s t : Text) → irc_less s t ≡ false → irc_less t s ≡ false → fold_case s ≡ fold_case t
unfolding fold_case irc_less
irc_less_connex [] [] h k = refl
irc_less_connex [] (b ∷ t) h k = cc
irc_less_connex (a ∷ s) [] h k = cc
irc_less_connex (a ∷ s) (b ∷ t) h k =
    ground (arith, irc_less_connex s t, char_less_connex (irc_tolower a) (irc_tolower b))

-- Neither of two names is before the other exactly when they are equal after folding case.
pub irc_less-same_iff :
    (s t : Text) → ((not (irc_less s t) && not (irc_less t s)) ≡ true) ↔ (fold_case s ≡ fold_case t)
irc_less-same_iff s t = ground (arith, irc_less_connex s t, irc_less_refl s t, irc_less_refl t s)

-- The comparator is transitive.
pub irc_less_trans :
    (s t u : Text) → irc_less s t ≡ true → irc_less t u ≡ true → irc_less s u ≡ true
unfolding irc_less
irc_less_trans [] [] u h k = cc
irc_less_trans [] (b ∷ t) [] h k = cc
irc_less_trans [] (b ∷ t) (c ∷ u) h k = refl
irc_less_trans (a ∷ s) [] u h k = cc
irc_less_trans (a ∷ s) (b ∷ t) [] h k = cc
irc_less_trans (a ∷ s) (b ∷ t) (c ∷ u) h k = ground (
  arith,
  irc_less_trans s t u,
  char_less_connex (irc_tolower a) (irc_tolower b),
  char_less_connex (irc_tolower b) (irc_tolower c),
  char_less_asymm (irc_tolower a) (irc_tolower b),
  char_less_asymm (irc_tolower b) (irc_tolower c),
  char_less_asymm (irc_tolower a) (irc_tolower c),
  char_less_trans (irc_tolower a) (irc_tolower b) (irc_tolower c),
)

abbrev pub name_order : KeyOrder Text
name_order = record {
  less = irc_less;
  canon = fold_case;
  same_iff = irc_less-same_iff;
  less_trans = irc_less_trans;
}
