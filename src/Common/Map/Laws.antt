-- ===== src/Common/Map/Laws.antt =====
-- What find, put, insert and erase of an ordered association list do to one another.
use mathlib.Core.Path.{◌≡◌, refl}
use mathlib.Core.Logic.{◌↔◌}
use mathlib.Core.Bool.{true}
use mathlib.Core.Option.{none, some}
use mathlib.Core.List.{List, [], ◌∷◌}
use native.Mathlib.Omega.{arith}
use irc.Common.Tests.{if◌then◌else◌}
use irc.Common.Map.{KeyOrder, same, find, put, insert, erase}

module _ {ℓ} {K : Type ℓ} (o : KeyOrder K) where
  pub same-canon : (a b : K) → (same o a b ≡ true) ↔ (o.canon a ≡ o.canon b)
  unfolding same
  same-canon = o.same_iff

  pub same_refl : (a : K) → same o a a ≡ true
  same_refl a = (same-canon a a).1 refl

  pub same_sym : (a b : K) → same o a b ≡ same o b a
  same_sym a b = ground (arith, same-canon a b, same-canon b a)

  -- Equivalent keys compare alike with every key.
  pub same_congr : (a b c : K) → same o a b ≡ true → same o a c ≡ same o b c
  same_congr a b c h = ground (arith, same-canon a b, same-canon a c, same-canon b c)

module _ {ℓ κ} {K : Type ℓ} {V : Type κ} (o : KeyOrder K) where
  pub find-put :
      (k j : K) (v : V) (m : List (K × V))
      → find o j (put o k v m) ≡ (if same o k j then some v else find o j m)
  unfolding find put
  find-put k j v [] = refl
  find-put k j v ((i, w) ∷ m) =
      ground (arith, find-put k j v m, same-canon o i k, same-canon o i j, same-canon o k j)

  pub find-insert :
      (k j : K) (v : V) (m : List (K × V))
      → find o k m ≡ none
      → find o j (insert o k v m) ≡ (if same o k j then some v else find o j m)
  unfolding insert
  find-insert k j v m h = ground (arith, find-put k j v m)

  pub find-erase :
      (k j : K) (m : List (K × V))
      → find o j (erase o k m) ≡ (if same o k j then none else find o j m)
  unfolding find erase
  find-erase k j [] = ground arith
  find-erase k j ((i, w) ∷ m) =
      ground (arith, find-erase k j m, same-canon o i k, same-canon o i j, same-canon o k j)

  -- Equivalent keys find the same entry.
  pub find_congr : (k j : K) (m : List (K × V)) → same o k j ≡ true → find o k m ≡ find o j m
  unfolding find
  find_congr k j [] h = refl
  find_congr k j ((i, w) ∷ m) h =
      ground (arith, find_congr k j m h, same-canon o i k, same-canon o i j, same-canon o k j)
