-- ===== src/Common/Map.antt =====
-- `std::map`: an association list kept in the order of its comparator. `std::set<T>` is a map
-- into `Unit`.
pub mod Laws
pub mod Keys
use mathlib.Core.Path.{◌≡◌}
use mathlib.Core.Logic.{◌↔◌}
use mathlib.Core.Bool.{Bool, true, false, not, ◌&&◌}
use mathlib.Core.Option.{Option, none, some}
use mathlib.Core.List.{List, [], ◌∷◌}
use package.irc.Common.Tests.{if◌then◌else◌}

-- A comparator with what `std::map` relies on: keys are equivalent exactly when their canonical
-- forms agree, and the order is transitive.
pub record KeyOrder {ℓ} (K : Type ℓ) : Type ℓ where
  pub less : K → K → Bool
  pub canon : K → K
  pub same_iff : (a b : K) → ((not (less a b) && not (less b a)) ≡ true) ↔ (canon a ≡ canon b)
  pub less_trans : (a b c : K) → less a b ≡ true → less b c ≡ true → less a c ≡ true

module _ {ℓ} {K : Type ℓ} (o : KeyOrder K) where
  -- Neither key is before the other.
  unfoldable pub same : K → K → Bool
  same a b = not (o.less a b) && not (o.less b a)

module _ {ℓ κ} {K : Type ℓ} {V : Type κ} (o : KeyOrder K) where
  -- find()
  unfoldable pub find : K → List (K × V) → Option V
  find k [] = none
  find k ((j, w) ∷ m) = if same o j k then some w else find k m

  -- find() != end()
  abbrev pub has : K → List (K × V) → Bool
  has k m = elim (find k m) [ none ↦ false | some _ ↦ true ]

  -- operator[] followed by an assignment: an existing entry keeps its key.
  unfoldable pub put : K → V → List (K × V) → List (K × V)
  put k v [] = (k, v) ∷ []
  put k v ((j, w) ∷ m) =
      if same o j k
      then (j, v) ∷ m
      else if o.less k j
      then (k, v) ∷ (j, w) ∷ m
      else (j, w) ∷ put k v m

  -- insert(): an existing entry stays.
  unfoldable pub insert : K → V → List (K × V) → List (K × V)
  insert k v m = if has k m then m else put k v m

  -- erase(key)
  unfoldable pub erase : K → List (K × V) → List (K × V)
  erase k [] = []
  erase k ((j, w) ∷ m) = let rest = erase k m in if same o j k then rest else (j, w) ∷ rest
