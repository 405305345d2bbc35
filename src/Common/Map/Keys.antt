-- ===== src/Common/Map/Keys.antt =====
-- The order of numeric keys: file descriptors, and pointers by address.
use irc.Common.{ℕ, true, not, ◌&&◌, ◌≡◌, ◌↔◌, List, none, some, arith, ltb, ◌==◌, if◌then◌else◌}
use irc.Common.Map.{KeyOrder, same, find, has, put, insert, erase}
use irc.Common.Map.Laws.{find-put, find-insert, find-erase}

pub nat_same_iff : (a b : ℕ) → ((not (ltb a b) && not (ltb b a)) ≡ true) ↔ (a ≡ b)
nat_same_iff a b = ground arith

pub nat_less_trans : (a b c : ℕ) → ltb a b ≡ true → ltb b c ≡ true → ltb a c ≡ true
nat_less_trans a b c h k = ground arith

abbrev pub nat_order : KeyOrder ℕ
nat_order = record {
  less = ltb;
  canon = λ a. a;
  same_iff = nat_same_iff;
  less_trans = nat_less_trans;
}

pub nat_same : (a b : ℕ) → same nat_order a b ≡ (a == b)
unfolding same
nat_same a b = ground arith

-- The laws of maps with numeric keys, in terms of the equality of numbers.
module _ {ℓ} {V : Type ℓ} (k j : ℕ) where
  pub find-put_nat :
      (v : V) (m : List (ℕ × V))
      → find nat_order j (put nat_order k v m) ≡ (if k == j then some v else find nat_order j m)
  find-put_nat v m = rw (find-put nat_order k j v m, nat_same k j)

  pub find-insert_nat :
      (v : V) (m : List (ℕ × V))
      → find nat_order k m ≡ none
      → find nat_order j (insert nat_order k v m) ≡ (if k == j then some v else find nat_order j m)
  find-insert_nat v m h = rw (find-insert nat_order k j v m h, nat_same k j)

  pub find-erase_nat :
      (m : List (ℕ × V))
      → find nat_order j (erase nat_order k m) ≡ (if k == j then none else find nat_order j m)
  find-erase_nat m = rw (find-erase nat_order k j m, nat_same k j)

  -- Insertion into a set.
  pub has-insert_nat :
      (v : V) (m : List (ℕ × V))
      → has nat_order j (insert nat_order k v m) ≡ (if k == j then true else has nat_order j m)
  unfolding insert
  has-insert_nat v m = ground (arith, find-put_nat v m)
