-- ===== src/Common/Heap.antt =====
-- Objects on the free store: `new`, `delete` and writes through a pointer. An address keeps what
-- was last written there; `live` says whether an object stands there now.
use irc.Common.{ℕ, Bool, true, false, ◌==◌, if◌then◌else◌}

pub record Heap {ℓ} (A : Type ℓ) : Type ℓ where
  pub at : ℕ → A
  pub live : ℕ → Bool

module _ {ℓ} {A : Type ℓ} where
  abbrev pub store : ℕ → A → Heap A → Heap A
  store p a h = record h { at = λ j. if p == j then a else h.at j }

  -- `new` has returned the address `p`.
  abbrev pub alloc : ℕ → A → Heap A → Heap A
  alloc p a h = record {
    at = λ j. if p == j then a else h.at j;
    live = λ j. if p == j then true else h.live j;
  }

  abbrev pub free : ℕ → Heap A → Heap A
  free p h = record h { live = λ j. if p == j then false else h.live j }
