-- ===== src/Network/Run/Passing.antt =====
-- The entries before and after the index of the loop of run() of src/a/Server.cpp, as a turn leaves them.
use irc.Common.{
  ℕ, suc, ◌+◌, ◌<◌, ◌⊎◌, Bool, true, false, ◌||◌, ◌≡◌, refl, sym, ap, ◌∙◌, List, [], ◌∷◌, ◌++◌,
  append_assoc, arith, length, length-append, Bool-cases, inl, inr, ◌==◌, if◌then◌else◌,
}
use irc.Network.Poll.{Ready}
use irc.Network.Poll.Laws.{keys, times, times-append}
use irc.Network.Server.{Server}
use irc.Network.Server.Lines.{connected}
use irc.Network.Run.Visits.{
  some_blocking, some_blocking-kept, all_new, all_new-kept, all_new-absent, without-split,
}
use irc.Network.Run.Turns.{Turn}
use irc.Network.Watched.{IsWatched}

pub split_after :
    (before after : List (ℕ × Ready)) (k : ℕ × Ready)
    → before ++ (k ∷ after) ≡ (before ++ (k ∷ [])) ++ after
split_after before after k = sym (append_assoc before (k ∷ []) after)

pub length_after :
    (before : List (ℕ × Ready)) (k : ℕ × Ready) → length (before ++ (k ∷ [])) ≡ suc (length before)
length_after before k = omega (arith, length-append before (k ∷ []))

-- What is new for the entries that are left, after a turn.
pub Turn-all_new :
    (fd : ℕ) (gone : Bool) (ks : List (ℕ × Ready)) (v v' : Server)
    → Turn fd gone v v'
    → times fd ks ≡ 0
    → all_new ks v ≡ true
    → all_new ks v' ≡ true
Turn-all_new fd gone ks v v' turn once new = elim (Bool-cases (fd == v.listen_fd)) [
  | inl listening ↦
      let same : v'.listen_fd ≡ fd = ground (arith, turn.listening, listening) in
      all_new-absent ks v' (ap (λ l. times l ks) same ∙ once)
  | inr other ↦ all_new-kept v v' turn.listening (λ g. ground (arith, turn.fewer g, other)) ks new
]

-- The entries about the one at an index, and how often its descriptor is among them.
pub alone :
    (fd : ℕ) (r : Ready) (before after fresh : List (ℕ × Ready)) (v : Server)
    → IsWatched v
    → keys v.pollfds ≡ before ++ (((fd, r) ∷ after) ++ fresh)
    → (times fd before ≡ 0) × (times fd after ≡ 0) × ((fd == v.listen_fd || connected fd v) ≡ true)
unfolding times
alone fd r before after fresh v w h =
    let same : (fd == fd) ≡ true = ground arith in
    let total : times fd (keys v.pollfds)
        ≡ times fd before + suc (times fd after + times fd fresh) =
      ground (
        arith,
        h,
        same,
        times-append fd before (((fd, r) ∷ after) ++ fresh),
        times-append fd after fresh,
      ) in
    ground (arith, total, w.listed fd)

-- What stands before the index after a turn.
abbrev pub passed : Bool → List (ℕ × Ready) → ℕ × Ready → List (ℕ × Ready)
passed gone before k = if gone then before else before ++ (k ∷ [])

pub entries-passed :
    (fd : ℕ) (r : Ready) (before after fresh : List (ℕ × Ready)) (gone : Bool) (v v' : Server)
    (turn : Turn fd gone v v')
    → keys v.pollfds ≡ before ++ (((fd, r) ∷ after) ++ fresh)
    → times fd before ≡ 0
    → keys v'.pollfds ≡ passed gone before (fd, r) ++ (after ++ (fresh ++ turn.fresh))
entries-passed fd r before after fresh true v v' turn h once =
    turn.entries
    ∙ rw
        (
          h,
          without-split fd r before (after ++ fresh) once,
          append_assoc before (after ++ fresh) turn.fresh,
          append_assoc after fresh turn.fresh,
        )
        refl
entries-passed fd r before after fresh false v v' turn h once =
    turn.entries
    ∙ rw
        (
          h,
          split_after before (after ++ fresh) (fd, r),
          append_assoc (before ++ ((fd, r) ∷ [])) (after ++ fresh) turn.fresh,
          append_assoc after fresh turn.fresh,
        )
        refl

-- The turns that are left are enough: a new entry comes only with the one for the listening socket.
pub turns_left :
    (fd : ℕ) (r : Ready) (ks fresh : List (ℕ × Ready)) (gone : Bool) (v v' : Server) (turns : ℕ)
    (turn : Turn fd gone v v')
    → length ((fd, r) ∷ ks) + times v.listen_fd ((fd, r) ∷ ks) + length fresh < suc turns
    → length ks + times v'.listen_fd ks + length (fresh ++ turn.fresh) < turns
unfolding times
turns_left fd r ks fresh gone v v' turns turn h =
    let same : times v'.listen_fd ks ≡ times v.listen_fd ks = ap (λ l. times l ks) turn.listening in
    ground (arith, same, turn.few, h, length-append fresh turn.fresh)

-- An exception of a later turn is one of the whole loop.
pub widened :
    {A : Type 0} {B : Type 0} (fd : ℕ) (r : Ready) (ks : List (ℕ × Ready)) (v v' : Server)
    → v'.listen_fd ≡ v.listen_fd
    → (A × (some_blocking ks v' ≡ true)) ⊎ B
    → (A × (some_blocking ((fd, r) ∷ ks) v ≡ true)) ⊎ B
widened fd r ks v v' h (inr b) = inr b
widened fd r ks v v' h (inl (a, k)) = inl (a, ground (arith, k, some_blocking-kept ks v v' h))
