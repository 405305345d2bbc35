-- ===== src/Network/Run/Visits.antt =====
-- The loop of run() of src/a/Server.cpp over the indices of an array that changes meanwhile, and a loop
-- over the entries that were there when poll() answered.
use irc.Common.{
  ℕ, Bool, true, false, not, ◌&&◌, ◌||◌, ◌≡◌, refl, ap, List, [], ◌∷◌, ◌++◌, arith, all, length,
  drop, ◌==◌, if◌then◌else◌,
}
use irc.Network.Poll.{Accepted, refused, blocking, incoming, Ready, PollFd, is_quiet}
use irc.Network.Poll.Laws.{key, keys, without, times}
use irc.Network.Server.{Server}
use irc.Network.Server.Lines.{connected}

-- What accept() returns is new: no connection, and not the listening socket.
unfoldable pub is_new : Accepted → Server → Bool
is_new refused v = true
is_new blocking v = true
is_new (incoming fd host p) v = not (connected fd v) && not (fd == v.listen_fd)

-- What accept() returns on the listening socket is new.
abbrev pub all_new : List (ℕ × Ready) → Server → Bool
all_new [] v = true
all_new ((fd, r) ∷ ks) v = (not (fd == v.listen_fd) || is_new r.accepted v) && all_new ks v

-- fcntl() fails on the descriptor that accept() returns.
unfoldable pub is_blocking : Accepted → Bool
is_blocking refused = false
is_blocking blocking = true
is_blocking (incoming fd host p) = false

abbrev pub some_blocking : List (ℕ × Ready) → Server → Bool
some_blocking [] v = false
some_blocking ((fd, r) ∷ ks) v = fd == v.listen_fd && is_blocking r.accepted || some_blocking ks v

pub some_blocking-kept :
    (ks : List (ℕ × Ready)) (v v' : Server)
    → v'.listen_fd ≡ v.listen_fd
    → some_blocking ks v' ≡ some_blocking ks v
some_blocking-kept [] v v' h = refl
some_blocking-kept ((fd, r) ∷ ks) v v' h = ground (arith, h, some_blocking-kept ks v v')

abbrev pub all_quiet : List (ℕ × Ready) → Bool
all_quiet ks = all (λ (k : ℕ × Ready). is_quiet k.1) ks

-- What is new stays so while connections go only.
module _ (v v' : Server) (same : v'.listen_fd ≡ v.listen_fd)
    (fewer : (g : ℕ) → (not (connected g v') || connected g v) ≡ true) where
  pub is_new-kept : (a : Accepted) → is_new a v ≡ true → is_new a v' ≡ true
  unfolding is_new
  is_new-kept refused h = refl
  is_new-kept blocking h = refl
  is_new-kept (incoming fd host p) h = ground (arith, h, same, fewer fd)

  pub all_new-kept : (ks : List (ℕ × Ready)) → all_new ks v ≡ true → all_new ks v' ≡ true
  all_new-kept [] h = refl
  all_new-kept ((fd, r) ∷ ks) h = ground (arith, h, same, is_new-kept r.accepted, all_new-kept ks)

pub all_new-absent :
    (ks : List (ℕ × Ready)) (v : Server) → times v.listen_fd ks ≡ 0 → all_new ks v ≡ true
unfolding times
all_new-absent [] v h = refl
all_new-absent ((fd, r) ∷ ks) v h = ground (arith, h, all_new-absent ks v)

-- The first entry of a descriptor goes, and the entries about it stay.
pub without-split :
    (fd : ℕ) (r : Ready) (before after : List (ℕ × Ready))
    → times fd before ≡ 0
    → without fd (before ++ ((fd, r) ∷ after)) ≡ before ++ after
unfolding times without
without-split fd r [] after h =
    let same : (fd == fd) ≡ true = ground arith in rw (if◌then◌else◌, same) refl
without-split fd r ((g, s) ∷ before) after h =
    let other : (g == fd) ≡ false = ground (arith, h) in
    rw (if◌then◌else◌, other)
      (ap (λ ks. (g, s) ∷ ks) (without-split fd r before after (ground (arith, h))))

head_tail : {a b : ℕ × Ready} {ks ls : List (ℕ × Ready)} → a ∷ ks ≡ b ∷ ls → (a ≡ b) × (ks ≡ ls)
head_tail h = (cc, cc)

-- The entry at an index.
pub drop-keys :
    (before : List (ℕ × Ready)) (k : ℕ × Ready) (after : List (ℕ × Ready)) (es : List PollFd)
    → keys es ≡ before ++ (k ∷ after)
    → (e : PollFd) × (rest : List PollFd) × (drop (length before) es ≡ e ∷ rest) × (key e ≡ k)
drop-keys [] k after [] h = absurd (cc)
drop-keys [] k after (e ∷ es) h = (e, es, refl, (head_tail h).0)
drop-keys (j ∷ before) k after [] h = absurd (cc)
drop-keys (j ∷ before) k after (e ∷ es) h = drop-keys before k after es (head_tail h).1

pub drop-keys_end :
    (es : List PollFd) (ks : List (ℕ × Ready)) → keys es ≡ ks → drop (length ks) es ≡ []
drop-keys_end [] [] h = refl
drop-keys_end [] (k ∷ ks) h = absurd (cc)
drop-keys_end (e ∷ es) [] h = absurd (cc)
drop-keys_end (e ∷ es) (k ∷ ks) h = drop-keys_end es ks (head_tail h).1
