-- ===== src/Network/Poll/Laws.antt =====
-- The array of struct pollfd of src/a/Server.cpp by descriptors and reports, and by the descriptors that
-- are watched for writing.
use irc.Common.{
  ℕ, suc, ◌+◌, ◌-◌, ◌<◌, Bool, true, false, ◌&&◌, ◌||◌, ◌≡◌, refl, List, [], ◌∷◌, ◌++◌, map, arith,
  ap, ◌==◌, ==_iff, if◌then◌else◌, Bool-cases, inl, inr,
}
use irc.Network.Poll.{Ready, no_events, PollFd, with_reports, with_fd, without_fd, with_pollout}

-- The descriptors with their reports, in order.
abbrev pub key : PollFd → ℕ × Ready
key e = (e.fd, e.revents)

abbrev pub keys : List PollFd → List (ℕ × Ready)
keys es = map key es

-- The first entry of a descriptor is gone.
unfoldable pub without : ℕ → List (ℕ × Ready) → List (ℕ × Ready)
without fd [] = []
without fd ((g, r) ∷ ks) = let rest = without fd ks in if g == fd then ks else (g, r) ∷ rest

-- How often a descriptor is in the array.
unfoldable pub times : ℕ → List (ℕ × Ready) → ℕ
times fd [] = 0
times fd ((g, r) ∷ ks) = if g == fd then suc (times fd ks) else times fd ks

-- An entry of the descriptor is watched for writing.
unfoldable pub wants_out : ℕ → List PollFd → Bool
wants_out fd [] = false
wants_out fd (e ∷ es) = e.fd == fd && e.pollout || wants_out fd es

pub keys-with_pollout :
    (b : Bool) (fd : ℕ) (es : List PollFd) → keys (with_pollout b fd es) ≡ keys es
unfolding with_pollout
keys-with_pollout b fd [] = refl
keys-with_pollout b fd (e ∷ es) = elim (Bool-cases (e.fd == fd)) [
  | inl same ↦ rw (if◌then◌else◌, same) refl
  | inr other ↦ rw (if◌then◌else◌, other) (ap (λ ks. key e ∷ ks) (keys-with_pollout b fd es))
]

pub keys-without_fd : (fd : ℕ) (es : List PollFd) → keys (without_fd fd es) ≡ without fd (keys es)
unfolding without_fd without
keys-without_fd fd [] = refl
keys-without_fd fd (e ∷ es) = elim (Bool-cases (e.fd == fd)) [
  | inl same ↦ rw (if◌then◌else◌, same) refl
  | inr other ↦ rw (if◌then◌else◌, other) (ap (λ ks. key e ∷ ks) (keys-without_fd fd es))
]

pub keys-with_fd :
    (fd : ℕ) (es : List PollFd) → keys (with_fd fd es) ≡ keys es ++ ((fd, no_events) ∷ [])
unfolding with_fd
keys-with_fd fd [] = refl
keys-with_fd fd (e ∷ es) = ap (λ ks. key e ∷ ks) (keys-with_fd fd es)

pub times-append : (g : ℕ) (ks ls : List (ℕ × Ready)) → times g (ks ++ ls) ≡ times g ks + times g ls
unfolding times
times-append g [] ls = omega arith
times-append g ((fd, r) ∷ ks) ls = ground (arith, times-append g ks ls)

pub times-without :
    (g fd : ℕ) (ks : List (ℕ × Ready))
    → times g (without fd ks) ≡ (if fd == g then times g ks - 1 else times g ks)
unfolding times without
times-without g fd [] = ground arith
times-without g fd ((j, r) ∷ ks) =
    ground (arith, times-without g fd ks, ==_iff j fd, ==_iff fd g, ==_iff j g)

pub times-with_reports :
    (g : ℕ) (reports : ℕ → Ready) (es : List PollFd)
    → times g (keys (with_reports reports es)) ≡ times g (keys es)
unfolding times with_reports
times-with_reports g reports [] = refl
times-with_reports g reports (e ∷ es) = ground (arith, times-with_reports g reports es)

pub wants_out-with_reports :
    (g : ℕ) (reports : ℕ → Ready) (es : List PollFd)
    → wants_out g (with_reports reports es) ≡ wants_out g es
unfolding wants_out with_reports
wants_out-with_reports g reports [] = refl
wants_out-with_reports g reports (e ∷ es) = ground (arith, wants_out-with_reports g reports es)

pub wants_out-with_fd : (g fd : ℕ) (es : List PollFd) → wants_out g (with_fd fd es) ≡ wants_out g es
unfolding wants_out with_fd
wants_out-with_fd g fd [] = ground arith
wants_out-with_fd g fd (e ∷ es) = ground (arith, wants_out-with_fd g fd es)

pub wants_out-without_fd :
    (g fd : ℕ) (es : List PollFd)
    → (fd == g) ≡ false
    → wants_out g (without_fd fd es) ≡ wants_out g es
unfolding wants_out without_fd
wants_out-without_fd g fd [] h = refl
wants_out-without_fd g fd (e ∷ es) h =
    ground (arith, wants_out-without_fd g fd es h, ==_iff e.fd fd, ==_iff fd g, ==_iff e.fd g)

-- Another descriptor is watched as before.
pub wants_out-with_pollout :
    (g fd : ℕ) (b : Bool) (es : List PollFd)
    → (fd == g) ≡ false
    → wants_out g (with_pollout b fd es) ≡ wants_out g es
unfolding wants_out with_pollout
wants_out-with_pollout g fd b [] h = refl
wants_out-with_pollout g fd b (e ∷ es) h =
    ground (arith, wants_out-with_pollout g fd b es h, ==_iff e.fd fd, ==_iff fd g, ==_iff e.fd g)

-- A descriptor of the array is watched for writing once this is enabled.
pub wants_out-enabled :
    (fd : ℕ) (es : List PollFd)
    → 0 < times fd (keys es)
    → wants_out fd (with_pollout true fd es) ≡ true
unfolding wants_out with_pollout times
wants_out-enabled fd [] h = absurd (omega (arith, h))
wants_out-enabled fd (e ∷ es) h = ground (arith, h, wants_out-enabled fd es, ==_iff e.fd fd)
