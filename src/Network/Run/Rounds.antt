-- ===== src/Network/Run/Rounds.antt =====
-- A whole round of run() of src/a/Server.cpp, from the answer of poll() to the sweep.
use irc.Common.{
  ℕ, ◌+◌, ◌⊎◌, ◌≡◌, refl, sym, ap, map, ◌∙◌, append-nil, subst, true, ◌||◌, not, Bool-cases, ◌==◌,
  ==_iff, arith, List, [], ◌∷◌, length, inl, inr,
}
use irc.State.Server.{ServerState}
use irc.Network.Poll.{Accepted, refused, blocking, incoming, Ready, PollFd, with_reports}
use irc.Network.Poll.Laws.{keys}
use irc.Network.Server.{Server, sweep}
use irc.Network.Server.Buffers.{received}
use irc.Network.Run.{done, thrown, poll_loop, polled, round}
use irc.Network.Run.Visits.{is_new, is_blocking, some_blocking, all_new, all_new-kept}
use irc.Network.Run.Loop.{visit, Visits, poll_loop-Visits}
use irc.Network.Watched.{IsWatched, polled-IsWatched, sweep-IsWatched}

all_new-reports :
    (reports : ℕ → Ready) (v : Server) (es : List PollFd)
    → is_new (reports v.listen_fd).accepted v ≡ true
    → all_new (keys (with_reports reports es)) v ≡ true
unfolding with_reports
all_new-reports reports v [] new = refl
all_new-reports reports v (e ∷ es) new =
    let here : (not (e.fd == v.listen_fd) || is_new (reports e.fd).accepted v) ≡ true =
      elim (Bool-cases (e.fd == v.listen_fd)) [
        | inr other ↦ ground (arith, other)
        | inl listening ↦
            let same : e.fd ≡ v.listen_fd = ground (arith, listening) in
            let there = subst (λ l. is_new (reports l).accepted v ≡ true) (sym same) new in
            ground (arith, there)
      ] in
    ground (arith, here, all_new-reports reports v es new)

is_blocking-blocking : (a : Accepted) → is_blocking a ≡ true → a ≡ blocking
unfolding is_blocking
is_blocking-blocking refused h = absurd (cc)
is_blocking-blocking blocking h = refl
is_blocking-blocking (incoming fd host p) h = absurd (cc)

some_blocking-reports :
    (reports : ℕ → Ready) (v : Server) (es : List PollFd)
    → some_blocking (keys (with_reports reports es)) v ≡ true
    → (reports v.listen_fd).accepted ≡ blocking
unfolding with_reports
some_blocking-reports reports v [] h = absurd (cc)
some_blocking-reports reports v (e ∷ es) h = elim (Bool-cases (e.fd == v.listen_fd)) [
  | inr other ↦ some_blocking-reports reports v es (ground (arith, h, other))
  | inl listening ↦
      let same : e.fd ≡ v.listen_fd = ground (arith, listening) in
      elim (Bool-cases (is_blocking (reports e.fd).accepted)) [
        | inl stuck ↦
            subst (λ l. (reports l).accepted ≡ blocking) same
              (is_blocking-blocking (reports e.fd).accepted stuck)
        | inr fine ↦ some_blocking-reports reports v es (ground (arith, h, fine))
      ]
]

-- The descriptors of an array, with what poll() reports for them.
abbrev pub reported : (ℕ → Ready) → List PollFd → List (ℕ × Ready)
reported reports es = map (λ (e : PollFd). (e.fd, reports e.fd)) es

keys-with_reports :
    (reports : ℕ → Ready) (es : List PollFd) → keys (with_reports reports es) ≡ reported reports es
unfolding with_reports
keys-with_reports reports [] = refl
keys-with_reports reports (e ∷ es) =
    ap (λ ks. (e.fd, reports e.fd) ∷ ks) (keys-with_reports reports es)

length-keys :
    (reports : ℕ → Ready) (es : List PollFd) → length (keys (with_reports reports es)) ≡ length es
unfolding with_reports
length-keys reports [] = refl
length-keys reports (e ∷ es) = omega (arith, length-keys reports es)

module _ (new_channel : ServerState → ℕ) (now : ℕ) (reports : ℕ → Ready) (v : Server)
    (w : IsWatched v) (new : is_new (reports v.listen_fd).accepted v ≡ true) where
  polled-Visits :
      Visits new_channel now
        (poll_loop new_channel now (length v.pollfds + 2) 0 (polled reports v))
        (keys (polled reports v).pollfds)
        (polled reports v)
  unfolding polled received
  polled-Visits =
      let after = polled-IsWatched reports v w in
      poll_loop-Visits new_channel now (keys (with_reports reports v.pollfds))
        (length v.pollfds + 2) [] [] (polled reports v) after (sym (append-nil _)) refl
        (all_new-kept v (polled reports v) refl (λ g. ground arith)
          (keys (with_reports reports v.pollfds)) (all_new-reports reports v v.pollfds new))
        (ground (
          arith,
          length-keys reports v.pollfds,
          after.listed v.listen_fd,
          w.listening,
          ==_iff v.listen_fd v.listen_fd,
        ))

  -- Where the array and the connections agree, and accept() returns a descriptor that is not in use,
  -- the loop over the indices of the array, in which entries come and go meanwhile, does the same as
  -- one turn for each entry that was there when poll() answered, in order.
  pub poll_loop-visit :
      poll_loop new_channel now (length v.pollfds + 2) 0 (polled reports v)
      ≡ visit new_channel now (reported reports v.pollfds) (polled reports v)
  unfolding polled
  poll_loop-visit =
      polled-Visits.0
      ∙ ap (λ ks. visit new_channel now ks (polled reports v)) (keys-with_reports reports v.pollfds)

  -- Where the array, the connections and the monitor agree, and accept() returns a descriptor that is
  -- not in use, a round never meets a null connection: it ends with an exception, which happens only
  -- if the new descriptor cannot be made non-blocking, or it ends where they agree again.
  pub round-IsWatched :
      ((round new_channel now reports v ≡ thrown) × ((reports v.listen_fd).accepted ≡ blocking))
      ⊎ ((v' : Server) × (round new_channel now reports v ≡ done v') × IsWatched v')
  unfolding round polled
  round-IsWatched =
      let (same, ended) = polled-Visits in
      elim ended [
        | inl (failed, blocked) ↦ inl (
          rw (round, same, failed) refl,
          some_blocking-reports reports (polled reports v) v.pollfds blocked,
        )
        | inr (v', well, after) ↦
            inr (sweep now v', rw (round, same, well) refl, sweep-IsWatched now v' after)
      ]
