-- ===== src/Network/Shutdown/Serving.antt =====
-- The loop of run() of src/a/Server.cpp never meets a null connection.
use irc.Common.{
  ℕ, Bool, true, false, ◌&&◌, ◌⊎◌, ◌≡◌, refl, List, [], ◌∷◌, arith, Bool-cases, inl, inr,
  if◌then◌else◌,
}
use irc.State.Server.{ServerState}
use irc.Network.Poll.{Ready}
use irc.Network.Server.{Server}
use irc.Network.Run.{done, thrown, faulted, round}
use irc.Network.Run.Visits.{is_new}
use irc.Network.Run.Rounds.{round-IsWatched}
use irc.Network.Watched.{IsWatched}
use irc.Network.Shutdown.{
  Polled, interrupted, failed, reported, Wait, Ended, returned, running, ended_by_exception, run,
}

Polled-cases :
    (p : Polled)
    → (p ≡ interrupted)
      ⊎ ((p ≡ failed) ⊎ ((now : ℕ) × (reports : ℕ → Ready) × (p ≡ reported now reports)))
Polled-cases interrupted = inl refl
Polled-cases failed = inr (inl refl)
Polled-cases (reported now reports) = inr (inr (now, reports, refl))

module _ (new_channel : ServerState → ℕ) where
  -- In every round that is run, the descriptor that accept() returns is not in use.
  unfoldable pub accepts_new : List Wait → Server → Bool
  accepts_new [] v = true
  accepts_new (w ∷ ws) v =
      let later = accepts_new ws in
      if w.stop_before then true else elim w.polled [
        | interrupted ↦ if w.stop_after then true else later v
        | failed ↦ true
        | reported now reports ↦
            if w.stop_after
            then true
            else is_new (reports v.listen_fd).accepted v
              && (elim (round new_channel now reports v) [
                | done v' ↦ later v'
                | thrown ↦ true
                | faulted ↦ true
              ])
      ]

  -- How run() may end.
  abbrev EndsWell : Ended → Type 0
  EndsWell e =
      ((v' : Server) × (e ≡ returned v') × IsWatched v')
      ⊎ (((v' : Server) × (e ≡ running v') × IsWatched v') ⊎ (e ≡ ended_by_exception))

  -- A run from a server that is watched, with new descriptors, ends well.
  abbrev RunsWell : List Wait → Server → Type 0
  RunsWell ws v = IsWatched v → accepts_new ws v ≡ true → EndsWell (run new_channel ws v)

  stops : (e : Ended) (v : Server) → e ≡ returned v → IsWatched v → EndsWell e
  stops e v same watched = inl (v, same, watched)

  run-reported :
      (now : ℕ) (reports : ℕ → Ready) (w : Wait) (ws : List Wait) (v : Server)
      → w.stop_before ≡ false
      → w.polled ≡ reported now reports
      → w.stop_after ≡ false
      → ((v' : Server) → RunsWell ws v')
      → RunsWell (w ∷ ws) v
  unfolding run accepts_new
  run-reported now reports w ws v before answer after later watched new =
      let accepted : is_new (reports v.listen_fd).accepted v ≡ true =
        ground (arith, new, before, answer, after) in
      elim (round-IsWatched new_channel now reports v watched accepted) [
        | inl (stuck, why) ↦ inr (inr (rw (run, before, answer, after, stuck) refl))
        | inr (v', well, watched') ↦
            rw (run, before, answer, after, well)
              (later v' watched' (ground (arith, new, before, answer, after, well)))
      ]

  run-RunsWell : (ws : List Wait) (v : Server) → RunsWell ws v
  unfolding run accepts_new
  run-RunsWell [] v watched new = inr (inl (v, refl, watched))
  run-RunsWell (w ∷ ws) v watched new = elim (Bool-cases w.stop_before) [
    | inl before ↦ stops _ v (rw (run, before) refl) watched
    | inr before ↦ elim (Polled-cases w.polled) [
      | inl answer ↦ elim (Bool-cases w.stop_after) [
        | inl after ↦ stops _ v (rw (run, before, answer, after) refl) watched
        | inr after ↦
            rw (run, before, answer, after)
              (run-RunsWell ws v watched (ground (arith, new, before, answer, after)))
      ]
      | inr (inl answer) ↦ inr (inr (rw (run, before, answer) refl))
      | inr (inr (now, reports, answer)) ↦ elim (Bool-cases w.stop_after) [
        | inl after ↦ stops _ v (rw (run, before, answer, after) refl) watched
        | inr after ↦
            run-reported now reports w ws v before answer after (run-RunsWell ws) watched new
      ]
    ]
  ]

  -- If accept() returns a descriptor that is not in use whenever it is called, run() never meets a null
  -- connection, however often poll() answers and whatever it reports: it returns, with the array, the
  -- connections and the monitor in agreement; is still running, with them in agreement; or ends with
  -- an exception.
  pub run-IsWatched :
      (ws : List Wait) (v : Server)
      → IsWatched v
      → accepts_new ws v ≡ true
      → ((v' : Server) × (run new_channel ws v ≡ returned v') × IsWatched v')
        ⊎ (((v' : Server) × (run new_channel ws v ≡ running v') × IsWatched v')
            ⊎ (run new_channel ws v ≡ ended_by_exception))
  run-IsWatched ws v watched new = run-RunsWell ws v watched new
