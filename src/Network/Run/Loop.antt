-- ===== src/Network/Run/Loop.antt =====
-- The loop of run() of src/a/Server.cpp over the indices of an array that changes meanwhile handles the
-- entries that were there when poll() answered, each once and in order.
use irc.Common.{
  ℕ, zero, suc, ◌+◌, ◌<◌, ◌⊎◌, Bool, true, false, ◌≡◌, refl, sym, ap, subst, ◌∙◌, List, [], ◌∷◌,
  ◌++◌, append-nil, arith, all-append, length, inl, inr, if◌then◌else◌,
}
use irc.State.Server.{ServerState}
use irc.Network.Poll.{Ready, is_quiet}
use irc.Network.Poll.Laws.{keys, times}
use irc.Network.Server.{Server}
use irc.Network.Run.{Result, done, thrown, faulted, check_fd, poll_loop}
use irc.Network.Run.Visits.{some_blocking, all_new, all_quiet, drop-keys, drop-keys_end}
use irc.Network.Run.Passing.{
  split_after, length_after, Turn-all_new, alone, passed, entries-passed, turns_left, widened,
}
use irc.Network.Run.Turns.{check_fd-Turns}
use irc.Network.Watched.{IsWatched}

module _ (new_channel : ServerState → ℕ) (now : ℕ) where
  -- The turns for the entries of a list, from the first to the last.
  unfoldable pub visit : List (ℕ × Ready) → Server → Result Server
  visit [] v = done v
  visit ((fd, r) ∷ ks) v =
      let rest = visit ks in
      elim (check_fd new_channel now fd r v) [
        | done (_, v') ↦ rest v'
        | thrown ↦ thrown
        | faulted ↦ faulted
      ]

  -- The loop at an index in the array.
  poll_loop-turn :
      (turns : ℕ) (before after : List (ℕ × Ready)) (fd : ℕ) (r : Ready) (v : Server)
      → keys v.pollfds ≡ before ++ ((fd, r) ∷ after)
      → poll_loop new_channel now (suc turns) (length before) v
        ≡ (elim (check_fd new_channel now fd r v) [
          | done (true, v') ↦ poll_loop new_channel now turns (length before) v'
          | done (false, v') ↦ poll_loop new_channel now turns (suc (length before)) v'
          | thrown ↦ thrown
          | faulted ↦ faulted
        ])
  unfolding poll_loop
  poll_loop-turn turns before after fd r v h =
      let (e, rest, there, same) = drop-keys before (fd, r) after v.pollfds h in
      rw (poll_loop, there)
        (ap
          (λ (k : ℕ × Ready). elim (check_fd new_channel now k.0 k.1 v) [
            | done (true, v') ↦ poll_loop new_channel now turns (length before) v'
            | done (false, v') ↦ poll_loop new_channel now turns (suc (length before)) v'
            | thrown ↦ thrown
            | faulted ↦ faulted
          ])
          same)

  -- At the end of the array the loop ends.
  poll_loop-end :
      (turns : ℕ) (before : List (ℕ × Ready)) (v : Server)
      → keys v.pollfds ≡ before
      → poll_loop new_channel now (suc turns) (length before) v ≡ done v
  unfolding poll_loop
  poll_loop-end turns before v h = rw (poll_loop, drop-keys_end v.pollfds before h) refl

  check_fd-quiet :
      (fd : ℕ) (r : Ready) (v : Server)
      → is_quiet r ≡ true
      → check_fd new_channel now fd r v ≡ done (false, v)
  unfolding check_fd
  check_fd-quiet fd r v quiet = rw (if◌then◌else◌, quiet) refl

  -- Entries without a report change nothing.
  poll_loop-quiet :
      (turns : ℕ) (before after : List (ℕ × Ready)) (v : Server)
      → keys v.pollfds ≡ before ++ after
      → all_quiet after ≡ true
      → length after < turns
      → poll_loop new_channel now turns (length before) v ≡ done v
  poll_loop-quiet zero before after v h quiet enough = absurd (omega (arith, enough))
  poll_loop-quiet (suc turns) before [] v h quiet enough =
      poll_loop-end turns before v (h ∙ append-nil before)
  poll_loop-quiet (suc turns) before ((fd, r) ∷ after) v h quiet enough =
      let later =
        poll_loop-quiet turns (before ++ ((fd, r) ∷ [])) after v
          (h ∙ split_after before after (fd, r)) (ground (arith, quiet)) (omega (arith, enough)) in
      poll_loop-turn turns before after fd r v h
      ∙ rw (check_fd-quiet fd r v (ground (arith, quiet))) (
          subst (λ n. poll_loop new_channel now turns n v ≡ done v) (length_after before (fd, r))
            later)

  -- The loop does what the turns for the entries do, and ends with an exception or well.
  abbrev pub Visits : Result Server → List (ℕ × Ready) → Server → Type 0
  Visits o ks v =
      (o ≡ visit ks v)
      × (((visit ks v ≡ thrown) × (some_blocking ks v ≡ true))
          ⊎ ((v' : Server) × (visit ks v ≡ done v') × IsWatched v'))

  visit-thrown :
      (fd : ℕ) (r : Ready) (ks : List (ℕ × Ready)) (v : Server)
      → check_fd new_channel now fd r v ≡ thrown
      → visit ((fd, r) ∷ ks) v ≡ thrown
  unfolding visit
  visit-thrown fd r ks v h = rw (visit, h) refl

  visit-done :
      (fd : ℕ) (r : Ready) (ks : List (ℕ × Ready)) (gone : Bool) (v v' : Server)
      → check_fd new_channel now fd r v ≡ done (gone, v')
      → visit ((fd, r) ∷ ks) v ≡ visit ks v'
  unfolding visit
  visit-done fd r ks gone v v' h = rw (visit, h) refl

  poll_loop-done :
      (turns : ℕ) (before after : List (ℕ × Ready)) (fd : ℕ) (r : Ready) (gone : Bool)
      (v v' : Server)
      → keys v.pollfds ≡ before ++ ((fd, r) ∷ after)
      → check_fd new_channel now fd r v ≡ done (gone, v')
      → poll_loop new_channel now (suc turns) (length before) v
        ≡ poll_loop new_channel now turns (length (passed gone before (fd, r))) v'
  poll_loop-done turns before after fd r true v v' h ran =
      poll_loop-turn turns before after fd r v h ∙ rw ran refl
  poll_loop-done turns before after fd r false v v' h ran =
      poll_loop-turn turns before after fd r v h ∙ rw (ran, length_after before (fd, r)) refl

  pub poll_loop-Visits :
      (ks : List (ℕ × Ready)) (turns : ℕ) (before fresh : List (ℕ × Ready)) (v : Server)
      → IsWatched v
      → keys v.pollfds ≡ before ++ (ks ++ fresh)
      → all_quiet fresh ≡ true
      → all_new ks v ≡ true
      → length ks + times v.listen_fd ks + length fresh < turns
      → Visits (poll_loop new_channel now turns (length before) v) ks v
  unfolding visit
  poll_loop-Visits [] turns before fresh v w h quiet new enough =
      (poll_loop-quiet turns before fresh v h quiet (ground (arith, enough)), inr (v, refl, w))
  poll_loop-Visits ((fd, r) ∷ ks) zero before fresh v w h quiet new enough =
      absurd (omega (arith, enough))
  poll_loop-Visits ((fd, r) ∷ ks) (suc turns) before fresh v w h quiet new enough =
      let (none_before, none_after, there) = alone fd r before ks fresh v w h in
      elim (check_fd-Turns new_channel now fd r v w there (ground (arith, new))) [
        | inl (failed, blocked) ↦ (
          poll_loop-turn turns before (ks ++ fresh) fd r v h
              ∙ rw failed (sym (visit-thrown fd r ks v failed)),
          inl (visit-thrown fd r ks v failed, ground (arith, blocked)),
        )
        | inr (gone, v', ran, turn) ↦
            let (same, ended) =
              poll_loop-Visits ks turns (passed gone before (fd, r)) (fresh ++ turn.fresh) v'
                turn.watched (entries-passed fd r before ks fresh gone v v' turn h none_before)
                (ground (
                  arith,
                  quiet,
                  turn.quiet,
                  all-append (λ (k : ℕ × Ready). is_quiet k.1) fresh turn.fresh,
                ))
                (Turn-all_new fd gone ks v v' turn none_after (ground (arith, new)))
                (turns_left fd r ks fresh gone v v' turns turn enough) in
            let visited = visit-done fd r ks gone v v' ran in
            (
              poll_loop-done turns before (ks ++ fresh) fd r gone v v' h ran ∙ same ∙ sym visited,
              subst
                  (λ o.
                    ((o ≡ thrown) × (some_blocking ((fd, r) ∷ ks) v ≡ true))
                    ⊎ ((u : Server) × (o ≡ done u) × IsWatched u))
                  (sym visited) (widened fd r ks v v' turn.listening ended),
            )
      ]
