-- ===== src/Network/Run/Turns.antt =====
-- One turn of the loop of run() of src/a/Server.cpp, for an entry of the array.
use irc.Common.{
  ℕ, ◌≤◌, ◌⊎◌, Bool, true, false, not, ◌&&◌, ◌||◌, ◌≡◌, refl, sym, subst, ◌∙◌, List, [], ◌∷◌, ◌++◌,
  append-nil, Text, arith, length, Bool-cases, inl, inr, ◌==◌, ==_iff, if◌then◌else◌,
}
use irc.State.Server.{ServerState}
use irc.Network.Poll.{Accepted, refused, blocking, incoming, Ready, is_quiet, no_events}
use irc.Network.Poll.Laws.{keys, without, keys-with_fd}
use irc.Network.Server.{Server, accept_client, add_fd}
use irc.Network.Server.Lines.{connected}
use irc.Network.Server.Effect.{Effect}
use irc.Network.Server.Effect.Checks.{check_read-Checks}
use irc.Network.Run.{Result, done, thrown, accepting, check_fd}
use irc.Network.Run.Progress.{check_read-answers}
use irc.Network.Run.Visits.{is_new, is_blocking, all_quiet}
use irc.Network.Watched.{IsWatched, Effect-IsWatched, accept_client-IsWatched}

-- What a turn for `fd` makes of the server: the entry is gone exactly if the index is set back, and
-- new entries, for which there is no report, come only with a turn for the listening socket.
pub record Turn (fd : ℕ) (gone : Bool) (v v' : Server) : Type 0 where
  pub watched : IsWatched v'
  pub listening : v'.listen_fd ≡ v.listen_fd
  pub fresh : List (ℕ × Ready)
  pub entries :
      keys v'.pollfds ≡ (if gone then without fd (keys v.pollfds) else keys v.pollfds) ++ fresh
  pub quiet : all_quiet fresh ≡ true
  pub few : length fresh ≤ (if fd == v.listen_fd then 1 else 0)
  pub fewer : (g : ℕ) → (not (connected g v') || connected g v || fd == v.listen_fd) ≡ true

Turn-refl : (fd : ℕ) (v : Server) → IsWatched v → Turn fd false v v
Turn-refl fd v w = record {
  watched = w;
  listening = refl;
  fresh = [];
  entries = sym (append-nil (keys v.pollfds));
  quiet = refl;
  few = ground arith;
  fewer = λ g. ground arith;
}

Effect-Turn :
    {fd : ℕ} {gone : Bool} {v v' : Server}
    → (fd == v.listen_fd) ≡ false
    → IsWatched v
    → Effect fd gone v v'
    → Turn fd gone v v'
Effect-Turn {fd} {gone} {v} {v'} other w e = record {
  watched = Effect-IsWatched e other w;
  listening = e.listening;
  fresh = [];
  entries = e.entries ∙ sym (append-nil _);
  quiet = refl;
  few = ground arith;
  fewer = λ g. ground (arith, e.connection g);
}

accept_client-Turn :
    (fd : ℕ) (host : Text) (p : ℕ) (v : Server)
    → is_new (incoming fd host p) v ≡ true
    → IsWatched v
    → Turn v.listen_fd false v (accept_client fd host p v)
unfolding accept_client add_fd is_new is_quiet
accept_client-Turn fd host p v new w = record {
  watched = accept_client-IsWatched fd host p v (ground (arith, new)) (ground (arith, new)) w;
  listening = refl;
  fresh = (fd, no_events) ∷ [];
  entries = keys-with_fd fd v.pollfds;
  quiet = refl;
  few = ground arith;
  fewer = λ g. ground (arith, ==_iff v.listen_fd v.listen_fd);
}

-- A turn ends with an exception, if the flag says so, or as a turn does.
abbrev pub Turns : ℕ → Bool → Server → Result (Bool × Server) → Type 0
Turns fd blocked v o =
    ((o ≡ thrown) × (blocked ≡ true))
    ⊎ ((gone : Bool) × (v' : Server) × (o ≡ done (gone, v')) × Turn fd gone v v')

accepting-Turns :
    (a : Accepted) (v : Server)
    → is_new a v ≡ true
    → IsWatched v
    → Turns v.listen_fd (is_blocking a) v (accepting a v)
unfolding accepting is_blocking
accepting-Turns refused v new w = inr (false, v, refl, Turn-refl v.listen_fd v w)
accepting-Turns blocking v new w = inl (refl, refl)
accepting-Turns (incoming fd host p) v new w =
    inr (false, accept_client fd host p v, refl, accept_client-Turn fd host p v new w)

module _ (new_channel : ServerState → ℕ) (now : ℕ) where
  check_fd-accepting :
      (fd : ℕ) (r : Ready) (v : Server)
      → is_quiet r ≡ false
      → (fd == v.listen_fd) ≡ true
      → r.pollin ≡ true
      → check_fd new_channel now fd r v ≡ accepting r.accepted v
  unfolding check_fd
  check_fd-accepting fd r v busy listening readable =
      rw (if◌then◌else◌, busy, listening, readable) refl

  -- A turn for the listening socket or for a connection never meets a null connection.
  pub check_fd-Turns :
      (fd : ℕ) (r : Ready) (v : Server)
      → IsWatched v
      → (fd == v.listen_fd || connected fd v) ≡ true
      → (not (fd == v.listen_fd) || is_new r.accepted v) ≡ true
      → Turns fd (fd == v.listen_fd && is_blocking r.accepted) v (check_fd new_channel now fd r v)
  unfolding check_fd
  check_fd-Turns fd r v w there new = elim (Bool-cases (is_quiet r)) [
    | inl quiet ↦ inr (false, v, rw (if◌then◌else◌, quiet) refl, Turn-refl fd v w)
    | inr busy ↦ elim (Bool-cases (fd == v.listen_fd)) [
      | inl listening ↦ elim (Bool-cases r.pollin) [
        | inl readable ↦
            let same : fd ≡ v.listen_fd = ground (arith, listening) in
            let b = is_blocking r.accepted in
            let turned : Turns fd b v (accepting r.accepted v) =
              subst (λ l. Turns l b v (accepting r.accepted v)) (sym same)
                (accepting-Turns r.accepted v (ground (arith, new, listening)) w) in
            rw (check_fd-accepting fd r v busy listening readable, listening) turned
        | inr idle ↦
            inr (false, v, rw (if◌then◌else◌, busy, listening, idle) refl, Turn-refl fd v w)
      ]
      | inr other ↦
          let ((gone, v'), answered) =
            check_read-answers new_channel now fd r v (ground (arith, there, other)) in
          inr (
            gone,
            v',
            rw (if◌then◌else◌, busy, other, answered) refl,
            Effect-Turn other w (check_read-Checks new_channel now fd r v gone v' answered),
          )
    ]
  ]
