-- ===== src/Network/Shutdown/Closing.antt =====
-- _closeAllFds of src/a/Server.cpp ends, and leaves nothing.
use irc.Common.{
  ℕ, zero, suc, ◌<◌, ◌≤◌, ◌⊎◌, inl, inr, ◌≡◌, refl, ap, ◌∙◌, List, [], ◌∷◌, some, arith, length,
  if◌then◌else◌,
}
use irc.Common.Map.{find, erase}
use irc.Common.Map.Laws.{same_refl}
use irc.Common.Map.Keys.{nat_order}
use irc.State.Server.Links.{IsConsistent}
use irc.Network.Connection.{Connection}
use irc.Network.Server.{Server, remove_fd, disconnect_client}
use irc.Network.Server.Keeping.{disconnect_client-IsConsistent}
use irc.Network.Shutdown.{close_first, close_connections, close_listening, close_all_fds}

length-erase : {V : Type 0} (k : ℕ) (m : List (ℕ × V)) → length (erase nat_order k m) ≤ length m
unfolding erase
length-erase k [] = omega arith
length-erase k ((j, w) ∷ m) = ground (arith, length-erase k m)

first_found :
    (fd : ℕ) (c : Connection) (rest : List (ℕ × Connection))
    → find nat_order fd ((fd, c) ∷ rest) ≡ some c
unfolding find
first_found fd c rest = rw (if◌then◌else◌, same_refl nat_order fd) refl

first_erased :
    (fd : ℕ) (c : Connection) (rest : List (ℕ × Connection))
    → erase nat_order fd ((fd, c) ∷ rest) ≡ erase nat_order fd rest
unfolding erase
first_erased fd c rest = rw (if◌then◌else◌, same_refl nat_order fd) refl

-- To disconnect the first client takes its connection.
connections-disconnect_client :
    (fd : ℕ) (c : Connection) (rest : List (ℕ × Connection)) (v : Server)
    → v.connections ≡ (fd, c) ∷ rest
    → (disconnect_client fd v).connections ≡ erase nat_order fd rest
unfolding disconnect_client remove_fd
connections-disconnect_client fd c rest v h =
    let found : find nat_order fd v.connections ≡ some c =
      ap (λ m. find nat_order fd m) h ∙ first_found fd c rest in
    rw (disconnect_client, found) (ap (λ m. erase nat_order fd m) h ∙ first_erased fd c rest)

List-cases {ℓ} : {A : Type ℓ} (m : List A) → (m ≡ []) ⊎ ((a : A) × (rest : List A) × (m ≡ a ∷ rest))
List-cases [] = inl refl
List-cases (a ∷ rest) = inr (a, rest, refl)

-- A consistent state without connections.
record Closed (v : Server) : Type 0 where
  pub connections : v.connections ≡ []
  pub state : IsConsistent v.state

close_connections-Closed :
    (rounds : ℕ) (v : Server)
    → IsConsistent v.state
    → length v.connections < rounds
    → (v' : Server) × (close_connections rounds v ≡ some v') × Closed v'
unfolding close_connections close_first
close_connections-Closed zero v w h = absurd (omega (arith, h))
close_connections-Closed (suc rounds) v w h = elim (List-cases v.connections) [
  | inl e ↦ (
    v,
    ap (λ m. close_first (close_connections rounds) m v) e,
    record { connections = e; state = w },
  )
  | inr ((fd, c), rest, e) ↦
      let fewer : length (disconnect_client fd v).connections < rounds = omega (
        arith,
        h,
        length-erase fd rest,
        ap length (connections-disconnect_client fd c rest v e),
        ap length e,
      ) in
      let (v', ran, closed) =
        close_connections-Closed rounds (disconnect_client fd v)
          (disconnect_client-IsConsistent fd v w) fewer in
      (v', ap (λ m. close_first (close_connections rounds) m v) e ∙ ran, closed)
]

-- Given one round more than there are connections, _closeAllFds ends; then no descriptor is watched, no
-- connection is left, and the server state is consistent if it was before.
pub close_all_fds-closes :
    (rounds : ℕ) (v : Server)
    → IsConsistent v.state
    → length v.connections < rounds
    → (v' : Server) × (close_all_fds rounds v ≡ some v')
      × (v'.connections ≡ [])
      × (v'.pollfds ≡ [])
      × IsConsistent v'.state
unfolding close_all_fds close_listening remove_fd
close_all_fds-closes rounds v w h =
    let (v', ran, closed) = close_connections-Closed rounds v w h in
    (close_listening v', rw (close_all_fds, ran) refl, closed.connections, refl, closed.state)
