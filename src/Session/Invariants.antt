-- ===== src/Session/Invariants.antt =====
-- What holds of the server state whatever the clients do.
use irc.Common.{ℕ, true, false, ◌≡◌, ◌≢◌, Text, [], arith}
use irc.Common.Map.{find, same}
use irc.State.Names.Order.{name_order}
use irc.State.Client.{Client, new_client}
use irc.State.Channel.{Channel}
use irc.State.Registry
use irc.State.Registry.Ownership.{nick_unique}
use irc.State.Server.{ServerState, server_state, add_client, remove_client, client_at}
use irc.State.Server.Links.{IsConsistent, client_live}
use irc.State.Server.Clients.{add_client-IsConsistent}
use irc.State.Server.Removal.{remove_client-IsConsistent}
use irc.State.Server.Departure.{remove_client-frame}
use irc.Command.Consistency.Run.{dispatch-keeps}
use irc.Command.Consistency.Soundness.{IsConsistent-Stable, IsSound, framed-IsSound}
use irc.Session.{Step, accepted, commanded, disconnected, Reach, here, next}

pub server_state-IsConsistent :
    (password : Text) (clients : ℕ → Client) (channels : ℕ → Channel)
    → IsConsistent (server_state password clients channels)
unfolding server_state find
server_state-IsConsistent password clients channels = record {
  linked = record {
    owned = record {
      fd_found = λ fd p h. cc;
      fd_finds = λ p h. cc;
      nick_found = λ n p h. cc;
      nick_finds = λ p h k. cc;
    };
    name_found = λ n q h. cc;
    name_finds = λ q h. cc;
    member_live = λ p q h k. cc;
    invited_live = λ p q h k. cc;
    joined_live = λ p q h k. cc;
    in_step = λ p q h k. cc;
  };
  occupied = λ q h. cc;
}

Step-IsConsistent : {s t : ServerState} → Step s t → IsConsistent s → IsConsistent t
Step-IsConsistent (accepted fd host p s fresh) w = add_client-IsConsistent fd host p w fresh
Step-IsConsistent (commanded fd msg now q monitor s fresh) w =
    dispatch-keeps IsConsistent-Stable fd msg now q monitor w fresh (λ _ _ _ _ _. tt)
Step-IsConsistent (disconnected fd s) w = remove_client-IsConsistent fd w

pub IsConsistent-Reach : {s t : ServerState} → IsConsistent s → Reach s t → IsConsistent t
IsConsistent-Reach w here = w
IsConsistent-Reach w (next r st) = Step-IsConsistent st (IsConsistent-Reach w r)

pub server_state-IsSound :
    (password : Text) (clients : ℕ → Client) (channels : ℕ → Channel)
    → IsSound (server_state password clients channels)
unfolding server_state
server_state-IsSound password clients channels = record {
  consistent = server_state-IsConsistent password clients channels;
  admitted = λ p h k. cc;
  nick_valid = λ p h. cc;
  named = λ q h. cc;
  limited = λ q h. cc;
}

pub add_client-IsSound :
    (fd : ℕ) (host : Text) (p : ℕ) {s : ServerState}
    → IsSound s
    → client_live p s ≡ false
    → IsSound (add_client fd host p s)
unfolding add_client Registry.add_client new_client
add_client-IsSound fd host p w fresh = record {
  consistent = add_client-IsConsistent fd host p w.consistent fresh;
  admitted = λ t h k. ground (arith, w.admitted t);
  nick_valid = λ t h. ground (arith, w.nick_valid t);
  named = λ q h. w.named q h;
  limited = λ q h. w.limited q h;
}

pub remove_client-IsSound : (fd : ℕ) {s : ServerState} → IsSound s → IsSound (remove_client fd s)
remove_client-IsSound fd {s} w =
    framed-IsSound w (remove_client-IsConsistent fd w.consistent)
      (λ t h. (remove_client-frame t fd s).0 h)
      (λ q h. ground (arith, (remove_client-frame q fd s).1 h, w.named q))
      (λ q h. ground (arith, (remove_client-frame q fd s).1 h, w.limited q))

-- From an empty server, whatever clients are accepted, send and leave in whatever order, every pointer
-- that the state keeps leads to a live object, each map finds exactly the live objects under their
-- names and descriptors, memberships agree on the client's and the channel's side, and no channel is
-- left without members.
pub Reach-IsConsistent :
    (password : Text) (clients : ℕ → Client) (channels : ℕ → Channel) {t : ServerState}
    → Reach (server_state password clients channels) t
    → IsConsistent t
Reach-IsConsistent password clients channels r =
    IsConsistent-Reach (server_state-IsConsistent password clients channels) r

-- Along such runs, two clients whose nicknames differ at most in case are one and the same.
pub Reach-nick_unique :
    (password : Text) (clients : ℕ → Client) (channels : ℕ → Channel) {t : ServerState} (p q : ℕ)
    → Reach (server_state password clients channels) t
    → client_live p t ≡ true
    → client_live q t ≡ true
    → (client_at p t).nickname ≢ []
    → same name_order (client_at p t).nickname (client_at q t).nickname ≡ true
    → p ≡ q
Reach-nick_unique password clients channels p q r =
    nick_unique p q (Reach-IsConsistent password clients channels r).linked.owned
