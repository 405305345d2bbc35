-- ===== src/State/Server/Clients.antt =====
-- The operations on clients of src/c/ServerState.cpp keep the invariant.
use irc.Common.{ℕ, true, false, ◌≡◌, ◌≢◌, [], Text, arith}
use irc.State.Client.{Client, set_nick}
use irc.State.Client.Laws.{has_joined, has_joined-new_client}
use irc.State.Registry
use irc.State.Registry.Ownership.{add_client-IsOwned, update_client-IsOwned, update_nick-IsOwned}
use irc.State.Server.{ServerState, client_at, change_client, add_client, update_nick}
use irc.State.Server.Links.{IsLinked, IsConsistent, client_live}

module _ (fd : ℕ) (host : Text) (p : ℕ) {s : ServerState} (w : IsLinked s)
    (fresh : client_live p s ≡ false) where
  pub add_client-IsLinked : IsLinked (add_client fd host p s)
  unfolding add_client Registry.add_client
  add_client-IsLinked = record {
    owned = add_client-IsOwned fd host p w.owned fresh;
    name_found = λ n q h. w.name_found n q h;
    name_finds = λ q h. w.name_finds q h;
    member_live = λ p' q h k. ground (arith, w.member_live p' q);
    invited_live = λ p' q h k. ground (arith, w.invited_live p' q);
    joined_live = λ p' q h k. ground (arith, w.joined_live p' q, has_joined-new_client q fd host);
    in_step = λ p' q h k.
        ground (arith, w.in_step p' q, w.member_live p' q, has_joined-new_client q fd host);
  }

module _ (p : ℕ) (new_nick : Text) {s : ServerState} (w : IsLinked s)
    (alive : client_live p s ≡ true) (named : new_nick ≢ []) where
  pub update_nick-IsLinked : IsLinked (update_nick p new_nick s).1
  unfolding update_nick Registry.update_nick Registry.rename set_nick has_joined
  update_nick-IsLinked = record {
    owned = update_nick-IsOwned p new_nick w.owned alive named;
    name_found = λ n q h. w.name_found n q h;
    name_finds = λ q h. w.name_finds q h;
    member_live = λ p' q h k. ground (arith, w.member_live p' q);
    invited_live = λ p' q h k. ground (arith, w.invited_live p' q);
    joined_live = λ p' q h k. ground (arith, w.joined_live p' q);
    in_step = λ p' q h k. ground (arith, w.in_step p' q);
  }

-- A change of a client that keeps its descriptor, its nickname and its channels.
module _ (p : ℕ) (f : Client → Client) {s : ServerState}
    (same_fd : (f (client_at p s)).fd ≡ (client_at p s).fd)
    (same_nick : (f (client_at p s)).nickname ≡ (client_at p s).nickname)
    (same_channels : (f (client_at p s)).channels ≡ (client_at p s).channels) where
  change_client-IsLinked : IsLinked s → IsLinked (change_client p f s)
  unfolding has_joined
  change_client-IsLinked w = record {
    owned = update_client-IsOwned p f w.owned same_fd same_nick;
    name_found = λ n q h. w.name_found n q h;
    name_finds = λ q h. w.name_finds q h;
    member_live = λ p' q h k. w.member_live p' q h k;
    invited_live = λ p' q h k. w.invited_live p' q h k;
    joined_live = λ p' q h k. ground (arith, w.joined_live p' q);
    in_step = λ p' q h k. ground (arith, w.in_step p' q);
  }

  pub change_client-IsConsistent : IsConsistent s → IsConsistent (change_client p f s)
  change_client-IsConsistent w = record {
    linked = change_client-IsLinked w.linked;
    occupied = λ q h. w.occupied q h;
  }

pub add_client-IsConsistent :
    (fd : ℕ) (host : Text) (p : ℕ) {s : ServerState}
    → IsConsistent s
    → client_live p s ≡ false
    → IsConsistent (add_client fd host p s)
unfolding add_client
add_client-IsConsistent fd host p w fresh = record {
  linked = add_client-IsLinked fd host p w.linked fresh;
  occupied = λ q h. w.occupied q h;
}

pub update_nick-IsConsistent :
    (p : ℕ) (new_nick : Text) {s : ServerState}
    → IsConsistent s
    → client_live p s ≡ true
    → new_nick ≢ []
    → IsConsistent (update_nick p new_nick s).1
unfolding update_nick
update_nick-IsConsistent p new_nick w alive named = record {
  linked = update_nick-IsLinked p new_nick w.linked alive named;
  occupied = λ q h. w.occupied q h;
}
