-- ===== src/Command/Consistency/Soundness.antt =====
-- The two properties that every command keeps: the pointers and memberships are consistent, and the
-- accounts and channels are well formed.
use irc.Common.{
  ℕ, Bool, true, false, not, ◌&&◌, ◌||◌, ◌≡◌, ◌≢◌, refl, ap, [], Text, some, arith, is_empty,
}
use irc.State.Names.{is_valid_nickname, is_valid_channel_name}
use irc.State.Modes.{ChannelModes, limit_ok}
use irc.State.Client.{
  Client, set_pass_ok, set_username, set_realname, set_nick, can_register, mark_registered,
}
use irc.State.Channel.{set_topic, change_modes, set_operator, add_invite}
use irc.State.Registry
use irc.State.Server.{
  ServerState, client_at, channel_at, change_client, change_channel, update_nick,
  add_client_to_channel, remove_client_from_channel,
}
use irc.State.Server.Links.{IsConsistent, client_live, channel_live}
use irc.State.Server.Clients.{change_client-IsConsistent, update_nick-IsConsistent}
use irc.State.Server.Channels.{
  set_operator-IsConsistent, add_invite-IsConsistent, set_topic-IsConsistent,
  change_modes-IsConsistent,
}
use irc.State.Server.Joining.{add_client_to_channel-IsConsistent}
use irc.State.Server.Leaving.{remove_client_from_channel-IsConsistent}
use irc.State.Server.Frame.{
  account, join-account, leave-account, join-channel, leave-channel, modes-set_operator,
}
use irc.Command.Consistency.Stable.{Stable}

valid_nickname-ne-nil : (n : Text) → is_valid_nickname n ≡ true → n ≢ []
unfolding is_valid_nickname
valid_nickname-ne-nil n h = ground arith

mark_registered-IsConsistent :
    (p : ℕ) (s : ServerState) → IsConsistent s → IsConsistent (change_client p mark_registered s)
unfolding mark_registered
mark_registered-IsConsistent p s w = change_client-IsConsistent p mark_registered refl refl refl w

set_pass_ok-IsConsistent :
    (p : ℕ) (s : ServerState) → IsConsistent s → IsConsistent (change_client p (set_pass_ok true) s)
unfolding set_pass_ok
set_pass_ok-IsConsistent p s w = change_client-IsConsistent p (set_pass_ok true) refl refl refl w

set_user-IsConsistent :
    (p : ℕ) (u r : Text) (s : ServerState)
    → IsConsistent s
    → IsConsistent (change_client p (set_realname r) (change_client p (set_username u) s))
unfolding set_username set_realname
set_user-IsConsistent p u r s w =
    change_client-IsConsistent p (set_realname r) refl refl refl
      (change_client-IsConsistent p (set_username u) {s = s} refl refl refl w)

-- Nothing that is said here depends on who has sent the password.
abbrev pub Whoever : ℕ → Type 0
Whoever p = Unit

pub IsConsistent-Stable : Stable Whoever IsConsistent
IsConsistent-Stable = record {
  consistent = λ s w. w;
  password = λ p s w _. set_pass_ok-IsConsistent p s w;
  register = λ p s w _. mark_registered-IsConsistent p s w;
  nick = λ p name s w alive valid.
      update_nick-IsConsistent p name w alive (valid_nickname-ne-nil name valid);
  user = λ p u r s w _. set_user-IsConsistent p u r s w;
  join = λ p name q s w alive fresh _. add_client_to_channel-IsConsistent p name q w alive fresh;
  leave = λ p name s w. remove_client_from_channel-IsConsistent p name w;
  invite = λ p q s w alive. add_invite-IsConsistent p q w alive;
  topic = λ q text s w. set_topic-IsConsistent q text w;
  modes = λ q f s w _. change_modes-IsConsistent q f w;
  operator = λ p q b s w. set_operator-IsConsistent p q b w;
}

-- What a registered client has: PASS has accepted it, and it has given its names.
abbrev pub is_admitted : Client → Bool
is_admitted c =
    c.pass_ok && not (is_empty c.nickname) && not (is_empty c.username) && not (is_empty c.realname)

-- Only a client that PASS has accepted, and that has given its names, is registered; a nickname is
-- valid once there is one; a channel has a valid name and a limit that MODE accepts.
pub record IsSound (s : ServerState) : Type 0 where
  pub consistent : IsConsistent s
  pub admitted :
      (p : ℕ)
      → client_live p s ≡ true
      → (client_at p s).registered ≡ true
      → is_admitted (client_at p s) ≡ true
  pub nick_valid :
      (p : ℕ)
      → client_live p s ≡ true
      → (is_empty (client_at p s).nickname || is_valid_nickname (client_at p s).nickname) ≡ true
  pub named : (q : ℕ) → channel_live q s ≡ true → is_valid_channel_name (channel_at q s).name ≡ true
  pub limited : (q : ℕ) → channel_live q s ≡ true → limit_ok (channel_at q s).modes.limit ≡ true

module _ (p : ℕ) (s : ServerState) (w : IsSound s) where
  password-IsSound : IsSound (change_client p (set_pass_ok true) s)
  unfolding set_pass_ok can_register
  password-IsSound = record {
    consistent = set_pass_ok-IsConsistent p s w.consistent;
    admitted = λ t h k. ground (arith, w.admitted t);
    nick_valid = λ t h. ground (arith, w.nick_valid t);
    named = λ q h. w.named q h;
    limited = λ q h. w.limited q h;
  }

  register-IsSound :
      can_register (client_at p s) ≡ true → IsSound (change_client p mark_registered s)
  unfolding mark_registered can_register
  register-IsSound able = record {
    consistent = mark_registered-IsConsistent p s w.consistent;
    admitted = λ t h k. ground (arith, w.admitted t);
    nick_valid = λ t h. ground (arith, w.nick_valid t);
    named = λ q h. w.named q h;
    limited = λ q h. w.limited q h;
  }

  nick-IsSound :
      (name : Text)
      → client_live p s ≡ true
      → is_valid_nickname name ≡ true
      → IsSound (update_nick p name s).1
  unfolding update_nick Registry.update_nick Registry.rename set_nick can_register
  nick-IsSound name alive valid =
      let named = valid_nickname-ne-nil name valid in
      record {
        consistent = update_nick-IsConsistent p name w.consistent alive named;
        admitted = λ t h k. ground (arith, w.admitted t);
        nick_valid = λ t h. ground (arith, w.nick_valid t);
        named = λ q h. w.named q h;
        limited = λ q h. w.limited q h;
      }

  user-IsSound :
      (u r : Text)
      → (client_at p s).registered ≡ false
      → IsSound (change_client p (set_realname r) (change_client p (set_username u) s))
  unfolding set_username set_realname can_register
  user-IsSound u r new = record {
    consistent = set_user-IsConsistent p u r s w.consistent;
    admitted = λ t h k. ground (arith, w.admitted t);
    nick_valid = λ t h. ground (arith, w.nick_valid t);
    named = λ q h. w.named q h;
    limited = λ q h. w.limited q h;
  }

-- Registration and nickname are read off the account.
same_account :
    (c d : Client)
    → account c ≡ account d
    → (c.registered ≡ d.registered) × (is_admitted c ≡ is_admitted d) × (c.nickname ≡ d.nickname)
same_account c d e =
    (ap (λ (x : Client). x.registered) e, ap is_admitted e, ap (λ (x : Client). x.nickname) e)

-- A change of channels keeps what is known of the clients, if their accounts stay.
module _ {s s' : ServerState} (w : IsSound s) (consistent : IsConsistent s')
    (accounts : (t : ℕ)
      → client_live t s' ≡ true
      → (account (client_at t s') ≡ account (client_at t s)) × (client_live t s ≡ true))
    (named : (q : ℕ)
      → channel_live q s' ≡ true
      → is_valid_channel_name (channel_at q s').name ≡ true)
    (limited : (q : ℕ)
      → channel_live q s' ≡ true
      → limit_ok (channel_at q s').modes.limit ≡ true) where
  pub framed-IsSound : IsSound s'
  framed-IsSound = record {
    consistent = consistent;
    admitted = λ t h k. ground (
      arith,
      w.admitted t,
      accounts t h,
      same_account (client_at t s') (client_at t s) (accounts t h).0,
    );
    nick_valid = λ t h. ground (
      arith,
      w.nick_valid t,
      accounts t h,
      same_account (client_at t s') (client_at t s) (accounts t h).0,
    );
    named = named;
    limited = limited;
  }

module _ (s : ServerState) (w : IsSound s) where
  join-IsSound :
      (p : ℕ) (name : Text) (q : ℕ)
      → client_live p s ≡ true
      → channel_live q s ≡ false
      → is_valid_channel_name name ≡ true
      → IsSound (add_client_to_channel (some p) name q s).1
  join-IsSound p name q alive fresh valid =
      framed-IsSound w (add_client_to_channel-IsConsistent p name q w.consistent alive fresh)
        (λ t h. ground (arith, join-account t p name q s))
        (λ k h. ground (arith, join-channel k p name q s h, w.named k))
        (λ k h. ground (arith, join-channel k p name q s h, w.limited k))

  leave-IsSound : (p : ℕ) (name : Text) → IsSound (remove_client_from_channel (some p) name s)
  leave-IsSound p name =
      framed-IsSound w (remove_client_from_channel-IsConsistent p name w.consistent)
        (λ t h. ground (arith, leave-account t p name s))
        (λ k h. ground (arith, leave-channel k p name s h, w.named k))
        (λ k h. ground (arith, leave-channel k p name s h, w.limited k))

  invite-IsSound : (p q : ℕ) → client_live p s ≡ true → IsSound (change_channel q (add_invite p) s)
  unfolding add_invite
  invite-IsSound p q alive =
      framed-IsSound w (add_invite-IsConsistent p q w.consistent alive) (λ t h. (refl, h))
        (λ k h. ground (arith, w.named k)) (λ k h. ground (arith, w.limited k))

  topic-IsSound : (q : ℕ) (text : Text) → IsSound (change_channel q (set_topic text) s)
  unfolding set_topic
  topic-IsSound q text =
      framed-IsSound w (set_topic-IsConsistent q text w.consistent) (λ t h. (refl, h))
        (λ k h. ground (arith, w.named k)) (λ k h. ground (arith, w.limited k))

  modes-IsSound :
      (q : ℕ) (f : ChannelModes → ChannelModes)
      → ((m : ChannelModes) → limit_ok m.limit ≡ true → limit_ok (f m).limit ≡ true)
      → IsSound (change_channel q (change_modes f) s)
  unfolding change_modes
  modes-IsSound q f kept =
      framed-IsSound w (change_modes-IsConsistent q f w.consistent) (λ t h. (refl, h))
        (λ k h. ground (arith, w.named k))
        (λ k h. ground (arith, w.limited k, kept (channel_at q s).modes))

  operator-IsSound : (p q : ℕ) (b : Bool) → IsSound (change_channel q (set_operator p b) s)
  operator-IsSound p q b =
      framed-IsSound w (set_operator-IsConsistent p q b w.consistent) (λ t h. (refl, h))
        (λ k h. ground (arith, w.named k, modes-set_operator p b (channel_at q s)))
        (λ k h. ground (arith, w.limited k, modes-set_operator p b (channel_at q s)))

pub IsSound-Stable : Stable Whoever IsSound
IsSound-Stable = record {
  consistent = λ s w. w.consistent;
  password = λ p s w _. password-IsSound p s w;
  register = λ p s w able. register-IsSound p s w able;
  nick = λ p name s w alive valid. nick-IsSound p s w name alive valid;
  user = λ p u r s w new. user-IsSound p s w u r new;
  join = λ p name q s w alive fresh valid. join-IsSound s w p name q alive fresh valid;
  leave = λ p name s w. leave-IsSound s w p name;
  invite = λ p q s w alive. invite-IsSound s w p q alive;
  topic = λ q text s w. topic-IsSound s w q text;
  modes = λ q f s w kept. modes-IsSound s w q f kept;
  operator = λ p q b s w. operator-IsSound s w p q b;
}
