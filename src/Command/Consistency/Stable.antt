-- ===== src/Command/Consistency/Stable.antt =====
-- What a property of the server state needs in order to survive every command: one field for each
-- change that a handler makes, under the conditions that hold where it makes it.
use irc.Common.{ℕ, Bool, true, false, ◌≡◌, Text, some}
use irc.State.Names.{is_valid_nickname, is_valid_channel_name}
use irc.State.Modes.{ChannelModes, limit_ok}
use irc.State.Client.{set_pass_ok, set_username, set_realname, can_register, mark_registered}
use irc.State.Channel.{set_topic, change_modes, set_operator, add_invite}
use irc.State.Server.{
  ServerState, client_at, change_client, change_channel, update_nick, add_client_to_channel,
  remove_client_from_channel,
}
use irc.State.Server.Links.{IsConsistent, client_live, channel_live}

-- `Admits p` is what a PASS with the right password gives the client at `p`.
pub record Stable (Admits : ℕ → Type 0) (P : ServerState → Type 0) : Type 0 where
  pub consistent : (s : ServerState) → P s → IsConsistent s
  pub password :
      (p : ℕ) (s : ServerState) → P s → Admits p → P (change_client p (set_pass_ok true) s)
  pub register :
      (p : ℕ) (s : ServerState)
      → P s
      → can_register (client_at p s) ≡ true
      → P (change_client p mark_registered s)
  pub nick :
      (p : ℕ) (name : Text) (s : ServerState)
      → P s
      → client_live p s ≡ true
      → is_valid_nickname name ≡ true
      → P (update_nick p name s).1
  pub user :
      (p : ℕ) (username realname : Text) (s : ServerState)
      → P s
      → (client_at p s).registered ≡ false
      → P (change_client p (set_realname realname) (change_client p (set_username username) s))
  pub join :
      (p : ℕ) (name : Text) (q : ℕ) (s : ServerState)
      → P s
      → client_live p s ≡ true
      → channel_live q s ≡ false
      → is_valid_channel_name name ≡ true
      → P (add_client_to_channel (some p) name q s).1
  pub leave :
      (p : ℕ) (name : Text) (s : ServerState) → P s → P (remove_client_from_channel (some p) name s)
  pub invite :
      (p q : ℕ) (s : ServerState)
      → P s
      → client_live p s ≡ true
      → P (change_channel q (add_invite p) s)
  pub topic :
      (q : ℕ) (text : Text) (s : ServerState) → P s → P (change_channel q (set_topic text) s)
  pub modes :
      (q : ℕ) (f : ChannelModes → ChannelModes) (s : ServerState)
      → P s
      → ((m : ChannelModes) → limit_ok m.limit ≡ true → limit_ok (f m).limit ≡ true)
      → P (change_channel q (change_modes f) s)
  pub operator :
      (p q : ℕ) (b : Bool) (s : ServerState) → P s → P (change_channel q (set_operator p b) s)
