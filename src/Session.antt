-- ===== src/Session.antt =====
-- Everything that happens to the server state of a running server (src/a/Server.cpp): clients are
-- accepted, send commands, and go.
pub mod Invariants
pub mod Passes
pub mod Admission
use irc.Common.{ℕ, false, ◌≡◌, Text, Option}
use irc.Health.{ConnectionHealthMonitor}
use irc.Protocol.Message.{Message}
use irc.State.Server.{ServerState, add_client, remove_client}
use irc.State.Server.Links.{client_live, channel_live}
use irc.Command.Dispatch.{dispatch}

-- One event. `new` returns addresses at which nothing lives.
pub data Step : ServerState → ServerState → Type 0 where
  accepted :
      (fd : ℕ) (host : Text) (p : ℕ) (s : ServerState)
      → client_live p s ≡ false
      → Step s (add_client fd host p s)
  commanded :
      (fd : ℕ) (msg : Message) (now q : ℕ) (monitor : Option ConnectionHealthMonitor)
      (s : ServerState)
      → channel_live q s ≡ false
      → Step s (dispatch fd msg now q s monitor).state
  disconnected : (fd : ℕ) (s : ServerState) → Step s (remove_client fd s)

pub data Reach (s : ServerState) : ServerState → Type 0 where
  here : Reach s s
  next : {t u : ServerState} → Reach s t → Step t u → Reach s u
