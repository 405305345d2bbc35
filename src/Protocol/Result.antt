-- ===== src/Protocol/Result.antt =====
-- src/b/CommandResult.cpp: what a command asks the network layer to send, and whether to disconnect.
use irc.Common.{ℕ, Bool, false, List, [], ◌∷◌, ◌++◌, Text}

pub record OutgoingMessage : Type 0 where
  pub fd : ℕ
  pub message : Text

pub record CommandResult : Type 0 where
  pub replies : List OutgoingMessage
  pub should_disconnect : Bool

-- CommandResult::CommandResult()
abbrev pub no_result : CommandResult
no_result = record { replies = []; should_disconnect = false }

unfoldable pub add_reply : ℕ → Text → CommandResult → CommandResult
add_reply fd message r = record r {
  replies = r.replies ++ record { fd = fd; message = message } ∷ [];
}
