-- ===== src/Protocol/Message.antt =====
-- src/b/Message.cpp: a parsed line. The empty command marks a line that is no command.
use irc.Common.{ℕ, Bool, List, [], Text, length, get_or, ltb}

pub record Message : Type 0 where
  pub prefix : Text
  pub command : Text
  pub params : List Text

-- Message::Message()
abbrev pub no_message : Message
no_message = record { prefix = []; command = []; params = [] }

abbrev pub get_param_count : Message → ℕ
get_param_count m = length m.params

-- The empty text where the index is out of range.
unfoldable pub get_single_param : ℕ → Message → Text
get_single_param i m = get_or m.params i []

unfoldable pub has_param : ℕ → Message → Bool
has_param i m = ltb i (length m.params)
