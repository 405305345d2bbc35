-- ===== src/State/Modes.antt =====
-- src/c/ChannelModes.cpp: the modes i, t, k and l of a channel.
pub mod Laws
use irc.Common.{
  ◌&&◌, ◌==◌, ◌-◌, ◌^◌, ℤ, pos, negsuc, minus_one, int_eq, Bool, true, false, ◌||◌, [], Text, leb,
  if◌then◌else◌,
}

-- No limit, or a positive one that an `int` holds.
abbrev pub limit_ok : ℤ → Bool
limit_ok (pos n) = leb 1 n && leb n (2 ^ 31 - 1)
limit_ok (negsuc n) = n == 0

pub record ChannelModes : Type 0 where
  pub invite_only : Bool
  pub topic_restricted : Bool
  pub has_key : Bool
  pub key : Text
  -- -1 where there is no limit
  pub limit : ℤ

-- ChannelModes::ChannelModes()
abbrev pub channel_modes : ChannelModes
channel_modes = record {
  invite_only = false;
  topic_restricted = false;
  has_key = false;
  key = [];
  limit = minus_one;
}

unfoldable pub set_invite_only : Bool → ChannelModes → ChannelModes
set_invite_only b m = record m { invite_only = b }

unfoldable pub set_topic_restricted : Bool → ChannelModes → ChannelModes
set_topic_restricted b m = record m { topic_restricted = b }

unfoldable pub set_key : Text → ChannelModes → ChannelModes
set_key k m = record m { has_key = true; key = k }

unfoldable pub unset_key : ChannelModes → ChannelModes
unset_key m = record m { has_key = false; key = [] }

-- limit >= 1
abbrev pub at_least_one : ℤ → Bool
at_least_one (pos n) = leb 1 n
at_least_one (negsuc n) = false

unfoldable pub set_limit : ℤ → ChannelModes → ChannelModes
set_limit n m = if at_least_one n || int_eq n minus_one then record m { limit = n } else m

unfoldable pub unset_limit : ChannelModes → ChannelModes
unset_limit m = record m { limit = minus_one }
