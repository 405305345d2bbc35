-- ===== src/Bonus.antt =====
-- The bonus bot (bonus): a client that answers commands in a channel.
pub mod Formatter
pub mod LineBuffer
pub mod Bot
