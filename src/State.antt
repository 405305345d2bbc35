-- ===== src/State.antt =====
-- The application state (include/c, src/c): names, clients, channels, and the server state that
-- owns them.
pub mod Names
pub mod Modes
pub mod Client
pub mod Channel
pub mod Registry
pub mod Server
