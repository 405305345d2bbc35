-- ===== src/Command/Consistency.antt =====
-- Every command keeps the invariant of the server state: the handlers of
-- src/b/CommandDispatcher.cpp and src/b/ChannelCommandHandler.cpp, one by one, and dispatch.
pub mod Rules
pub mod Stable
pub mod Known
pub mod Clients
pub mod Channels
pub mod Run
pub mod Soundness
