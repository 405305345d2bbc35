-- ===== src/Command.antt =====
-- The commands (src/b/CommandDispatcher.cpp, src/b/ChannelCommandHandler.cpp,
-- src/b/DisconnectNotifier.cpp): what each does to the server state and whom it answers.
pub mod Broadcast
pub mod Registration
pub mod Membership
pub mod Texting
pub mod Moderation
pub mod Mode
pub mod Dispatch
pub mod Disconnect
pub mod Consistency
