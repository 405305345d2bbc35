-- ===== src/Network.antt =====
-- The network layer (src/a/Connection.cpp, src/a/Server.cpp). What the sockets answer is an argument
-- of the operations.
pub mod Connection
pub mod Poll
pub mod Server
pub mod Run
pub mod Watched
pub mod Shutdown
pub mod Opening
