-- ===== src/Protocol.antt =====
-- The messages of the protocol (include/b, src/b): parsed lines, the replies' texts, and the
-- results that commands hand to the network layer.
pub mod Message
pub mod Parser
pub mod Result
pub mod Replies
