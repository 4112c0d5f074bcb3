-- ===== src/Orderer.antt =====
-- include/conversation_orderer.hpp: the client's per-conversation reorderer.
pub mod Channel
pub mod Invariant
pub mod Keeps
pub mod History
pub mod Seen
pub mod Reorder
pub mod Expiry
pub mod Conversations
pub mod Origin
pub mod Projection
pub mod Isolation
pub mod Session
mod Examples
