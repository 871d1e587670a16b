-- ===== src/Consensus.antt =====
-- The consensus engine (pkg/did/consensus).
pub mod Msg
pub mod State
pub mod Engine
pub mod Send
pub mod Blocks
pub mod Round
pub mod Votes
pub mod Handlers
pub mod Frame
pub mod Keeps
pub mod Invariant
pub mod Progress
pub mod Safety
pub mod Rounds
pub mod Events
pub mod New
pub mod Handled
pub mod Received
pub mod Reachable
pub mod Commit
pub mod Quorum
pub mod Overlap
pub mod Authentic
pub mod Channels
