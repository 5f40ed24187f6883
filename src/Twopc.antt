-- ===== src/Twopc.antt =====
-- internal/twopc: two-phase commit between the clusters of a cross-shard transfer.
pub mod Messages
pub mod Collect
pub mod Node
pub mod Coordinator
pub mod Participant
pub mod Bridge
pub mod Authority
pub mod Reply
pub mod Decision
pub mod Replies
pub mod Redelivery
mod Tests
