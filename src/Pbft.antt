-- ===== src/Pbft.antt =====
-- internal/pbft: linear PBFT within one cluster.
pub mod Crypto
pub mod Messages
pub mod Certificate
pub mod State
pub mod Locks
pub mod Execute
pub mod Validate
pub mod Phases
pub mod NewView
pub mod ViewChange
pub mod Control
pub mod Client
mod Tests
pub mod Start
pub mod Discard
pub mod Signing
pub mod Digests
pub mod Sample
pub mod Safety
pub mod Handle
