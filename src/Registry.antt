-- ===== src/Registry.antt =====
-- backend/src/chain/registry.ts: reading a published run back from the chain, and its verification.
pub mod Client
pub mod Search
pub mod Ranges
pub mod Match
pub mod Logs
pub mod Load
pub mod Verify
pub mod Events
pub mod Loading
pub mod Laws
pub mod Gate
mod Tests
