-- ===== src/Store.antt =====
-- backend/src/db/store.ts: the run and payment repository.
pub mod State
pub mod Payments
pub mod Capacity
pub mod Lifecycle
pub mod Queries
pub mod Writes
pub mod Steps
mod Tests
