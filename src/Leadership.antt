-- ===== src/Leadership.antt =====
-- backend/src/leadership/leader.ts: who may write. A process holds a session of the database that
-- owns an advisory lock, and a fence that grows with every holder.
pub mod Coordinator
pub mod Guard
pub mod Invariant
pub mod Stopped
pub mod Sequential
mod Tests
