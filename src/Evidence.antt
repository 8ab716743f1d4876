-- ===== src/Evidence.antt =====
-- backend/src/evidence/validate.ts: evidence that was loaded from the chain, against its own contract.
pub mod Policy
pub mod Recompute
pub mod Discovery
pub mod Payments
pub mod Validate
pub mod Percentile
pub mod Laws
pub mod Delivery
pub mod Fixtures
pub mod Sample
mod Tests
