-- ===== src/GateService.antt =====
-- backend/src/passport-gate/service.ts: the proof of a Passport from its verification on the chain,
-- and the check that asks the engine about the newest one.
pub mod World
pub mod Proof
pub mod Current
pub mod Request
pub mod Check
pub mod Target
pub mod Newest
pub mod Confirmed
pub mod Vouched
pub mod Laws
pub mod Sample
mod Tests
