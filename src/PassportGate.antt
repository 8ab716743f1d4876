-- ===== src/PassportGate.antt =====
-- packages/passport-gate: the decision engine that turns a Passport's proof into a decision.
pub mod Platform
pub mod Types
pub mod Primitives
pub mod Validation
pub mod Reasons
pub mod Settlement
pub mod Amounts
pub mod Engine
pub mod Evaluation
pub mod Sample
mod Tests
