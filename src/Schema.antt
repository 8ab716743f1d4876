-- ===== src/Schema.antt =====
-- backend/src/launch-contract/schema.ts: what the schema of a Launch Contract asks of its values.
pub mod SafeUse
mod Tests
