-- ===== src/Domain.antt =====
-- The data of the backend: backend/src/domain and the data of backend/src/launch-contract.
pub mod Json
pub mod Contract
pub mod Types
pub mod Gates
pub mod Sample
