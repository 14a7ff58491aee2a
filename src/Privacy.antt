-- ===== src/Privacy.antt =====
-- The packages privacy, privacy/model and privacy/store.
pub mod Endpoints
pub mod Balancer
pub mod Pseudonymizer
pub mod Generator
pub mod Adapter
pub mod Gateway
pub mod Store
