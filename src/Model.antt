-- ===== src/Model.antt =====
-- The data that the components share: request bodies and payloads (JSON values), and the state
-- that `SQLiteStore` and `MockStore` hand to every mutator.
pub mod Json
pub mod State
pub mod Store
pub mod Metrics
