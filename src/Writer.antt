-- ===== src/Writer.antt =====
-- The database side: errors, records, the interface, and the in-memory implementation.
pub mod Error
pub mod Data
pub mod Contract
pub mod Graph
pub mod Mock
