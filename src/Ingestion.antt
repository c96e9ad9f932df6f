-- ===== src/Ingestion.antt =====
-- The ingestion orchestrator (src/domain/ingestion.rs).
pub mod Chunks
pub mod Resume
pub mod Fork
pub mod Buckets
pub mod Batch
pub mod Session
pub mod Single
pub mod Live
pub mod Conversions
pub mod Orchestrator
pub mod Amounts
