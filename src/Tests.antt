-- ===== src/Tests.antt =====
-- Concrete crates and databases, and the theorems at concrete inputs.
pub mod Instances
pub mod Chain
pub mod Database
pub mod Batch
mod Cache
mod File
mod Writer
mod Ingestion
mod Parser
mod Notify
mod Fork
mod Live
mod Rpc
