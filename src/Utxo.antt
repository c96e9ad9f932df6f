-- ===== src/Utxo.antt =====
-- The UTXO cache (src/domain/utxo/cache.rs): its keys and values, the interface of the `lru`
-- crate, the statistics and the sharded cache.
pub mod Key
pub mod Output
pub mod OutputId
pub mod Lru
pub mod Stats
pub mod Cache
pub mod File
pub mod Fallback
