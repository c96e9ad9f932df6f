-- ===== src/Config/Capacity.antt =====
-- The capacity that a checked configuration gives the cache (src/config/mod.rs).
use native.Mathlib.Nat.{mod-eq_of_lt}
use bitcoin_chain_graph.Common.{
  ℕ, ◌*◌, ◌/◌, ◌%◌, ◌^◌, ◌≤◌, ◌<◌, ◌≡◌, arith, false, ltb, ◌==◌, some, length, ltb-false→ge, ◌+◌,
}
use bitcoin_chain_graph.Common.Result.{ok, unless-ok}
use bitcoin_chain_graph.Utxo.Lru.{LruCrate}
use bitcoin_chain_graph.Utxo.Cache.{UtxoCache, new_cache, capacity}
use bitcoin_chain_graph.Utxo.Cache.Shards.{ShardsOk}
use bitcoin_chain_graph.Utxo.Cache.Bounds.{new_cache-ShardsOk}
use bitcoin_chain_graph.Config.{Config, validate, cache_capacity}

-- What the checks guarantee.
pub record Valid (c : Config) : Type 0 where
  pub connections : 0 < c.neo4j.max_connections
  pub ordered : c.neo4j.min_connections ≤ c.neo4j.max_connections
  pub transaction_memory : 0 < c.ingestion.max_transaction_memory_mb
  pub cache_memory : 0 < c.performance.utxo_cache_memory_mb
  pub batches : 0 < c.performance.parallel_batches

positive : (n : ℕ) → (n == 0) ≡ false → 0 < n
positive n h = ground arith

validate-Valid : (c : Config) → validate c ≡ ok tt → Valid c
unfolding validate
validate-Valid c e =
    let (uri, e1) = unless-ok (length c.neo4j.uri == 0) _ _ tt e in
    let (max_, e2) = unless-ok (c.neo4j.max_connections == 0) _ _ tt e1 in
    let (min_, e3) = unless-ok (ltb c.neo4j.max_connections c.neo4j.min_connections) _ _ tt e2 in
    let (memory, e4) = unless-ok (c.ingestion.max_transaction_memory_mb == 0) _ _ tt e3 in
    let (cache, e5) = unless-ok (c.performance.utxo_cache_memory_mb == 0) _ _ tt e4 in
    let (batches, e6) = unless-ok (c.performance.parallel_batches == 0) _ _ tt e5 in
    record {
      connections = positive _ max_;
      ordered = ltb-false→ge _ _ min_;
      transaction_memory = positive _ memory;
      cache_memory = positive _ cache;
      batches = positive _ batches;
    }

-- A configuration that passes the checks, with a cache size that does not overflow, gives a cache:
-- the capacity that is computed is positive, so that the assertion of the constructor holds, and
-- the cache is valid, with room for all that was asked for but fewer than 16 entries.
validate-new_cache :
    (L : LruCrate) (c : Config)
    → validate c ≡ ok tt
    → c.performance.utxo_cache_memory_mb * 1000000 < 2 ^ 64
    → (cache : UtxoCache L.LruCache) × (new_cache L (cache_capacity c.performance) ≡ some cache)
      × ShardsOk L cache.shards
      × (cache_capacity c.performance < capacity L cache + 16)
unfolding cache_capacity
validate-new_cache L c e small =
    let valid = validate-Valid c e in
    let mb = c.performance.utxo_cache_memory_mb in
    let exact : (mb * 1000000) % 2 ^ 64 ≡ mb * 1000000 = mod-eq_of_lt small in
    let enough : 0 < (mb * 1000000) % 2 ^ 64 / 72 = omega (arith, exact, valid.cache_memory) in
    let (cache, made, shards, empty, room) =
      new_cache-ShardsOk L ((mb * 1000000) % 2 ^ 64 / 72) enough in
    (cache, made, shards, omega (arith, room))
