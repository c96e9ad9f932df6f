-- ===== src/Utxo/Cache/Bounds.antt =====
-- A new cache, and the total number of entries against the total capacity.
use bitcoin_chain_graph.Common.{
  ℕ, zero, suc, ◌*◌, ◌/◌, ◌<◌, ◌≡◌, refl, some, replicate, arith, max, get_or-replicate_lt, lt→ltb,
  false,
}
use bitcoin_chain_graph.Utxo.Key.{num_shards}
use bitcoin_chain_graph.Utxo.Lru.{LruCrate}
use bitcoin_chain_graph.Utxo.Stats.{new_stats}
use bitcoin_chain_graph.Utxo.Cache.{UtxoCache, new_cache, cache_len, capacity, sum_shards}
use bitcoin_chain_graph.Utxo.Cache.Shards.{ShardsOk, new-ShardOk}

module _ (L : LruCrate) where
  open L use {LruCache, new, cap, len, iter, len_lem, cap-new, iter-new}

  sum_shards-replicate :
      (f : LruCache → ℕ) (n : ℕ) (s : LruCache) → sum_shards L f (replicate n s) ≡ n * f s
  unfolding sum_shards
  sum_shards-replicate f zero s = omega arith
  sum_shards-replicate f (suc n) s = omega (arith, sum_shards-replicate f n s)

  pub replicate-ShardsOk : (n : ℕ) → 0 < n → ShardsOk L (replicate num_shards (new n))
  replicate-ShardsOk n pos = record {
    sixteen = refl;
    each = λ i lt. rw (get_or-replicate_lt num_shards i (new n) (new 1) lt) (new-ShardOk L n i pos);
  }

  -- A positive capacity always gives a valid cache of sixteen empty shards; its total capacity is
  -- the requested one rounded down to a multiple of 16, and 16 where that would be 0.
  pub new_cache-ShardsOk :
      (requested : ℕ)
      → 0 < requested
      → (c : UtxoCache LruCache) × (new_cache L requested ≡ some c)
        × ShardsOk L c.shards
        × (cache_len L c ≡ 0)
        × (capacity L c ≡ 16 * max 1 (requested / 16))
  unfolding new_cache cache_len capacity
  new_cache-ShardsOk requested pos =
      let n = max 1 (requested / num_shards) in
      (
        record { shards = replicate num_shards (new n); stats = new_stats; prewarm_mode = false },
        rw (lt→ltb 0 requested pos),
        replicate-ShardsOk n (omega arith),
        rw (sum_shards-replicate len num_shards (new n), len_lem (new n), iter-new n),
        rw (sum_shards-replicate cap num_shards (new n), cap-new n),
      )
