-- ===== src/Utxo/Cache/Batch.antt =====
-- The batch look-ups against single look-ups.
use bitcoin_chain_graph.Common.{◌≡◌, refl, List, [], none, arith, ◌&&◌, not, if◌then◌else◌}
use bitcoin_chain_graph.Common.Assoc.{lookup}
use bitcoin_chain_graph.Utxo.Key.{UtxoKey}
use bitcoin_chain_graph.Utxo.Lru.{LruCrate}
use bitcoin_chain_graph.Utxo.Stats.{StatsOk}
use bitcoin_chain_graph.Utxo.Cache.{UtxoCache, found_get, is_some, group_by_shard, get_many}
use bitcoin_chain_graph.Utxo.Cache.Shards.{ShardsOk, find}
use bitcoin_chain_graph.Utxo.Cache.Groups.{
  member, concat, groups_of, groups_of-Homed, groups_of_lem, length-group_by_shard,
}
use bitcoin_chain_graph.Utxo.Cache.Collect.{Collects, ShowsAll, collect_shards-Collects}

module _ (L : LruCrate) (keys : List UtxoKey) (c : UtxoCache L.LruCache) where
  module _ (valid : ShardsOk L c.shards) (st : StatsOk c.stats) where
    get_many-Collects :
        ShowsAll L (find L c.shards) (get_many L keys c).0.shards
        × Collects
            (find L c.shards)
            (concat (groups_of keys))
            (record { found = []; misses = []; stats = c.stats })
            (record {
              found = (get_many L keys c).1;
              misses = (get_many L keys c).2;
              stats = (get_many L keys c).0.stats;
            })
    unfolding get_many
    get_many-Collects =
        collect_shards-Collects L (find L c.shards) keys (group_by_shard keys) 0 c.shards _
          (groups_of-Homed keys) (omega (arith, length-group_by_shard keys))
          (record { valid = valid; shows = λ q. refl }) st

    -- On a valid cache whose counters are 64-bit numbers, `get_many` finds exactly what single
    -- look-ups of its keys would, reports exactly the keys that are absent as misses, leaves what
    -- the cache holds as it is, and keeps the cache valid.
    pub get_many-find :
        (q : UtxoKey)
        → ShardsOk L (get_many L keys c).0.shards
          × (find L (get_many L keys c).0.shards q ≡ find L c.shards q)
          × (found_get q (get_many L keys c).1
              ≡ (if member q keys then find L c.shards q else none))
          × (member q (get_many L keys c).2 ≡ (member q keys && not (is_some (find L c.shards q))))
    unfolding member lookup
    get_many-find q =
        let (shown, got) = get_many-Collects in
        (
          shown.valid,
          shown.shows q,
          ground (arith, got.found_each q, groups_of_lem q keys),
          ground (arith, got.missed_each q, groups_of_lem q keys),
        )
