-- ===== src/Utxo/File/Reload.antt =====
-- `load_from_file` on the file of a saved cache.
use bitcoin_chain_graph.Common.{
  ℕ, ◌≤◌, ◌<◌, ◌^◌, ◌≡◌, refl, ap, ◌∙◌, [], map, some, length, get_or, All,
}
use bitcoin_chain_graph.Common.Assoc.{lookup}
use bitcoin_chain_graph.Common.Result.{ok}
use bitcoin_chain_graph.Utxo.Key.{
  UtxoKey, UtxoKey-discrete as dec, num_shards, shard_index, shard_index-lt,
}
use bitcoin_chain_graph.Utxo.Lru.{LruCrate}
use bitcoin_chain_graph.Utxo.Cache.{UtxoCache, cache_len}
use bitcoin_chain_graph.Utxo.Cache.Shards.{ShardsOk, find}
use bitcoin_chain_graph.Utxo.File.{Crc32, all_entries, file_contents}
use bitcoin_chain_graph.Utxo.File.Load.{load_shards, load_from_file}
use bitcoin_chain_graph.Utxo.File.EntryTrip.{EntryOk}
use bitcoin_chain_graph.Utxo.File.Replay.{load_shards-iter, length-load_shards}
use bitcoin_chain_graph.Utxo.File.Reading.{read_file-file_contents}
use bitcoin_chain_graph.Utxo.File.Placement.{count-place}
use bitcoin_chain_graph.Utxo.File.Atomic.{all_entries-length}

module _ (C : Crc32) (L : LruCrate) where
  open L use {LruCache, new, cap, iter}

  module _ (c fresh : UtxoCache LruCache) (height : ℕ) (valid : ShardsOk L c.shards)
      (empty : ShardsOk L fresh.shards) (typed : All EntryOk (all_entries L c.shards))
      (small : cache_len L c < 2 ^ 64)
      (clear : (i : ℕ)
        → i < num_shards
        → (iter (get_or fresh.shards i (new 1)) ≡ [])
          × (length (iter (get_or c.shards i (new 1))) ≤ cap (get_or fresh.shards i (new 1)))) where
    loaded : load_from_file C L (some (file_contents C L c height)) fresh ≡ (
      record fresh { shards = load_shards L 0 (map iter c.shards) fresh.shards },
      ok (cache_len L c),
    )
    unfolding load_from_file cache_len
    loaded =
        rw (read_file-file_contents C L c height valid typed small, load_from_file)
          (ap
            (λ n.
              (record fresh { shards = load_shards L 0 (map iter c.shards) fresh.shards }, ok n))
            (count-place L c.shards ∙ all_entries-length L c.shards))

    -- Saving a valid cache, whose entries are in range for their types and fewer than 2^64, and
    -- loading the file into an empty valid cache with room for every shard gives back every
    -- shard, entry for entry and in the same order of use, and counts all entries. The loaded
    -- cache is valid and finds under every key what the saved one did.
    pub load_from_file-file_contents :
        (i : ℕ) (q : UtxoKey)
        → i < num_shards
        → let (c', result) = load_from_file C L (some (file_contents C L c height)) fresh in
          (result ≡ ok (cache_len L c))
          × ShardsOk L c'.shards
          × (iter (get_or c'.shards i (new 1)) ≡ iter (get_or c.shards i (new 1)))
          × (find L c'.shards q ≡ find L c.shards q)
    load_from_file-file_contents i q lt =
        let shards = load_shards L 0 (map iter c.shards) fresh.shards in
        let each = λ (j : ℕ) (at : j < num_shards).
          load_shards-iter L c.shards fresh.shards valid empty j at (clear j at).0 (clear j at).1 in
        let there : ShardsOk L shards = record {
          sixteen = length-load_shards L 0 (map iter c.shards) fresh.shards ∙ empty.sixteen;
          each = λ j at. (each j at).1;
        } in
        rw loaded (
          refl,
          there,
          (each i lt).0,
          unfold find in ap (lookup dec q) (each (shard_index q) (shard_index-lt q)).0,
        )
