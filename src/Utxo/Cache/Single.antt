-- ===== src/Utxo/Cache/Single.antt =====
-- The operations on one key: `insert`, `remove`, `insert_prewarm` and `get`.
use bitcoin_chain_graph.Common.{
  ℕ, ◌≤◌, ◌<◌, ◌≡◌, ◌≢◌, ◌⊎◌, refl, ◌∙◌, List, ◌∷◌, none, some, length, get_or, set, arith,
  Option-cases, Bool-cases, inl, inr, ite, take_of_length-le, leb, if◌then◌else◌, ltb, ap,
}
use bitcoin_chain_graph.Common.Assoc
use bitcoin_chain_graph.Common.Assoc.{lookup, Distinct}
use bitcoin_chain_graph.Common.Result.{ok, err}
use bitcoin_chain_graph.Writer.Error.{query_failed, cache_miss, same_block_miss}
use bitcoin_chain_graph.Utxo.Key.{UtxoKey, UtxoKey-discrete as dec, num_shards, shard_index}
use bitcoin_chain_graph.Utxo.Key.{shard_index-lt}
use bitcoin_chain_graph.Utxo.Output.{CachedOutput}
use bitcoin_chain_graph.Utxo.OutputId.{TxidText, to_output_id_string}
use bitcoin_chain_graph.Utxo.Lru.{LruCrate}
use bitcoin_chain_graph.Utxo.Lru.Entries.{lookup-promote}
use bitcoin_chain_graph.Utxo.Stats.{record_hit, record_miss}
use bitcoin_chain_graph.Utxo.Cache.{
  UtxoCache, is_some, insert, remove, insert_prewarm, get, get_quiet, shard,
}
use bitcoin_chain_graph.Utxo.Cache.Shards.{
  ShardOk, ShardsOk, find, put-ShardOk, get-ShardOk, pop-ShardOk, set-ShardsOk, find-set_same,
  find-set_update,
}

module _ (L : LruCrate) where
  open L use {
    LruCache, new, put, pop, peek, cap, len, iter, iter-put, iter-get, get_lem, iter-pop, pop_lem,
    peek_lem, len_lem, cap-new, iter-new,
  }

  -- What a shard finds after a `put` that has room for the entry: nothing is evicted.
  put_room :
      (k q : UtxoKey) (v : CachedOutput) (i : ℕ) (s : LruCache)
      → ShardOk L i s
      → (length (iter s) < cap s) ⊎ (lookup dec k (iter s) ≢ none)
      → lookup dec q (iter (put k v s)) ≡ ite (dec q k) (some v) (lookup dec q (iter s))
  unfolding lookup
  put_room k q v i s h room =
      let l = iter s in
      let fits : length ((k, v) ∷ Assoc.remove dec k l) ≤ cap s =
        put_fits (Option-cases (lookup dec k l)) room in
      rw (iter-put k v s, take_of_length-le (cap s) ((k, v) ∷ Assoc.remove dec k l) fits)
        (ground (arith, Assoc.lookup-remove_ne dec k q l))
    where
      put_fits :
          (lookup dec k (iter s) ≡ none) ⊎ ((w : CachedOutput) × (lookup dec k (iter s) ≡ some w))
          → (length (iter s) < cap s) ⊎ (lookup dec k (iter s) ≢ none)
          → length ((k, v) ∷ Assoc.remove dec k (iter s)) ≤ cap s
      put_fits (inl e) (inl lt) = omega (arith, Assoc.length-remove-le dec k (iter s))
      put_fits (inl e) (inr ne) = absurd (ne e)
      put_fits (inr (w, e)) _ = omega (arith, Assoc.length-remove dec k (iter s) w e, h.fits)

  module _ (c : UtxoCache LruCache) (key : UtxoKey) (valid : ShardsOk L c.shards) where
    idx-ShardOk : ShardOk L (shard_index key) (shard L c (shard_index key))
    unfolding shard
    idx-ShardOk = valid.each (shard_index key) (shard_index-lt key)

    -- `insert` keeps a cache valid: no shard is ever over its capacity, holds a key twice, or
    -- holds a key of another shard.
    pub insert-ShardsOk : (output : CachedOutput) → ShardsOk L (insert L key output c).shards
    unfolding insert
    insert-ShardsOk output =
        set-ShardsOk L c.shards _ _ valid (shard_index-lt key)
          (put-ShardOk L key output (shard_index key) _ refl idx-ShardOk)

    -- While the shard of the key has room, or holds the key, an insertion into a valid cache
    -- evicts nothing: it changes what is found under its own key alone.
    find-insert_room :
        (output : CachedOutput) (q : UtxoKey)
        → (length (iter (shard L c (shard_index key))) < cap (shard L c (shard_index key)))
          ⊎ (find L c.shards key ≢ none)
        → find L (insert L key output c).shards q
          ≡ ite (dec q key) (some output) (find L c.shards q)
    unfolding insert shard find
    find-insert_room output q room =
        find-set_update L c.shards key q _ (some output) valid
          (put_room key q output (shard_index key) _ idx-ShardOk room)

    -- On a valid cache, `remove` takes the key out, leaves every other key, says whether the key
    -- was there, and keeps the cache valid.
    remove_lem :
        (q : UtxoKey)
        → ShardsOk L (remove L key c).0.shards
          × (find L (remove L key c).0.shards q ≡ ite (dec q key) none (find L c.shards q))
          × ((remove L key c).1 ≡ is_some (find L c.shards key))
    unfolding remove find shard
    remove_lem q =
        let l = iter (shard L c (shard_index key)) in
        (
          set-ShardsOk L c.shards _ _ valid (shard_index-lt key)
              (pop-ShardOk L key (shard_index key) _ idx-ShardOk),
          find-set_update L c.shards key q _ none valid (
              ap (lookup dec q) (iter-pop key _)
              ∙ Assoc.lookup-remove dec key q l idx-ShardOk.distinct),
          ap is_some (pop_lem key _),
        )

    -- On a valid cache, `insert_prewarm` never evicts: it refuses exactly when the shard of the
    -- key is full, and then every key finds what it did; else the key has the new output, and
    -- every other key what it had. The cache stays valid.
    pub insert_prewarm_lem :
        (output : CachedOutput) (q : UtxoKey)
        → ShardsOk L (insert_prewarm L key output c).0.shards
          × ((insert_prewarm L key output c).1
              ≡ ltb (len (shard L c (shard_index key))) (cap (shard L c (shard_index key))))
          × (find L (insert_prewarm L key output c).0.shards q ≡ (
              if (insert_prewarm L key output c).1
              then ite (dec q key) (some output) (find L c.shards q)
              else find L c.shards q))
    unfolding insert_prewarm insert
    insert_prewarm_lem output q =
        elim (Bool-cases
          (leb (cap (shard L c (shard_index key))) (len (shard L c (shard_index key))))) [
            | inl full ↦ (rw full valid, rw full (ground arith), rw full)
            | inr room ↦
                let lt : length (iter (shard L c (shard_index key)))
                    < cap (shard L c (shard_index key)) =
                  ground (arith, len_lem (shard L c (shard_index key))) in
                (
                  rw room (insert-ShardsOk output),
                  rw room (ground arith),
                  rw room (find-insert_room output q (inl lt)),
                )
          ]

  -- A promotion in one shard changes nothing that a lookup finds.
  pub find-promoted :
      (shards : List LruCache) (i : ℕ) (key q : UtxoKey)
      → ShardsOk L shards
      → i < num_shards
      → let s = (L.get key (get_or shards i (new 1))).0 in
        ShardsOk L (set shards i s) × (find L (set shards i s) q ≡ find L shards q)
  find-promoted shards i key q valid lt = (
    set-ShardsOk L shards i _ valid lt (get-ShardOk L key i _ (valid.each i lt)),
    find-set_same L shards i _ valid
        (λ r at. ap (lookup dec r) (iter-get key _) ∙ lookup-promote key r _) q,
  )

  module _ (T : TxidText) (c : UtxoCache LruCache) (key q : UtxoKey)
      (valid : ShardsOk L c.shards) where
    -- On a valid cache, `get` returns what the cache finds, or the error with the key's output
    -- id; it counts a hit or a miss, its promotion changes nothing that any later look-up finds,
    -- and the cache stays valid.
    pub get-find :
        ShardsOk L (get L T key c).0.shards
        × (find L (get L T key c).0.shards q ≡ find L c.shards q)
        × ((get L T key c).1 ≡ elim (find L c.shards key) [
          | some output ↦ ok output
          | none ↦ err (query_failed (cache_miss (to_output_id_string T key)))
        ])
        × ((get L T key c).0.stats
            ≡ (if is_some (find L c.shards key) then record_hit c.stats else record_miss c.stats))
    unfolding get find shard
    get-find =
        let kept = find-promoted c.shards (shard_index key) key q valid (shard_index-lt key) in
        elim (Option-cases (lookup dec key (iter (shard L c (shard_index key))))) [
          | inl miss ↦ rw (get_lem key _ ∙ miss, get, miss) (kept.0, kept.1, refl, refl)
          | inr (v, hit) ↦ rw (get_lem key _ ∙ hit, get, hit) (kept.0, kept.1, refl, refl)
        ]

    -- `get_quiet` is `get` with no count: the statistics stay as they are.
    pub get_quiet-find :
        ShardsOk L (get_quiet L T key c).0.shards
        × (find L (get_quiet L T key c).0.shards q ≡ find L c.shards q)
        × ((get_quiet L T key c).1 ≡ elim (find L c.shards key) [
          | some output ↦ ok output
          | none ↦ err (query_failed (same_block_miss (to_output_id_string T key)))
        ])
        × ((get_quiet L T key c).0.stats ≡ c.stats)
    unfolding get_quiet find shard
    get_quiet-find =
        let kept = find-promoted c.shards (shard_index key) key q valid (shard_index-lt key) in
        elim (Option-cases (lookup dec key (iter (shard L c (shard_index key))))) [
          | inl miss ↦ rw (get_lem key _ ∙ miss, get_quiet, miss) (kept.0, kept.1, refl, refl)
          | inr (v, hit) ↦ rw (get_lem key _ ∙ hit, get_quiet, hit) (kept.0, kept.1, refl, refl)
        ]
