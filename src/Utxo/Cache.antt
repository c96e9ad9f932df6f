-- ===== src/Utxo/Cache.antt =====
-- `UtxoCache` (src/domain/utxo/cache.rs): sixteen LRU shards, each behind a lock, with the shared
-- statistics. A method takes the cache and returns the new one; one call runs at a time, and the
-- loops of the batch methods are written out over the index lists that the code builds.
pub mod Shards
pub mod Single
pub mod Bounds
pub mod Groups
pub mod Collect
pub mod Batch
pub mod Removal
use bitcoin_chain_graph.Common.{
  ℕ, suc, ◌+◌, ◌/◌, max, Bool, true, false, List, [], ◌∷◌, ◌++◌, map, Option, none, some, length,
  get_or, get_elem?, set, take, replicate, ltb, leb, ◌==◌, if◌then◌else◌,
}
use bitcoin_chain_graph.Common.Assoc
use bitcoin_chain_graph.Common.Result.{Result, ok, err}
use bitcoin_chain_graph.Writer.Error.{
  WriterError, query_failed, cache_miss, same_block_miss, missing_in_cache,
}
use bitcoin_chain_graph.Utxo.Key.{UtxoKey, UtxoKey-discrete, num_shards, shard_index}
use bitcoin_chain_graph.Utxo.Output.{CachedOutput}
use bitcoin_chain_graph.Utxo.OutputId.{TxidText, to_output_id_string}
use bitcoin_chain_graph.Utxo.Lru.{LruCrate}
use bitcoin_chain_graph.Utxo.Stats.{
  Stats, new_stats, record_hit, record_miss, record_insert, record_removal, adjust_stats_misses,
}

pub record UtxoCache (S : Type 0) : Type 0 where
  pub shards : List S
  pub stats : Stats
  pub prewarm_mode : Bool

-- The `HashMap`s of the batch lookups.
abbrev pub FoundMap : Type 0
FoundMap = List (UtxoKey × CachedOutput)

abbrev pub found_insert : UtxoKey → CachedOutput → FoundMap → FoundMap
found_insert = Assoc.insert UtxoKey-discrete

abbrev pub found_get : UtxoKey → FoundMap → Option CachedOutput
found_get = Assoc.lookup UtxoKey-discrete

abbrev pub is_some : Option CachedOutput → Bool
is_some none = false
is_some (some o) = true

-- What the loops of `get_many` have collected so far.
pub record Collected : Type 0 where
  pub found : FoundMap
  pub misses : List UtxoKey
  pub stats : Stats

-- `by_shard`: the position of each key, under the key's shard.
unfoldable pub group_from : ℕ → List UtxoKey → List (List ℕ) → List (List ℕ)
group_from i [] by_shard = by_shard
group_from i (key ∷ keys) by_shard =
    let idx = shard_index key in
    group_from (suc i) keys (set by_shard idx (get_or by_shard idx [] ++ i ∷ []))

unfoldable pub group_by_shard : List UtxoKey → List (List ℕ)
unfolding group_from
group_by_shard keys = group_from 0 keys (replicate num_shards [])

module _ (L : LruCrate) where
  open L use {LruCache, new, put, get as lru_get, peek, pop, len, cap}

  -- Sixteen shards of one capacity. `none` is the failed assertion.
  unfoldable pub new_cache : ℕ → Option (UtxoCache LruCache)
  new_cache capacity =
      if ltb 0 capacity
      then some (record {
        shards = replicate num_shards (new (max 1 (capacity / num_shards)));
        stats = new_stats;
        prewarm_mode = false;
      })
      else none

  -- `self.shards[idx]`: there are sixteen, and every index that is used is below that.
  unfoldable pub shard : UtxoCache LruCache → ℕ → LruCache
  shard c idx = get_or c.shards idx (new 1)

  unfoldable pub insert : UtxoKey → CachedOutput → UtxoCache LruCache → UtxoCache LruCache
  insert key output c =
      let idx = shard_index key in
      record c {
        shards = set c.shards idx (put key output (shard c idx));
        stats = record_insert c.stats;
      }

  unfoldable pub remove : UtxoKey → UtxoCache LruCache → UtxoCache LruCache × Bool
  remove key c =
      let idx = shard_index key in
      let (s, value) = pop key (shard c idx) in
      let removed = is_some value in
      (
        record c {
          shards = set c.shards idx s;
          stats = if removed then record_removal c.stats else c.stats;
        },
        removed,
      )

  unfoldable pub contains : UtxoKey → UtxoCache LruCache → Bool
  contains key c = is_some (peek key (shard c (shard_index key)))

  -- One round of the inner loop of `get_many`, on the locked shard.
  unfoldable pub collect : UtxoKey → LruCache → Collected → LruCache × Collected
  collect key s b =
      let (s', value) = lru_get key s in
      elim value [
        | none ↦ (s', record b { misses = b.misses ++ key ∷ []; stats = record_miss b.stats })
        | some output ↦
            (s', record b { found = found_insert key output b.found; stats = record_hit b.stats })
      ]

  -- `&keys[i]`: the positions come from `enumerate`, so that each is in bounds.
  unfoldable pub collect_elem : Option UtxoKey → LruCache → Collected → LruCache × Collected
  unfolding collect
  collect_elem none s b = (s, b)
  collect_elem (some key) s b = collect key s b

  -- `for &i in indices`.
  unfoldable pub collect_at : List UtxoKey → List ℕ → LruCache → Collected → LruCache × Collected
  unfolding collect_elem
  collect_at keys [] s b = (s, b)
  collect_at keys (i ∷ indices) s b =
      let (s', b') = collect_elem (get_elem? keys i) s b in collect_at keys indices s' b'

  -- `for (shard_idx, indices) in by_shard.iter().enumerate()`.
  unfoldable pub collect_shards :
      List UtxoKey → ℕ → List (List ℕ) → List LruCache → Collected → List LruCache × Collected
  unfolding collect_at
  collect_shards keys idx [] shards b = (shards, b)
  collect_shards keys idx ([] ∷ by_shard) shards b = collect_shards keys (suc idx) by_shard shards b
  collect_shards keys idx ((i ∷ indices) ∷ by_shard) shards b =
      let (s, b') = collect_at keys (i ∷ indices) (get_or shards idx (new 1)) b in
      collect_shards keys (suc idx) by_shard (set shards idx s) b'

  unfoldable pub get_many :
      List UtxoKey → UtxoCache LruCache → UtxoCache LruCache × FoundMap × List UtxoKey
  unfolding collect_shards group_by_shard
  get_many keys c =
      let (shards, b) =
        collect_shards keys 0 (group_by_shard keys) c.shards
          (record { found = []; misses = []; stats = c.stats }) in
      (record c { shards = shards; stats = b.stats }, b.found, b.misses)

  unfoldable pub pop_elem : Option UtxoKey → LruCache → Stats → LruCache × Stats
  pop_elem none s stats = (s, stats)
  pop_elem (some key) s stats =
      let (s', value) = pop key s in (s', if is_some value then record_removal stats else stats)

  -- `for &i in indices` of `remove_many`.
  unfoldable pub pop_at : List UtxoKey → List ℕ → LruCache → Stats → LruCache × Stats
  unfolding pop_elem
  pop_at keys [] s stats = (s, stats)
  pop_at keys (i ∷ indices) s stats =
      let (s', stats') = pop_elem (get_elem? keys i) s stats in pop_at keys indices s' stats'

  unfoldable pub pop_shards :
      List UtxoKey → ℕ → List (List ℕ) → List LruCache → Stats → List LruCache × Stats
  unfolding pop_at
  pop_shards keys idx [] shards stats = (shards, stats)
  pop_shards keys idx ([] ∷ by_shard) shards stats = pop_shards keys (suc idx) by_shard shards stats
  pop_shards keys idx ((i ∷ indices) ∷ by_shard) shards stats =
      let (s, stats') = pop_at keys (i ∷ indices) (get_or shards idx (new 1)) stats in
      pop_shards keys (suc idx) by_shard (set shards idx s) stats'

  unfoldable pub remove_many : List UtxoKey → UtxoCache LruCache → UtxoCache LruCache
  unfolding pop_shards group_by_shard
  remove_many keys c =
      let (shards, stats) = pop_shards keys 0 (group_by_shard keys) c.shards c.stats in
      record c { shards = shards; stats = stats }

  unfoldable pub adjust_misses : ℕ → UtxoCache LruCache → UtxoCache LruCache
  adjust_misses count c = record c { stats = adjust_stats_misses count c.stats }

  unfoldable pub reset_stats : UtxoCache LruCache → UtxoCache LruCache
  reset_stats c = record c { stats = new_stats }

  unfoldable pub sum_shards : (LruCache → ℕ) → List LruCache → ℕ
  sum_shards f [] = 0
  sum_shards f (s ∷ shards) = f s + sum_shards f shards

  unfoldable pub cache_len : UtxoCache LruCache → ℕ
  unfolding sum_shards
  cache_len c = sum_shards len c.shards

  unfoldable pub is_empty : UtxoCache LruCache → Bool
  unfolding cache_len
  is_empty c = cache_len c == 0

  unfoldable pub capacity : UtxoCache LruCache → ℕ
  unfolding sum_shards
  capacity c = sum_shards cap c.shards

  unfoldable pub enable_prewarm_mode : UtxoCache LruCache → UtxoCache LruCache
  enable_prewarm_mode c = record c { prewarm_mode = true }

  unfoldable pub disable_prewarm_mode : UtxoCache LruCache → UtxoCache LruCache
  disable_prewarm_mode c = record c { prewarm_mode = false }

  unfoldable pub insert_prewarm :
      UtxoKey → CachedOutput → UtxoCache LruCache → UtxoCache LruCache × Bool
  insert_prewarm key output c =
      let idx = shard_index key in
      let s = shard c idx in
      if leb (cap s) (len s) then (c, false) else (
        record c { shards = set c.shards idx (put key output s); stats = record_insert c.stats },
        true,
      )

  unfoldable pub any_room : List LruCache → Bool
  any_room [] = false
  any_room (s ∷ shards) = if ltb (len s) (cap s) then true else any_room shards

  unfoldable pub has_capacity : UtxoCache LruCache → Bool
  unfolding any_room
  has_capacity c = any_room c.shards

  -- The methods that name a key in their error.
  module _ (T : TxidText) where
    unfoldable pub get :
        UtxoKey → UtxoCache LruCache → UtxoCache LruCache × Result WriterError CachedOutput
    get key c =
        let idx = shard_index key in
        let (s, value) = lru_get key (shard c idx) in
        let shards = set c.shards idx s in
        elim value [
          | some output ↦ (record c { shards = shards; stats = record_hit c.stats }, ok output)
          | none ↦ (
            record c { shards = shards; stats = record_miss c.stats },
            err (query_failed (cache_miss (to_output_id_string T key))),
          )
        ]

    unfoldable pub get_quiet :
        UtxoKey → UtxoCache LruCache → UtxoCache LruCache × Result WriterError CachedOutput
    get_quiet key c =
        let idx = shard_index key in
        let (s, value) = lru_get key (shard c idx) in
        let c' = record c { shards = set c.shards idx s } in
        elim value [
          | some output ↦ (c', ok output)
          | none ↦ (c', err (query_failed (same_block_miss (to_output_id_string T key))))
        ]

    -- `missing_in_cache` and its three arguments, with at most five sample ids.
    unfoldable pub get_many_or_fail :
        List UtxoKey → UtxoCache LruCache → UtxoCache LruCache × Result WriterError FoundMap
    get_many_or_fail keys c =
        let (c', found, misses) = get_many keys c in
        elim misses [
          | [] ↦ (c', ok found)
          | m ∷ ms ↦ (
            c',
            err (
                query_failed (
                  missing_in_cache (length (m ∷ ms)) (length keys)
                    (map (to_output_id_string T) (take 5 (m ∷ ms))))),
          )
        ]
