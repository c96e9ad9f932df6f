-- ===== src/Utxo/Cache/Collect.antt =====
-- The loops of `get_many`: what they collect from a cache that stands for a map from keys to
-- outputs, whatever the grouping of the keys.
use bitcoin_chain_graph.Common.{
  ℕ, suc, ◌+◌, ◌-◌, ◌≤◌, ◌<◌, ◌≡◌, refl, sym, ap, ◌∙◌, List, [], ◌∷◌, ◌++◌, map, Option, none, some,
  length, get_or, get_elem?, set, All, arith, ◌||◌, ◌&&◌, not, Option-cases, inl, inr,
  length-append, if◌then◌else◌,
}
use bitcoin_chain_graph.Common.Assoc
use bitcoin_chain_graph.Common.Assoc.{lookup}
use bitcoin_chain_graph.Utxo.Key.{UtxoKey, UtxoKey-discrete as dec, num_shards, shard_index}
use bitcoin_chain_graph.Utxo.Output.{CachedOutput}
use bitcoin_chain_graph.Utxo.Lru.{LruCrate}
use bitcoin_chain_graph.Utxo.Lru.Entries.{lookup-promote}
use bitcoin_chain_graph.Utxo.Stats.{record_hit, record_miss, fetch_add, StatsOk}
use bitcoin_chain_graph.Utxo.Cache.{
  Collected, found_get, is_some, collect, collect_elem, collect_at, collect_shards,
}
use bitcoin_chain_graph.Utxo.Cache.Shards.{
  ShardOk, ShardsOk, find, get-ShardOk, set-ShardsOk, find-set_same,
}
use bitcoin_chain_graph.Utxo.Cache.Groups.{
  member, member-append, resolve, resolve_in, resolve_out, concat, Homed,
}

abbrev pub or_else : Option CachedOutput → Option CachedOutput → Option CachedOutput
or_else (some v) r = some v
or_else none r = r

-- From `b` to `b'` the keys `ks` were looked up in a cache that stands for `view`.
pub record Collects (view : UtxoKey → Option CachedOutput) (ks : List UtxoKey) (b b' : Collected)
    : Type 0 where
  pub found_each :
      (q : UtxoKey)
      → found_get q b'.found
        ≡ (if member q ks then or_else (view q) (found_get q b.found) else found_get q b.found)
  pub missed_each :
      (q : UtxoKey)
      → member q b'.misses ≡ (member q b.misses || (member q ks && not (is_some (view q))))
  pub grows : length b.misses ≤ length b'.misses
  pub within : length b'.misses ≤ length b.misses + length ks
  pub hits : b'.stats.hits ≡ fetch_add b.stats.hits (length b.misses + length ks - length b'.misses)
  pub misses : b'.stats.misses ≡ fetch_add b.stats.misses (length b'.misses - length b.misses)
  pub inserts : b'.stats.inserts ≡ b.stats.inserts
  pub removals : b'.stats.removals ≡ b.stats.removals
  pub neo4j_fallbacks : b'.stats.neo4j_fallbacks ≡ b.stats.neo4j_fallbacks

module _ (view : UtxoKey → Option CachedOutput) where
  pub Collects-refl : (b : Collected) → StatsOk b.stats → Collects view [] b b
  unfolding member
  Collects-refl b h = record {
    found_each = λ q. refl;
    missed_each = λ q. ground arith;
    grows = omega arith;
    within = omega arith;
    hits = omega arith;
    misses = omega arith;
    inserts = refl;
    removals = refl;
    neo4j_fallbacks = refl;
  }

  pub Collects-trans :
      (ks ls : List UtxoKey) (b b' b'' : Collected)
      → Collects view ks b b'
      → Collects view ls b' b''
      → Collects view (ks ++ ls) b b''
  Collects-trans ks ls b b' b'' h g = record {
    found_each = λ q. ground (arith, h.found_each q, g.found_each q, member-append q ks ls);
    missed_each = λ q. ground (arith, h.missed_each q, g.missed_each q, member-append q ks ls);
    grows = omega (arith, h.grows, g.grows);
    within = omega (arith, h.within, g.within, length-append ks ls);
    hits = omega (arith, h.hits, g.hits, h.grows, g.grows, h.within, g.within, length-append ks ls);
    misses = omega (arith, h.misses, g.misses, h.grows, g.grows);
    inserts = g.inserts ∙ h.inserts;
    removals = g.removals ∙ h.removals;
    neo4j_fallbacks = g.neo4j_fallbacks ∙ h.neo4j_fallbacks;
  }

  pub Collects-StatsOk :
      (ks : List UtxoKey) (b b' : Collected)
      → Collects view ks b b'
      → StatsOk b.stats
      → StatsOk b'.stats
  Collects-StatsOk ks b b' h st = record {
    hits_u64 = omega (arith, h.hits);
    misses_u64 = omega (arith, h.misses);
    inserts_u64 = omega (arith, h.inserts, st);
    removals_u64 = omega (arith, h.removals, st);
    neo4j_fallbacks_u64 = omega (arith, h.neo4j_fallbacks, st);
  }

module _ (L : LruCrate) (view : UtxoKey → Option CachedOutput) where
  open L use {LruCache, new, get, iter, get_lem, iter-get}

  -- The locked shard at `i` stands for the view under its own keys.
  pub record Shows (i : ℕ) (s : LruCache) : Type 0 where
    pub valid : ShardOk L i s
    pub shows : (q : UtxoKey) → shard_index q ≡ i → lookup dec q (iter s) ≡ view q

  -- One look-up.
  collect_one :
      (k : UtxoKey) (s : LruCache) (b : Collected)
      → lookup dec k (iter s) ≡ view k
      → StatsOk b.stats
      → Collects view (k ∷ []) b (collect L k s b).1
  unfolding collect record_miss record_hit
  collect_one k s b e st = elim (Option-cases (view k)) [
    | inl miss ↦
        rw (get_lem k s ∙ e ∙ miss, collect)
          (record {
            found_each = λ q. unfold member in ground arith;
            missed_each = λ q. unfold member in ground (arith, member-append q b.misses (k ∷ []));
            grows = omega (arith, length-append b.misses (k ∷ []));
            within = omega (arith, length-append b.misses (k ∷ []));
            hits = omega (arith, length-append b.misses (k ∷ []), st);
            misses = omega (arith, length-append b.misses (k ∷ []), st);
            inserts = refl;
            removals = refl;
            neo4j_fallbacks = refl;
          })
    | inr (v, hit) ↦
        rw (get_lem k s ∙ e ∙ hit, collect)
          (record {
            found_each =
                λ q. unfold member in ground (arith, Assoc.lookup-insert dec k q v b.found);
            missed_each = λ q. unfold member in ground arith;
            grows = omega arith;
            within = omega arith;
            hits = omega (arith, st);
            misses = omega (arith, st);
            inserts = refl;
            removals = refl;
            neo4j_fallbacks = refl;
          })
  ]

  collect_state : (k : UtxoKey) (s : LruCache) (b : Collected) → (collect L k s b).0 ≡ (get k s).0
  unfolding collect
  collect_state k s b = elim (Option-cases (get k s).1) [
    | inl miss ↦ rw (miss, collect)
    | inr (v, hit) ↦ rw (hit, collect)
  ]

  collect-Shows :
      (i : ℕ) (k : UtxoKey) (s : LruCache) (b : Collected) → Shows i s → Shows i (collect L k s b).0
  collect-Shows i k s b h = rw (collect_state k s b) (record {
    valid = get-ShardOk L k i s h.valid;
    shows = λ q at. ap (lookup dec q) (iter-get k s) ∙ lookup-promote k q (iter s) ∙ h.shows q at;
  })

  collect_at_in :
      (keys : List UtxoKey) (j : ℕ) (is : List ℕ) (s : LruCache) (b : Collected) (k : UtxoKey)
      → get_elem? keys j ≡ some k
      → collect_at L keys (j ∷ is) s b
        ≡ collect_at L keys is (collect L k s b).0 (collect L k s b).1
  unfolding collect_at
  collect_at_in keys j is s b k e = rw (e, collect_at, collect_elem)

  collect_at_out :
      (keys : List UtxoKey) (j : ℕ) (is : List ℕ) (s : LruCache) (b : Collected)
      → get_elem? keys j ≡ none
      → collect_at L keys (j ∷ is) s b ≡ collect_at L keys is s b
  unfolding collect_at
  collect_at_out keys j is s b e = rw (e, collect_at, collect_elem)

  -- The inner loop, over the keys that the positions name.
  collect_at-Collects :
      (keys : List UtxoKey) (is : List ℕ) (i : ℕ) (s : LruCache) (b : Collected)
      → All (λ k. shard_index k ≡ i) (resolve keys is)
      → Shows i s
      → StatsOk b.stats
      → Shows i (collect_at L keys is s b).0
        × Collects view (resolve keys is) b (collect_at L keys is s b).1
  collect_at-Collects keys [] i s b home h st =
      unfold collect_at resolve in (h, Collects-refl view b st)
  collect_at-Collects keys (j ∷ is) i s b home h st = elim (Option-cases (get_elem? keys j)) [
    | inl out ↦
        rw (collect_at_out keys j is s b out, resolve_out keys j is out)
          (collect_at-Collects keys is i s b (rw (resolve_out keys j is out) at home) h st)
    | inr (k, here) ↦
        let home' : (shard_index k ≡ i) × All (λ k. shard_index k ≡ i) (resolve keys is) =
          rw (resolve_in keys j is k here) at home in
        let b' = (collect L k s b).1 in
        let one : Collects view (k ∷ []) b b' = collect_one k s b (h.shows k home'.0) st in
        let (shown, rest) =
          collect_at-Collects keys is i (collect L k s b).0 b' home'.1 (collect-Shows i k s b h)
            (Collects-StatsOk view (k ∷ []) b b' one st) in
        rw (collect_at_in keys j is s b k here, resolve_in keys j is k here)
          (shown, Collects-trans view (k ∷ []) (resolve keys is) b b' _ one rest)
  ]

  -- The whole cache stands for the view.
  pub record ShowsAll (shards : List LruCache) : Type 0 where
    pub valid : ShardsOk L shards
    pub shows : (q : UtxoKey) → find L shards q ≡ view q

  pub shard-Shows :
      (shards : List LruCache) (i : ℕ)
      → ShowsAll shards
      → i < num_shards
      → Shows i (get_or shards i (new 1))
  unfolding find
  shard-Shows shards i h lt = record {
    valid = h.valid.each i lt;
    shows = λ q at. rw at at (h.shows q);
  }

  set-ShowsAll :
      (shards : List LruCache) (i : ℕ) (s : LruCache)
      → ShowsAll shards
      → i < num_shards
      → Shows i s
      → ShowsAll (set shards i s)
  set-ShowsAll shards i s h lt g = record {
    valid = set-ShardsOk L shards i s h.valid lt g.valid;
    shows = λ q.
        find-set_same L shards i s h.valid
          (λ r at. g.shows r at ∙ sym ((shard-Shows shards i h lt).shows r at)) q
        ∙ h.shows q;
  }

  -- The outer loop, over the shards.
  pub collect_shards-Collects :
      (keys : List UtxoKey) (by_shard : List (List ℕ)) (idx : ℕ) (shards : List LruCache)
      (b : Collected)
      → Homed idx (map (resolve keys) by_shard)
      → idx + length by_shard ≤ num_shards
      → ShowsAll shards
      → StatsOk b.stats
      → ShowsAll (collect_shards L keys idx by_shard shards b).0
        × Collects view
            (concat (map (resolve keys) by_shard))
            b
            (collect_shards L keys idx by_shard shards b).1
  unfolding collect_shards concat resolve
  collect_shards-Collects keys [] idx shards b home fits h st = (h, Collects-refl view b st)
  collect_shards-Collects keys ([] ∷ by_shard) idx shards b home fits h st =
      collect_shards-Collects keys by_shard (suc idx) shards b home.1 (omega arith) h st
  collect_shards-Collects keys ((i ∷ is) ∷ by_shard) idx shards b home fits h st =
      let s = get_or shards idx (new 1) in
      let b' = (collect_at L keys (i ∷ is) s b).1 in
      let lt : idx < num_shards = omega arith in
      let (shown, one) =
        collect_at-Collects keys (i ∷ is) idx s b home.0 (shard-Shows shards idx h lt) st in
      let (all_shown, rest) =
        collect_shards-Collects keys by_shard (suc idx)
          (set shards idx (collect_at L keys (i ∷ is) s b).0) b' home.1 (omega arith)
          (set-ShowsAll shards idx _ h lt shown)
          (Collects-StatsOk view (resolve keys (i ∷ is)) b b' one st) in
      (
        all_shown,
        Collects-trans view (resolve keys (i ∷ is)) (concat (map (resolve keys) by_shard)) b b' _
            one rest,
      )
