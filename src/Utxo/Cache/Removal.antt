-- ===== src/Utxo/Cache/Removal.antt =====
-- `remove_many` against the view of the cache as a map from keys to outputs.
use mathlib.Core.Logic.{if_pos, if_neg}
use bitcoin_chain_graph.Common.{
  ℕ, suc, ◌+◌, ◌≤◌, ◌<◌, ◌≡◌, refl, ap, ◌∙◌, List, [], ◌∷◌, ◌++◌, map, Option, none, some, length,
  get_or, get_elem?, set, All, arith, false, Option-cases, inl, inr, if◌then◌else◌, ◌≢◌, ℕ_discrete,
}
use bitcoin_chain_graph.Common.Assoc
use bitcoin_chain_graph.Common.Assoc.{lookup}
use bitcoin_chain_graph.Utxo.Key.{UtxoKey, UtxoKey-discrete as dec, num_shards, shard_index}
use bitcoin_chain_graph.Utxo.Output.{CachedOutput}
use bitcoin_chain_graph.Utxo.Lru.{LruCrate}
use bitcoin_chain_graph.Utxo.Stats.{Stats}
use bitcoin_chain_graph.Utxo.Cache.{
  UtxoCache, pop_elem, pop_at, pop_shards, remove_many, group_by_shard,
}
use bitcoin_chain_graph.Utxo.Cache.Shards.{ShardsOk, find, pop-ShardOk, set-ShardsOk, find-set}
use bitcoin_chain_graph.Utxo.Cache.Groups.{
  member, member-append, resolve, resolve_in, resolve_out, concat, Homed, groups_of-Homed,
  groups_of_lem, length-group_by_shard,
}
use bitcoin_chain_graph.Utxo.Cache.Collect.{Shows, ShowsAll, shard-Shows}

abbrev pub View : Type 0
View = UtxoKey → Option CachedOutput

-- The map without some keys.
abbrev pub without : List UtxoKey → View → View
without ks view q = if member q ks then none else view q

without-append :
    (ks ls : List UtxoKey) (view : View) (q : UtxoKey)
    → without ls (without ks view) q ≡ without (ks ++ ls) view q
without-append ks ls view q = ground (arith, member-append q ks ls)

module _ (L : LruCrate) where
  open L use {LruCache, new, pop, iter, iter-pop}

  Shows-cast :
      (view view' : View) (i : ℕ) (s : LruCache)
      → ((q : UtxoKey) → view q ≡ view' q)
      → Shows L view i s
      → Shows L view' i s
  Shows-cast view view' i s e h = record { valid = h.valid; shows = λ q at. h.shows q at ∙ e q }

  ShowsAll-cast :
      (view view' : View) (shards : List LruCache)
      → ((q : UtxoKey) → view q ≡ view' q)
      → ShowsAll L view shards
      → ShowsAll L view' shards
  ShowsAll-cast view view' shards e h = record { valid = h.valid; shows = λ q. h.shows q ∙ e q }

  pop-Shows :
      (view : View) (i : ℕ) (k : UtxoKey) (s : LruCache)
      → Shows L view i s
      → Shows L (without (k ∷ []) view) i (pop k s).0
  unfolding member
  pop-Shows view i k s h = record {
    valid = pop-ShardOk L k i s h.valid;
    shows = λ q at. ground (
      arith,
      ap (lookup dec q) (iter-pop k s),
      Assoc.lookup-remove dec k q (iter s) h.valid.distinct,
      h.shows q at,
    );
  }

  -- A key of another shard is not among the keys of this one.
  member_elsewhere :
      (i : ℕ) (ks : List UtxoKey) (q : UtxoKey)
      → All (λ k. shard_index k ≡ i) ks
      → shard_index q ≢ i
      → member q ks ≡ false
  unfolding member
  member_elsewhere i [] q home ne = refl
  member_elsewhere i (k ∷ ks) q home ne = elim (dec q k) [
    | yes e ↦ absurd (ne (ap shard_index e ∙ home.0))
    | no e ↦ rw (if_neg (dec q k) e) (member_elsewhere i ks q home.1 ne)
  ]

  pop_at_in :
      (keys : List UtxoKey) (j : ℕ) (is : List ℕ) (s : LruCache) (stats : Stats) (k : UtxoKey)
      → get_elem? keys j ≡ some k
      → (pop_at L keys (j ∷ is) s stats).0
        ≡ (pop_at L keys is (pop k s).0 (pop_elem L (some k) s stats).1).0
  unfolding pop_at
  pop_at_in keys j is s stats k e = rw (e, pop_at, pop_elem)

  pop_at_out :
      (keys : List UtxoKey) (j : ℕ) (is : List ℕ) (s : LruCache) (stats : Stats)
      → get_elem? keys j ≡ none
      → (pop_at L keys (j ∷ is) s stats).0 ≡ (pop_at L keys is s stats).0
  unfolding pop_at
  pop_at_out keys j is s stats e = rw (e, pop_at, pop_elem)

  pop_at-Shows :
      (view : View) (keys : List UtxoKey) (is : List ℕ) (i : ℕ) (s : LruCache) (stats : Stats)
      → Shows L view i s
      → Shows L (without (resolve keys is) view) i (pop_at L keys is s stats).0
  pop_at-Shows view keys [] i s stats h =
      unfold pop_at resolve member in Shows-cast view _ i s (λ q. refl) h
  pop_at-Shows view keys (j ∷ is) i s stats h = elim (Option-cases (get_elem? keys j)) [
    | inl out ↦
        rw (pop_at_out keys j is s stats out, resolve_out keys j is out)
          (pop_at-Shows view keys is i s stats h)
    | inr (k, here) ↦
        rw (pop_at_in keys j is s stats k here, resolve_in keys j is k here)
          (Shows-cast _ _ i _ (without-append (k ∷ []) (resolve keys is) view) (
            pop_at-Shows (without (k ∷ []) view) keys is i (pop k s).0
              (pop_elem L (some k) s stats).1 (pop-Shows view i k s h)))
  ]

  set-without :
      (view : View) (shards : List LruCache) (i : ℕ) (ks : List UtxoKey) (s : LruCache)
      → ShowsAll L view shards
      → i < num_shards
      → All (λ k. shard_index k ≡ i) ks
      → Shows L (without ks view) i s
      → ShowsAll L (without ks view) (set shards i s)
  set-without view shards i ks s h lt home g = record {
    valid = set-ShardsOk L shards i s h.valid lt g.valid;
    shows = λ q. elim (ℕ_discrete (shard_index q) i) [
      | yes e ↦
          find-set L shards i s q h.valid
          ∙ if_pos (ℕ_discrete (shard_index q) i) e _ _
          ∙ g.shows q e
      | no e ↦
          find-set L shards i s q h.valid
          ∙ if_neg (ℕ_discrete (shard_index q) i) e _ _
          ∙ rw (member_elsewhere i ks q home e) (h.shows q)
    ];
  }

  pop_shards-ShowsAll :
      (view : View) (keys : List UtxoKey) (by_shard : List (List ℕ)) (idx : ℕ)
      (shards : List LruCache) (stats : Stats)
      → Homed idx (map (resolve keys) by_shard)
      → idx + length by_shard ≤ num_shards
      → ShowsAll L view shards
      → ShowsAll L
          (without (concat (map (resolve keys) by_shard)) view)
          (pop_shards L keys idx by_shard shards stats).0
  unfolding pop_shards concat resolve member
  pop_shards-ShowsAll view keys [] idx shards stats home fits h = h
  pop_shards-ShowsAll view keys ([] ∷ by_shard) idx shards stats home fits h =
      pop_shards-ShowsAll view keys by_shard (suc idx) shards stats home.1 (omega arith) h
  pop_shards-ShowsAll view keys ((i ∷ is) ∷ by_shard) idx shards stats home fits h =
      let s = get_or shards idx (new 1) in
      let popped = pop_at L keys (i ∷ is) s stats in
      let ks = resolve keys (i ∷ is) in
      let lt : idx < num_shards = omega arith in
      ShowsAll-cast _ _ _ (without-append ks (concat (map (resolve keys) by_shard)) view) (
        pop_shards-ShowsAll (without ks view) keys by_shard (suc idx) (set shards idx popped.0)
          popped.1 home.1 (omega arith)
          (set-without view shards idx ks popped.0 h lt home.0
            (pop_at-Shows view keys (i ∷ is) idx s stats (shard-Shows L view shards idx h lt))))

  -- On a valid cache, `remove_many` takes out exactly its keys: none of them is found any more,
  -- every other key is found as before, and the cache stays valid.
  pub remove_many-find :
      (keys : List UtxoKey) (c : UtxoCache LruCache) (q : UtxoKey)
      → ShardsOk L c.shards
      → ShardsOk L (remove_many L keys c).shards
        × (find L (remove_many L keys c).shards q
            ≡ (if member q keys then none else find L c.shards q))
  unfolding remove_many
  remove_many-find keys c q valid =
      let h =
        pop_shards-ShowsAll (find L c.shards) keys (group_by_shard keys) 0 c.shards c.stats
          (groups_of-Homed keys) (omega (arith, length-group_by_shard keys))
          (record { valid = valid; shows = λ r. refl }) in
      (h.valid, ground (arith, h.shows q, groups_of_lem q keys))
