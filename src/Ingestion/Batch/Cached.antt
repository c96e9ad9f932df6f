-- ===== src/Ingestion/Batch/Cached.antt =====
-- The cache through the phases of a chunk (src/domain/ingestion.rs, `process_batch_chunk`).
use bitcoin_chain_graph.Common.{
  ℕ, ◌≡◌, refl, sym, ap, ◌∙◌, inl, inr, List, [], ◌∷◌, Option, none, some, ite, Option-cases,
  if◌then◌else◌, arith,
}
use bitcoin_chain_graph.Common.Assoc.{lookup-insert}
use bitcoin_chain_graph.Common.Result.{ok}
use mathlib.Core.Path.{subst}
use mathlib.Core.Logic.{if_pos, if_neg}
use bitcoin_chain_graph.Writer.Data.{OutputData}
use bitcoin_chain_graph.Writer.Graph.{GraphWriter}
use bitcoin_chain_graph.Writer.Contract.{Contract}
use bitcoin_chain_graph.Utxo.Key.{UtxoKey, UtxoKey-discrete as dec}
use bitcoin_chain_graph.Utxo.Output.{CachedOutput}
use bitcoin_chain_graph.Utxo.OutputId.{from_hex_txid}
use bitcoin_chain_graph.Utxo.Cache.{UtxoCache, FoundMap, found_get, remove_many}
use bitcoin_chain_graph.Utxo.Cache.Shards.{ShardsOk, find}
use bitcoin_chain_graph.Utxo.Cache.Groups.{member}
use bitcoin_chain_graph.Utxo.Cache.Single.{insert-ShardsOk, get_quiet-find}
use bitcoin_chain_graph.Utxo.Cache.Removal.{remove_many-find}
use bitcoin_chain_graph.Ingestion.Amounts.{
  cached_row, collect_input_keys, chunk_outputs, pend_chunk,
}
use bitcoin_chain_graph.Ingestion.Orchestrator.{Orchestrator, State}
use bitcoin_chain_graph.Ingestion.Batch.{
  ChunkItem, insert_row, cache_rows, supplement_one, supplement, process_batch_chunk,
}
use bitcoin_chain_graph.Ingestion.Batch.Written.{chunk_cache, process_batch_chunk-Written}

-- The first that there is.
abbrev pub or_else : Option CachedOutput → Option CachedOutput → Option CachedOutput
or_else (some o) other = some o
or_else none other = other

or_else-none : (o : Option CachedOutput) → or_else o none ≡ o
or_else-none none = refl
or_else-none (some o) = refl

or_else_assoc : (f g h : Option CachedOutput) → or_else (or_else f g) h ≡ or_else f (or_else g h)
or_else_assoc none g h = refl
or_else_assoc (some o) g h = refl

-- What two keys at once add.
or_else-member :
    (found : Option CachedOutput) (q key : UtxoKey) (keys : List UtxoKey)
    → or_else (ite (dec q key) found none) (if member q keys then found else none)
      ≡ (if member q (key ∷ keys) then found else none)
unfolding member
or_else-member none q key keys = ground arith
or_else-member (some o) q key keys = ground arith

module _ (O : Orchestrator) where
  open O use {bitcoin, lru}

  -- A valid cache.
  abbrev pub Valid : UtxoCache lru.LruCache → Type 0
  Valid c = ShardsOk lru c.shards

  insert_row-Valid :
      (key : Option UtxoKey) (output : OutputData) (c : UtxoCache lru.LruCache)
      → Valid c
      → Valid (insert_row O key output c)
  insert_row-Valid none output c valid = valid
  insert_row-Valid (some key) output c valid = insert-ShardsOk lru c key valid (cached_row output)

  cache_rows-Valid :
      (rows : List OutputData) (c : UtxoCache lru.LruCache) → Valid c → Valid (cache_rows O rows c)
  unfolding cache_rows
  cache_rows-Valid [] c valid = valid
  cache_rows-Valid (output ∷ rows) c valid =
      let key = from_hex_txid bitcoin.txid_text output.txid output.output_index in
      cache_rows-Valid rows (insert_row O key output c) (insert_row-Valid key output c valid)

  -- One key: the cache stays valid and finds the same, and the map gets what the cache has for a key
  -- that it lacked.
  abbrev Supplemented :
      FoundMap
      → UtxoKey
      → UtxoCache lru.LruCache
      → UtxoCache lru.LruCache × FoundMap
      → UtxoKey
      → Type 0
  Supplemented found key c (c', found') q =
      Valid c'
      × (find lru c'.shards q ≡ find lru c.shards q)
      × (found_get q found'
          ≡ or_else (found_get q found) (ite (dec q key) (find lru c.shards q) none))

  supplement_one_lem :
      (found : FoundMap) (key : UtxoKey) (c : UtxoCache lru.LruCache) (q : UtxoKey)
      → Valid c
      → Supplemented found key c (supplement_one O (found_get key found) key (c, found)) q
  unfolding supplement_one
  supplement_one_lem found key c q valid = elim (Option-cases (found_get key found)) [
    | inr (o, has) ↦
        rw (has, supplement_one)
          (
            valid,
            refl,
            elim (dec q key) [
              | yes same ↦
                  let here : found_get q found ≡ some o = ap (λ k. found_get k found) same ∙ has in
                  rw here refl
              | no other ↦
                  rw (if_neg (dec q key) other (find lru c.shards q) none)
                    (sym (or_else-none (found_get q found)))
            ],
          )
    | inl lacks ↦
        let (valid', same, result, counts) = get_quiet-find lru bitcoin.txid_text c key q valid in
        elim (Option-cases (find lru c.shards key)) [
          | inl miss ↦
              rw (lacks, supplement_one, result, miss)
                (
                  valid',
                  same,
                  elim (dec q key) [
                    | yes is ↦
                        let gone : find lru c.shards q ≡ none = ap (find lru c.shards) is ∙ miss in
                        rw (if_pos (dec q key) is (find lru c.shards q) none, gone)
                          (sym (or_else-none (found_get q found)))
                    | no other ↦
                        rw (if_neg (dec q key) other (find lru c.shards q) none)
                          (sym (or_else-none (found_get q found)))
                  ],
                )
          | inr (v, hit) ↦
              rw (lacks, supplement_one, result, hit)
                (
                  valid',
                  same,
                  lookup-insert dec key q v found ∙ elim (dec q key) [
                    | yes is ↦
                        let there : find lru c.shards q ≡ some v =
                          ap (find lru c.shards) is ∙ hit in
                        let lacks' : found_get q found ≡ none =
                          ap (λ k. found_get k found) is ∙ lacks in
                        rw (lacks', there, if_pos (dec q key) is (some v) none) refl
                    | no other ↦
                        rw
                          (
                            if_neg (dec q key) other (some v) (found_get q found),
                            if_neg (dec q key) other (find lru c.shards q) none,
                          )
                          (sym (or_else-none (found_get q found)))
                  ],
                )
        ]
  ]

  -- The outputs that a chunk uses: those that were fetched before, and for the other keys what the
  -- cache finds. The look-ups change nothing that the cache finds, and keep it valid.
  pub supplement_lem :
      (keys : List UtxoKey) (found : FoundMap) (c : UtxoCache lru.LruCache) (q : UtxoKey)
      → Valid c
      → let (c', found') = supplement O keys (c, found) in
        Valid c'
        × (find lru c'.shards q ≡ find lru c.shards q)
        × (found_get q found'
            ≡ or_else (found_get q found) (if member q keys then find lru c.shards q else none))
  unfolding supplement member
  supplement_lem [] found c q valid = (valid, refl, sym (or_else-none (found_get q found)))
  supplement_lem (key ∷ keys) found c q valid =
      let (c1, found1) = supplement_one O (found_get key found) key (c, found) in
      let (valid1, same1, got1) = supplement_one_lem found key c q valid in
      let (valid2, same2, got2) = supplement_lem keys found1 c1 q valid1 in
      let f = found_get q found in
      let here = ite (dec q key) (find lru c.shards q) none in
      (
        valid2,
        same2 ∙ same1,
        got2
            ∙ ap (λ o. or_else o (if member q keys then find lru c1.shards q else none)) got1
            ∙ ap (λ o. or_else (or_else f here) (if member q keys then o else none)) same1
            ∙ or_else_assoc f here (if member q keys then find lru c.shards q else none)
            ∙ ap (or_else f) (or_else-member (find lru c.shards q) q key keys),
      )

  chunk_cache-Valid :
      (chunk : List (ChunkItem O)) (prefetched : FoundMap) (c : UtxoCache lru.LruCache)
      → Valid c
      → Valid (chunk_cache O chunk prefetched c)
  unfolding chunk_cache
  chunk_cache-Valid chunk prefetched c valid =
      (supplement_lem (pend_chunk bitcoin chunk ([], [])).0 prefetched
        (cache_rows O (chunk_outputs bitcoin O.network chunk ([], [])).0 c)
        (record { txid = []; vout = 0 })
        (cache_rows-Valid (chunk_outputs bitcoin O.network chunk ([], [])).0 c valid)).0

  -- After a chunk that succeeds on a valid cache, the cache is valid, no output that the chunk spends
  -- is in it any more, also when the chunk made that output itself, and any other key is found as
  -- after the look-ups of the chunk.
  pub process_batch_chunk-spent :
      (W : GraphWriter) (C : Contract W) (chunk : List (ChunkItem O)) (prefetched : FoundMap)
      (s : State O W) (counts : ℕ × ℕ × ℕ) (key : UtxoKey)
      → Valid s.cache
      → (process_batch_chunk O W chunk prefetched s).1 ≡ ok counts
      → let c = (process_batch_chunk O W chunk prefetched s).0.cache in
        Valid c
        × (find lru c.shards key ≡ (
            if member key (collect_input_keys bitcoin chunk)
            then none
            else find lru (chunk_cache O chunk prefetched s.cache).shards key))
  process_batch_chunk-spent W C chunk prefetched s counts key valid h =
      let keys = collect_input_keys bitcoin chunk in
      let c = chunk_cache O chunk prefetched s.cache in
      let same : (process_batch_chunk O W chunk prefetched s).0.cache ≡ remove_many lru keys c =
        (process_batch_chunk-Written O W C chunk prefetched s counts h).2 in
      let (valid', gone) =
        remove_many-find lru keys c key (chunk_cache-Valid chunk prefetched s.cache valid) in
      (
        subst Valid (sym same) valid',
        ap (λ (x : UtxoCache lru.LruCache). find lru x.shards key) same ∙ gone,
      )
