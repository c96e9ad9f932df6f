-- ===== src/Ingestion/Session.antt =====
-- `ingest_blocks_batch` (src/domain/ingestion.rs): the chunks of a batch, each in a transaction of
-- its own.
pub mod Atomic
pub mod Committed
pub mod Prefix
pub mod Outcome
use bitcoin_chain_graph.Common.{
  ℕ, ◌+◌, ◌-◌, ◌%◌, ◌^◌, List, [], ◌∷◌, map, length, ltb, if◌then◌else◌,
}
use bitcoin_chain_graph.Common.Result.{Result, ok, err}
use bitcoin_chain_graph.Common.Exec.{Exec, ◌>>=◌, ◌>>◌, return}
use bitcoin_chain_graph.Writer.Error.{WriterError}
use bitcoin_chain_graph.Writer.Data.{OutputLookupResult}
use bitcoin_chain_graph.Writer.Graph.{GraphWriter}
use bitcoin_chain_graph.Utxo.Key.{UtxoKey}
use bitcoin_chain_graph.Utxo.OutputId.{to_output_id_string}
use bitcoin_chain_graph.Utxo.Cache.{UtxoCache, FoundMap, get_many, adjust_misses}
use bitcoin_chain_graph.Utxo.Fallback.{Resolving, resolve_all}
use bitcoin_chain_graph.Ingestion.Chunks.{Range, usize_add, compute_adaptive_chunks}
use bitcoin_chain_graph.Ingestion.Resume.{validate_parent_hash}
use bitcoin_chain_graph.Ingestion.Amounts.{slice, collect_input_keys, estimate_block_memory}
use bitcoin_chain_graph.Ingestion.Orchestrator.{Orchestrator, State, on_db, try_save_snapshot}
use bitcoin_chain_graph.Ingestion.Batch.{ChunkItem, last_item, process_batch_chunk}

pub record BatchStats : Type 0 where
  pub transactions : ℕ
  pub outputs : ℕ
  pub inputs : ℕ
  pub chunks : ℕ

-- `-` on `usize`, as release builds have it.
abbrev pub usize_sub : ℕ → ℕ → ℕ
usize_sub a b = (a + 2 ^ 64 - b % 2 ^ 64) % 2 ^ 64

unfoldable pub add_counts : ℕ × ℕ × ℕ → BatchStats → BatchStats
add_counts (txs, outs, ins) stats = record stats {
  transactions = usize_add stats.transactions txs;
  outputs = usize_add stats.outputs outs;
  inputs = usize_add stats.inputs ins;
}

module _ (O : Orchestrator) (W : GraphWriter) where
  open O use {bitcoin, lru}

  abbrev pub Step : Type 0 → Type 0
  Step A = Exec (State O W) WriterError A

  unfoldable pub validate_first : List (ChunkItem O) → Step Unit
  unfolding validate_parent_hash
  validate_first [] = return tt
  validate_first ((height, block, file_name) ∷ chunk) =
      on_db O W (validate_parent_hash W (bitcoin.prev_blockhash block) height)

  -- The misses that no row answers are not counted as misses.
  unfoldable pub adjust_deferred : ℕ → UtxoCache lru.LruCache → UtxoCache lru.LruCache
  unfolding adjust_misses
  adjust_deferred deferred cache =
      if ltb 0 deferred then adjust_misses lru deferred cache else cache

  -- The rows of the database for the misses. A key that is still missing is passed over.
  unfoldable pub prefetch_rows :
      List UtxoKey → FoundMap → List OutputLookupResult → State O W → State O W × FoundMap
  unfolding resolve_all adjust_deferred
  prefetch_rows misses found rows s =
      let r =
        resolve_all lru bitcoin.txid_text rows misses
          (record { cache = s.cache; found = found; still_missing = [] }) in
      let deferred = usize_sub (length misses) (length rows) in
      (record s { cache = adjust_deferred deferred r.cache }, r.found)

  unfoldable pub prefetch_misses : List UtxoKey → FoundMap → Step FoundMap
  unfolding prefetch_rows
  prefetch_misses [] found = return found
  prefetch_misses (miss ∷ misses) found =
      on_db O W
        (W.lookup_outputs_batch (map (to_output_id_string bitcoin.txid_text) (miss ∷ misses)))
      >>= λ rows.
          λ s. let (s', found') = prefetch_rows (miss ∷ misses) found rows s in (s', ok found')

  unfoldable pub prefetch_keys : List UtxoKey → Step FoundMap
  unfolding get_many prefetch_misses
  prefetch_keys [] s = (s, ok [])
  prefetch_keys (key ∷ keys) s =
      let (cache', found, misses) = get_many lru (key ∷ keys) s.cache in
      prefetch_misses misses found (record s { cache = cache' })

  abbrev pub end_height : List (ChunkItem O) → ℕ
  end_height [] = 0
  end_height (item ∷ chunk) = (last_item O item chunk).0

  -- Commit and snapshot, or roll back. The error of a rollback is only logged.
  unfoldable pub settle : {A : Type 0} → ℕ → Result WriterError A → Step A
  unfolding try_save_snapshot
  settle height (ok counts) s =
      (on_db O W W.commit_transaction >> λ s'. (try_save_snapshot O W height s', ok counts)) s
  settle height (err e) s = (record s { db = (W.rollback_transaction s.db).0 }, err e)

  unfoldable pub transact : List (ChunkItem O) → FoundMap → Step (ℕ × ℕ × ℕ)
  unfolding process_batch_chunk settle
  transact chunk found s =
      let (s', result) = process_batch_chunk O W chunk found s in
      settle (end_height chunk) result s'

  unfoldable pub ingest_chunk : List (ChunkItem O) → Step (ℕ × ℕ × ℕ)
  unfolding validate_first prefetch_keys collect_input_keys transact
  ingest_chunk chunk =
      validate_first chunk
      >> (prefetch_keys (collect_input_keys bitcoin chunk) >>= λ found.
          on_db O W W.begin_transaction >> transact chunk found)

  -- `for (chunk_idx, chunk_range) in chunk_ranges.iter().enumerate()`.
  unfoldable pub chunks_loop : List (ChunkItem O) → List Range → BatchStats → Step BatchStats
  unfolding ingest_chunk add_counts
  chunks_loop blocks [] stats = return stats
  chunks_loop blocks (range ∷ ranges) stats = ingest_chunk (slice range blocks) >>= λ counts.
      chunks_loop blocks ranges (add_counts counts stats)

  unfoldable pub block_memories : List (ChunkItem O) → List ℕ
  unfolding estimate_block_memory
  block_memories [] = []
  block_memories ((height, block, file_name) ∷ blocks) =
      estimate_block_memory bitcoin block ∷ block_memories blocks

  unfoldable pub ingest_blocks_batch : List (ChunkItem O) → Step BatchStats
  unfolding compute_adaptive_chunks chunks_loop block_memories
  ingest_blocks_batch blocks =
      let ranges = compute_adaptive_chunks (block_memories blocks) O.max_transaction_memory_bytes in
      chunks_loop blocks ranges
        (record { transactions = 0; outputs = 0; inputs = 0; chunks = length ranges })
