-- ===== src/Ingestion/Batch.antt =====
-- `process_batch_chunk` (src/domain/ingestion.rs): the phases of a chunk inside its transaction.
-- `tokio::join!` of a write with the inserts into the cache: both are done before the result of the
-- write is looked at.
pub mod Kept
pub mod Written
pub mod Cached
use bitcoin_chain_graph.Common.{
  ℕ, suc, ◌+◌, Bool, true, false, List, [], ◌∷◌, ◌++◌, ◌==◌, ◌||◌, Option, none, some, length,
  if◌then◌else◌,
}
use bitcoin_chain_graph.Common.Result.{Result, ok, err}
use bitcoin_chain_graph.Common.Int.{as_i32}
use bitcoin_chain_graph.Common.Exec.{Exec, ◌>>=◌, ◌>>◌, return}
use bitcoin_chain_graph.Writer.Error.{WriterError}
use bitcoin_chain_graph.Writer.Data.{
  Text, CheckpointData, OutputData, TransactionData, InputData, PerformsData, BenefitsToData,
}
use bitcoin_chain_graph.Writer.Graph.{GraphWriter}
use bitcoin_chain_graph.Utxo.Key.{UtxoKey}
use bitcoin_chain_graph.Utxo.Output.{CachedOutput}
use bitcoin_chain_graph.Utxo.OutputId.{from_hex_txid}
use bitcoin_chain_graph.Utxo.Cache.{
  UtxoCache, FoundMap, found_get, found_insert, insert, get_quiet, remove_many,
}
use bitcoin_chain_graph.Ingestion.Amounts.{
  Item, cached_row, collect_input_keys, count_outputs, count_inputs, chunk_input_rows,
  chunk_outputs, PendingTx, pend_chunk, price_all, block_rows,
}
use bitcoin_chain_graph.Ingestion.Buckets.{
  Task, partition_performs_by_address, partition_benefits_by_address, spawn_tasks, run_tasks,
}
use bitcoin_chain_graph.Ingestion.Orchestrator.{Orchestrator, State, on_db, on_cache}

-- `BIP30_DUPLICATE_HEIGHTS.contains`.
unfoldable pub is_bip30 : ℕ → Bool
is_bip30 height = (height == 91842) || (height == 91880)

abbrev pub num_buckets : ℕ
num_buckets = 8

module _ (O : Orchestrator) where
  open O use {bitcoin, lru}

  abbrev pub ChunkItem : Type 0
  ChunkItem = Item bitcoin

  unfoldable pub has_bip30 : List ChunkItem → Bool
  unfolding is_bip30
  has_bip30 [] = false
  has_bip30 ((height, block, file_name) ∷ chunk) = is_bip30 height || has_bip30 chunk

  -- `total_txs`, `total_outputs` and `total_inputs`.
  unfoldable pub totals : List ChunkItem → ℕ × ℕ × ℕ
  unfolding count_outputs count_inputs
  totals [] = (0, 0, 0)
  totals ((height, block, file_name) ∷ chunk) =
      let (txs, outs, ins) = totals chunk in
      let txdata = bitcoin.txdata block in
      (length txdata + txs, count_outputs bitcoin txdata + outs, count_inputs bitcoin txdata + ins)

  abbrev pub insert_row :
      Option UtxoKey → OutputData → UtxoCache lru.LruCache → UtxoCache lru.LruCache
  insert_row none output cache = cache
  insert_row (some key) output cache = insert lru key (cached_row output) cache

  -- `cache_future`.
  unfoldable pub cache_rows : List OutputData → UtxoCache lru.LruCache → UtxoCache lru.LruCache
  unfolding insert cached_row from_hex_txid
  cache_rows [] cache = cache
  cache_rows (output ∷ rows) cache =
      cache_rows rows
        (insert_row (from_hex_txid bitcoin.txid_text output.txid output.output_index) output cache)

  -- One key, by what the map has: `if let Ok(cached) = self.utxo_cache.get_quiet(key)`.
  unfoldable pub supplement_one :
      Option CachedOutput
      → UtxoKey
      → UtxoCache lru.LruCache × FoundMap
      → UtxoCache lru.LruCache × FoundMap
  unfolding get_quiet
  supplement_one (some output) key (cache, found) = (cache, found)
  supplement_one none key (cache, found) =
      let (cache', result) = get_quiet lru bitcoin.txid_text key cache in
      elim result [ ok cached ↦ (cache', found_insert key cached found) | err e ↦ (cache', found) ]

  -- The keys that the map does not have are looked up in the cache.
  unfoldable pub supplement :
      List UtxoKey → UtxoCache lru.LruCache × FoundMap → UtxoCache lru.LruCache × FoundMap
  unfolding supplement_one
  supplement [] (cache, found) = (cache, found)
  supplement (key ∷ keys) (cache, found) =
      supplement keys (supplement_one (found_get key found) key (cache, found))

  unfoldable pub batch_checkpoint : ChunkItem → CheckpointData
  batch_checkpoint (height, block, file_name) = record {
    last_processed_height = as_i32 height;
    last_processed_hash = bitcoin.block_hash block;
    last_processed_file = file_name;
    last_processed_file_offset = none;
    timestamp = O.now;
    status = "in_progress";
  }

  -- `chunk.last()`.
  abbrev pub last_item : ChunkItem → List ChunkItem → ChunkItem
  last_item item [] = item
  last_item item (next ∷ chunk) = last_item next chunk

  module _ (W : GraphWriter) where
    abbrev pub Run : Type 0 → Type 0
    Run A = Exec (State O W) WriterError A

    -- `write_future`, and the writes of phases 3 and 4.
    unfoldable pub write_output_rows : Bool → List OutputData → Exec W.Db WriterError Unit
    write_output_rows bip30 rows = if bip30 then W.write_outputs rows else W.write_outputs_fast rows

    unfoldable pub write_transaction_rows : Bool → List TransactionData → Exec W.Db WriterError Unit
    write_transaction_rows bip30 rows =
        if bip30 then W.write_transactions rows else W.write_transactions_fast rows

    unfoldable pub write_input_rows : Bool → List InputData → Exec W.Db WriterError Unit
    write_input_rows bip30 rows = if bip30 then W.write_inputs rows else W.write_inputs_fast rows

    unfoldable pub write_and_cache : Exec W.Db WriterError Unit → List OutputData → Run Unit
    unfolding cache_rows
    write_and_cache write rows s =
        let (db', result) = write s.db in
        (record s { db = db'; cache = cache_rows rows s.cache }, result)

    -- Phase 3b.
    unfoldable pub supplemented : List UtxoKey → FoundMap → Run FoundMap
    unfolding supplement
    supplemented keys found s =
        let (cache', found') = supplement keys (s.cache, found) in
        (record s { cache = cache' }, ok found')

    -- Phase 6.
    unfoldable pub write_buckets : List PerformsData → List BenefitsToData → Run Unit
    unfolding partition_performs_by_address partition_benefits_by_address spawn_tasks run_tasks
    write_buckets performs benefits s =
        let tasks =
          spawn_tasks (partition_performs_by_address O.string_hash performs num_buckets)
            (partition_benefits_by_address O.string_hash benefits num_buckets) in
        let (db', detached, result) = run_tasks W O.schedule tasks s.db in
        (record s { db = db'; detached = s.detached ++ detached }, result)

    unfoldable pub write_checkpoint : List ChunkItem → Exec W.Db WriterError Unit
    unfolding batch_checkpoint
    write_checkpoint [] = return tt
    write_checkpoint (item ∷ chunk) = W.update_checkpoint (batch_checkpoint (last_item item chunk))

    -- Phases 3c to 7.
    unfoldable pub write_priced :
        List ChunkItem
        → List OutputData
        → List BenefitsToData
        → List UtxoKey
        → List (PendingTx bitcoin)
        → FoundMap
        → Run (ℕ × ℕ × ℕ)
    unfolding price_all has_bip30 write_transaction_rows write_input_rows write_buckets
        chunk_input_rows collect_input_keys remove_many write_checkpoint totals
    write_priced chunk output_rows benefits keys pending found =
        let (tx_rows, performs) = price_all bitcoin found keys pending ([], []) in
        on_db O W (write_transaction_rows (has_bip30 chunk) tx_rows)
        >> on_db O W (W.write_has_output_relationships_fast output_rows)
        >> on_db O W (write_input_rows (has_bip30 chunk) (chunk_input_rows bitcoin chunk))
        >> write_buckets performs benefits
        >> on_cache O W (remove_many lru (collect_input_keys bitcoin chunk))
        >> on_db O W (write_checkpoint chunk)
        >> return (totals chunk)

    unfoldable pub process_batch_chunk : List ChunkItem → FoundMap → Run (ℕ × ℕ × ℕ)
    unfolding block_rows chunk_outputs write_output_rows write_and_cache has_bip30 pend_chunk
        supplemented write_priced
    process_batch_chunk chunk prefetched =
        let (output_rows, benefits) = chunk_outputs bitcoin O.network chunk ([], []) in
        let (keys, pending) = pend_chunk bitcoin chunk ([], []) in
        on_db O W (W.write_blocks_fast (block_rows bitcoin O.f64 chunk))
        >> write_and_cache (write_output_rows (has_bip30 chunk) output_rows) output_rows
        >> (supplemented keys prefetched >>= λ found.
            write_priced chunk output_rows benefits keys pending found)
