-- ===== src/Ingestion/Single.antt =====
-- `ingest_block` (src/domain/ingestion.rs): the phases of one block, without a transaction.
pub mod Agreement
use bitcoin_chain_graph.Common.{
  ℕ, ◌+◌, ◌-◌, ◌%◌, ◌^◌, List, [], ◌∷◌, ◌++◌, Option, none, some, length, if◌then◌else◌,
}
use bitcoin_chain_graph.Common.Int.{pos, as_i32}
use bitcoin_chain_graph.Common.Exec.{Exec, ◌>>=◌, ◌>>◌, return}
use bitcoin_chain_graph.Writer.Error.{WriterError}
use bitcoin_chain_graph.Writer.Data.{
  Text, CheckpointData, OutputData, TransactionData, PerformsData, BenefitsToData,
}
use bitcoin_chain_graph.Writer.Graph.{GraphWriter}
use bitcoin_chain_graph.Utxo.Key.{UtxoKey}
use bitcoin_chain_graph.Utxo.Cache.{UtxoCache, FoundMap, remove_many}
use bitcoin_chain_graph.Utxo.Fallback.{get_many_with_fallback}
use bitcoin_chain_graph.Ingestion.Conversions.{from_block, from_transaction, from_output}
use bitcoin_chain_graph.Ingestion.Resume.{validate_parent_hash}
use bitcoin_chain_graph.Ingestion.Amounts.{
  AmountMap, tally_address, benefits_of, performs_of, spend_loop, slice, sum_values, tx_keys,
  txs_keys, txid_hex, txs_input_rows, txs_outputs,
}
use bitcoin_chain_graph.Ingestion.Orchestrator.{Orchestrator, State, on_db, on_cache}
use bitcoin_chain_graph.Ingestion.Batch.{write_and_cache}

module _ (O : Orchestrator) where
  open O use {bitcoin, lru}
  open bitcoin use {Block, Transaction, TxOut, txdata, inputs, outputs, is_coinbase, value}

  -- `all_outputs`: the rows of the outputs of a transaction.
  unfoldable pub output_rows : Text → ℕ → List TxOut → List OutputData
  unfolding from_output
  output_rows txid index [] = []
  output_rows txid index (output ∷ rest) =
      from_output bitcoin output txid (index % 2 ^ 32) O.network ∷ output_rows txid (1 + index) rest

  unfoldable pub block_output_rows : List Transaction → List OutputData
  unfolding output_rows
  block_output_rows [] = []
  block_output_rows (tx ∷ txs) =
      output_rows (txid_hex bitcoin tx) 0 (outputs tx) ++ block_output_rows txs

  -- `benefits_map` of one transaction.
  unfoldable pub benefits_loop : Text → ℕ → List TxOut → AmountMap → AmountMap
  unfolding from_output tally_address
  benefits_loop txid index [] m = m
  benefits_loop txid index (output ∷ rest) m =
      let row = from_output bitcoin output txid (index % 2 ^ 32) O.network in
      benefits_loop txid (1 + index) rest (tally_address row.address (value output) m)

  unfoldable pub block_benefits : List Transaction → List BenefitsToData
  unfolding benefits_loop benefits_of
  block_benefits [] = []
  block_benefits (tx ∷ txs) =
      benefits_of (txid_hex bitcoin tx) (benefits_loop (txid_hex bitcoin tx) 0 (outputs tx) [])
      ++ block_benefits txs

  -- Phase 3a: all keys, and the range of each transaction.
  unfoldable pub key_ranges :
      List Transaction → List UtxoKey × List (ℕ × ℕ) → List UtxoKey × List (ℕ × ℕ)
  unfolding tx_keys
  key_ranges [] acc = acc
  key_ranges (tx ∷ txs) (keys, ranges) =
      let keys' = keys ++ tx_keys bitcoin tx in
      key_ranges txs (keys', ranges ++ (length keys, length keys') ∷ [])

  -- Phase 3c for one transaction. The fee of a coinbase is 0.
  unfoldable pub priced_tx :
      FoundMap
      → List UtxoKey
      → Block
      → ℕ
      → Transaction
      → ℕ × ℕ
      → TransactionData × List PerformsData
  unfolding from_transaction spend_loop performs_of sum_values
  priced_tx found keys block height tx range =
      let (total_input, m) =
        if is_coinbase tx then (0, []) else spend_loop found (slice range keys) (0, []) in
      let total_output = sum_values bitcoin (outputs tx) in
      (
        record (from_transaction bitcoin tx height (bitcoin.block_hash block)
            (pos (bitcoin.time block))) {
              total_input = some total_input;
              total_output = some total_output;
              fee = some (if is_coinbase tx then 0 else total_input - total_output);
            },
        performs_of (txid_hex bitcoin tx) m,
      )

  -- `block.txdata.iter().zip(tx_key_ranges.iter())`.
  unfoldable pub priced_txs :
      FoundMap
      → List UtxoKey
      → Block
      → ℕ
      → List Transaction
      → List (ℕ × ℕ)
      → List TransactionData × List PerformsData
  unfolding priced_tx
  priced_txs found keys block height [] ranges = ([], [])
  priced_txs found keys block height (tx ∷ txs) [] = ([], [])
  priced_txs found keys block height (tx ∷ txs) (range ∷ ranges) =
      let (row, performs) = priced_tx found keys block height tx range in
      let (rows, rest) = priced_txs found keys block height txs ranges in
      (row ∷ rows, performs ++ rest)

  unfoldable pub block_checkpoint : Block → ℕ → Text → Option ℕ → CheckpointData
  block_checkpoint block height file_name file_offset = record {
    last_processed_height = as_i32 height;
    last_processed_hash = bitcoin.block_hash block;
    last_processed_file = file_name;
    last_processed_file_offset = file_offset;
    timestamp = O.now;
    status = "in_progress";
  }

  module _ (W : GraphWriter) where
    abbrev pub Phase : Type 0 → Type 0
    Phase A = Exec (State O W) WriterError A

    unfoldable pub ingest_block_node : Block → ℕ → Phase Unit
    unfolding from_block
    ingest_block_node block height =
        on_db O W (W.write_blocks (from_block bitcoin O.f64 block height ∷ []))

    unfoldable pub ingest_outputs_and_cache : Block → Phase (List OutputData)
    unfolding block_output_rows write_and_cache
    ingest_outputs_and_cache block =
        let rows = block_output_rows (txdata block) in
        write_and_cache O W (W.write_outputs rows) rows >> return rows

    abbrev pub on_db_and_cache :
        {A : Type 0} → Exec (W.Db × UtxoCache lru.LruCache) WriterError A → Phase A
    on_db_and_cache m s =
        let ((db', cache'), result) = m (s.db, s.cache) in
        (record s { db = db'; cache = cache' }, result)

    unfoldable pub ingest_transactions_with_amounts : Block → ℕ → Phase (List PerformsData)
    unfolding key_ranges get_many_with_fallback priced_txs
    ingest_transactions_with_amounts block height =
        let (keys, ranges) = key_ranges (txdata block) ([], []) in
        on_db_and_cache (get_many_with_fallback lru bitcoin.txid_text W keys) >>= λ found.
        let (rows, performs) = priced_txs found keys block height (txdata block) ranges in
        on_db O W (W.write_transactions rows) >> return performs

    unfoldable pub ingest_inputs : Block → ℕ → Phase Unit
    unfolding txs_input_rows
    ingest_inputs block height =
        on_db O W (W.write_inputs (txs_input_rows bitcoin height (txdata block)))

    -- `if !performs_data.is_empty()`.
    unfoldable pub write_performs_rows : List PerformsData → Exec W.Db WriterError Unit
    write_performs_rows [] = return tt
    write_performs_rows (p ∷ performs) = W.write_performs (p ∷ performs)

    unfoldable pub write_benefits_rows : List BenefitsToData → Exec W.Db WriterError Unit
    write_benefits_rows [] = return tt
    write_benefits_rows (b ∷ benefits) = W.write_benefits_to (b ∷ benefits)

    unfoldable pub write_simplified_layer_rust : Block → List PerformsData → Phase Unit
    unfolding block_benefits write_performs_rows write_benefits_rows
    write_simplified_layer_rust block performs =
        on_db O W (write_performs_rows performs)
        >> on_db O W (write_benefits_rows (block_benefits (txdata block)))

    unfoldable pub remove_spent_outputs_from_cache : Block → Phase Unit
    unfolding txs_keys remove_many
    remove_spent_outputs_from_cache block =
        on_cache O W (remove_many lru (txs_keys bitcoin (txdata block)))

    unfoldable pub ingest_block : Block → ℕ → Text → Option ℕ → Phase Unit
    unfolding validate_parent_hash ingest_block_node ingest_outputs_and_cache
        ingest_transactions_with_amounts ingest_inputs write_simplified_layer_rust
        remove_spent_outputs_from_cache block_checkpoint
    ingest_block block height file_name file_offset =
        on_db O W (validate_parent_hash W (bitcoin.prev_blockhash block) height)
        >> ingest_block_node block height
        >> (ingest_outputs_and_cache block >>= λ rows.
            ingest_transactions_with_amounts block height >>= λ performs.
            on_db O W (W.write_has_output_relationships rows)
            >> ingest_inputs block height
            >> write_simplified_layer_rust block performs
            >> remove_spent_outputs_from_cache block
            >> on_db O W
                (W.update_checkpoint (block_checkpoint block height file_name file_offset)))
