-- ===== src/Tests/Batch.antt =====
-- The theorems on batches at concrete inputs.
use bitcoin_chain_graph.Common.{
  ℕ, ◌++◌, ◌==◌, if◌then◌else◌, true, false, ◌%◌, ◌^◌, ◌≤◌, ◌≡◌, ◌⊎◌, refl, List, [], ◌∷◌, none,
  some, length, take, replicate, get_or, total, ℕ_discrete, if◌then◌else◌, arith,
}
use bitcoin_chain_graph.Common.Int.{pos}
use bitcoin_chain_graph.Common.Result.{ok, err}
use bitcoin_chain_graph.Common.Assoc.{lookup, insert, remove}
use bitcoin_chain_graph.Utxo.Key.{UtxoKey, shard_index, UtxoKey-discrete}
use bitcoin_chain_graph.Utxo.OutputId.{to_output_id_string, from_hex_txid}
use bitcoin_chain_graph.Utxo.Cache.{FoundMap, shard, found_get, remove_many}
use bitcoin_chain_graph.Utxo.Cache.Shards.{find as find_cached}
use bitcoin_chain_graph.Utxo.Cache.Groups.{member}
use bitcoin_chain_graph.Writer.Error.{WriterError, database_error, text}
use bitcoin_chain_graph.Writer.Data.{Text, PerformsData, BenefitsToData}
use bitcoin_chain_graph.Writer.Contract.{Contract}
use bitcoin_chain_graph.Writer.Mock
use bitcoin_chain_graph.Writer.Mock.{Tables, Method, MockStorage, set_failure_after_n_calls}
use bitcoin_chain_graph.Writer.Mock.Writes.{
  check_failure, write_blocks_fast, write_outputs_fast, write_transactions_fast,
  write_has_output_relationships, write_inputs_fast, write_performs, write_benefits_to,
}
use bitcoin_chain_graph.Writer.Mock.Queries.{
  update_checkpoint, lookup_outputs_batch, lookup_block_hash, find,
}
use bitcoin_chain_graph.Writer.Mock.Session.{
  begin_transaction, commit_transaction, rollback_transaction,
}
use bitcoin_chain_graph.Writer.Mock.Fulfils.{mock_contract, mock_writer-Contract}
use bitcoin_chain_graph.Parser.Bitcoin.{BitcoinCrate}
use bitcoin_chain_graph.Parser.Address.{extract_address}
use bitcoin_chain_graph.Parser.Address.Cases.{InfoOk, extract_address-InfoOk}
use bitcoin_chain_graph.Ingestion.Chunks.Budget.{memory_before}
use bitcoin_chain_graph.Ingestion.Conversions.{from_output}
use bitcoin_chain_graph.Ingestion.Conversions.Ids.{tag_of, from_output-from_outpoint}
use bitcoin_chain_graph.Ingestion.Amounts.{
  Text-discrete, entry_or, from_outpoint, txid_hex, cached_row, collect_input_keys, chunk_outputs,
  pend_chunk, price_all, spend_loop,
}
use bitcoin_chain_graph.Ingestion.Amounts.Totals.{
  amount_of, counts_for, amount_for, payments_of, spend_loop-total,
}
use bitcoin_chain_graph.Ingestion.Buckets.{
  partition_performs_by_address, partition_benefits_by_address,
}
use bitcoin_chain_graph.Ingestion.Buckets.Partition.{rows_of, partition-rows_of}
use bitcoin_chain_graph.Ingestion.Orchestrator.{State}
use bitcoin_chain_graph.Ingestion.Batch.{ChunkItem, totals, supplement, process_batch_chunk}
use bitcoin_chain_graph.Ingestion.Batch.Written.{
  Written, chunk_found, chunk_cache, process_batch_chunk-Written,
}
use bitcoin_chain_graph.Ingestion.Batch.Cached.{
  Valid, or_else, supplement_lem, process_batch_chunk-spent,
}
use bitcoin_chain_graph.Ingestion.Session.{BatchStats, ingest_blocks_batch, block_memories}
use bitcoin_chain_graph.Ingestion.Session.Atomic.{tables_in, RollbackFailed}
use bitcoin_chain_graph.Ingestion.Session.Committed.{Committed}
use bitcoin_chain_graph.Ingestion.Chunks.{Range, compute_adaptive_chunks}
use bitcoin_chain_graph.Ingestion.Session.Prefix.{Holds}
use bitcoin_chain_graph.Ingestion.Session.Outcome.{
  MemoryFits, ingest_blocks_batch-Holds, ingest_blocks_batch-prefix,
}
use bitcoin_chain_graph.Ingestion.Single.{key_ranges, block_output_rows, block_benefits, priced_txs}
use bitcoin_chain_graph.Ingestion.Single.Agreement.{process_batch_chunk-ingest_block}
use bitcoin_chain_graph.Tests.Instances.{
  halve, twice, twice_text, list_lru, key, coin, cache1, cache0-ShardsOk, cache1-ShardsOk,
}
use bitcoin_chain_graph.Tests.Chain.{
  SomeBlock, some_bitcoin, some_orchestrator, some_writer, second_tx, third_tx, chain, fresh,
}

abbrev some_contract : Contract some_writer
some_contract = mock_contract (pos 9)

chain-MemoryFits : MemoryFits some_orchestrator some_writer chain
unfolding block_memories memory_before
chain-MemoryFits = omega arith

abbrev chain_stats : BatchStats
chain_stats = record { transactions = 3; outputs = 4; inputs = 4; chunks = 2 }

ingested : (ingest_blocks_batch some_orchestrator some_writer chain fresh).1 ≡ ok chain_stats
unfolding ingest_blocks_batch shard_index lookup insert remove check_failure Mock.new
    begin_transaction commit_transaction write_blocks_fast write_outputs_fast
    write_transactions_fast write_has_output_relationships write_inputs_fast write_performs
    write_benefits_to update_checkpoint lookup_outputs_batch lookup_block_hash find shard halve
    twice UtxoKey-discrete Text-discrete ℕ_discrete
ingested = refl

ingest_blocks_batch-Holds_example :
    Holds some_orchestrator chain (tables_in some_orchestrator some_writer some_contract fresh) (
      tables_in some_orchestrator some_writer some_contract
        (ingest_blocks_batch some_orchestrator some_writer chain fresh).0)
ingest_blocks_batch-Holds_example =
    ingest_blocks_batch-Holds some_orchestrator some_writer some_contract chain fresh chain_stats
      chain-MemoryFits ingested

-- The second checkpoint cannot be written.
abbrev no_space : WriterError
no_space = database_error (text [])

abbrev flaky : State some_orchestrator some_writer
flaky = record fresh { db = set_failure_after_n_calls Method.update_checkpoint 1 no_space fresh.db }

failed_batch : (ingest_blocks_batch some_orchestrator some_writer chain flaky).1 ≡ err no_space
unfolding ingest_blocks_batch shard_index lookup insert remove check_failure Mock.new
    begin_transaction commit_transaction rollback_transaction write_blocks_fast write_outputs_fast
    write_transactions_fast write_has_output_relationships write_inputs_fast write_performs
    write_benefits_to update_checkpoint lookup_outputs_batch lookup_block_hash find shard halve
    twice UtxoKey-discrete Text-discrete ℕ_discrete set_failure_after_n_calls
failed_batch = refl

ingest_blocks_batch-prefix_example :
    let s' = (ingest_blocks_batch some_orchestrator some_writer chain flaky).0 in
    let t0 = tables_in some_orchestrator some_writer some_contract flaky in
    (before : List Range) × (failing : Range) × (after : List Range) × (n : ℕ) × (t : Tables)
    × (compute_adaptive_chunks (block_memories some_orchestrator some_writer chain) 20000
        ≡ before ++ failing ∷ after)
    × Committed some_orchestrator chain before t0 t
    × (n ≤ 2)
    × Holds some_orchestrator (take n chain) t0 t
    × ((tables_in some_orchestrator some_writer some_contract s' ≡ t)
        ⊎ RollbackFailed some_orchestrator some_writer some_contract t s')
ingest_blocks_batch-prefix_example =
    ingest_blocks_batch-prefix some_orchestrator some_writer some_contract chain flaky no_space
      chain-MemoryFits failed_batch

-- Both blocks in one chunk.
one_chunk : (process_batch_chunk some_orchestrator some_writer chain [] fresh).1 ≡ ok (3, 4, 4)
unfolding process_batch_chunk shard_index lookup insert remove check_failure Mock.new
    write_blocks_fast write_outputs_fast write_transactions_fast write_has_output_relationships
    write_inputs_fast write_performs write_benefits_to update_checkpoint shard halve twice
    UtxoKey-discrete Text-discrete ℕ_discrete
one_chunk = refl

process_batch_chunk-Written_example :
    ((3, 4, 4) ≡ totals some_orchestrator chain)
    × Written some_orchestrator chain
        (chunk_found some_orchestrator chain [] fresh.cache)
        (tables_in some_orchestrator some_writer some_contract fresh)
        (tables_in some_orchestrator some_writer some_contract
          (process_batch_chunk some_orchestrator some_writer chain [] fresh).0)
    × ((process_batch_chunk some_orchestrator some_writer chain [] fresh).0.cache
        ≡ remove_many list_lru
            (collect_input_keys some_bitcoin chain)
            (chunk_cache some_orchestrator chain [] fresh.cache))
process_batch_chunk-Written_example =
    process_batch_chunk-Written some_orchestrator some_writer some_contract chain [] fresh (3, 4, 4)
      one_chunk

-- The output of the first transaction, which the second spends.
abbrev first_key : UtxoKey
first_key = record { txid = replicate 32 1; vout = 0 }

process_batch_chunk-spent_example :
    let c = (process_batch_chunk some_orchestrator some_writer chain [] fresh).0.cache in
    Valid some_orchestrator c
    × (find_cached list_lru c.shards first_key ≡ (
        if member first_key (collect_input_keys some_bitcoin chain)
        then none
        else find_cached list_lru
            (chunk_cache some_orchestrator chain [] fresh.cache).shards
            first_key))
process_batch_chunk-spent_example =
    process_batch_chunk-spent some_orchestrator some_writer some_contract chain [] fresh (3, 4, 4)
      first_key cache0-ShardsOk one_chunk

abbrev second_block : SomeBlock
second_block = record { number = 1; txs = third_tx ∷ [] }

process_batch_chunk-ingest_block_example :
    let block : List (ChunkItem some_orchestrator) = (1, second_block, b'f' ∷ []) ∷ [] in
    let (keys, ranges) = key_ranges some_orchestrator (third_tx ∷ []) ([], []) in
    let (keys', pending) = pend_chunk some_bitcoin block ([], []) in
    (chunk_outputs some_bitcoin tt block ([], []) ≡ (
      block_output_rows some_orchestrator (third_tx ∷ []),
      block_benefits some_orchestrator (third_tx ∷ []),
    ))
    × (keys' ≡ keys)
    × (price_all some_bitcoin ((first_key, coin 5) ∷ []) keys' pending ([], [])
        ≡ priced_txs some_orchestrator
            ((first_key, coin 5) ∷ [])
            keys
            second_block
            1
            (third_tx ∷ [])
            ranges)
process_batch_chunk-ingest_block_example =
    process_batch_chunk-ingest_block some_orchestrator 1 second_block (b'f' ∷ [])
      ((first_key, coin 5) ∷ [])

supplement_lem_example :
    let (c', found') = supplement some_orchestrator (key 1 ∷ key 2 ∷ []) (cache1, []) in
    Valid some_orchestrator c'
    × (find_cached list_lru c'.shards (key 1) ≡ find_cached list_lru cache1.shards (key 1))
    × (found_get (key 1) found'
        ≡ or_else (found_get (key 1) []) (
            if member (key 1) (key 1 ∷ key 2 ∷ [])
            then find_cached list_lru cache1.shards (key 1)
            else none))
supplement_lem_example =
    supplement_lem some_orchestrator (key 1 ∷ key 2 ∷ []) [] cache1 (key 1) cache1-ShardsOk

mock_writer-Contract_example :
    (C : Contract some_writer) × ((s : MockStorage) → C.view s ≡ s.tables)
mock_writer-Contract_example = mock_writer-Contract (pos 9)

abbrev performs_row : Text → PerformsData
performs_row address = record {
  from_address = address;
  to_txid = [];
  input_count = 1;
  amount_spent = 5;
}

abbrev some_performs : List PerformsData
some_performs =
    performs_row (b'a' ∷ []) ∷ performs_row (b'b' ∷ b'b' ∷ []) ∷ performs_row (b'c' ∷ []) ∷ []

partition-rows_of_example :
    (get_or (partition_performs_by_address length some_performs 8) 1 []
      ≡ rows_of length (λ (p : PerformsData). p.from_address) 8 1 some_performs)
    × (get_or (partition_benefits_by_address length [] 8) 1 []
        ≡ rows_of length (λ (b : BenefitsToData). b.to_address) 8 1 [])
partition-rows_of_example = partition-rows_of length some_performs [] 8 1 (omega arith)

spend_loop-total_example :
    let found : FoundMap = (key 1, coin 5) ∷ (key 2, coin 7) ∷ [] in
    let keys = key 1 ∷ key 2 ∷ key 3 ∷ [] in
    let address : Text = b'a' ∷ b'b' ∷ [] in
    let payments = payments_of found keys in
    ((spend_loop found keys (0, [])).0 ≡ total amount_of payments % 2 ^ 64)
    × (entry_or (lookup Text-discrete address (spend_loop found keys (0, [])).1) ≡ (
      total (counts_for address) payments % 2 ^ 32,
      total (amount_for address) payments % 2 ^ 64,
    ))
spend_loop-total_example =
    spend_loop-total ((key 1, coin 5) ∷ (key 2, coin 7) ∷ []) (key 1 ∷ key 2 ∷ key 3 ∷ [])
      (b'a' ∷ b'b' ∷ [])

-- The second output of the second transaction, and the input of the third that spends it.
from_output-from_outpoint_example :
    let row = from_output some_bitcoin (29, b'a' ∷ []) (txid_hex some_bitcoin second_tx) 1 tt in
    let info = extract_address some_bitcoin (b'a' ∷ []) tt in
    (from_hex_txid twice_text row.txid row.output_index ≡ some (from_outpoint some_bitcoin (2, 1)))
    × (row.output_id ≡ to_output_id_string twice_text (from_outpoint some_bitcoin (2, 1)))
    × (cached_row row ≡ record {
      output_index = 1;
      amount = 29;
      script_type = tag_of info.script_type;
      address = info.address;
    })
from_output-from_outpoint_example =
    from_output-from_outpoint some_bitcoin tt second_tx (29, b'a' ∷ []) 1 (2, 1) refl refl

-- Scripts are witness programs of version 0, which have an address at their two lengths.
abbrev witness_bitcoin : BitcoinCrate
witness_bitcoin = record some_bitcoin {
  is_p2pkh = λ s. false;
  is_witness_program = λ s. true;
  witness_version = λ s. some 0;
  from_script = λ s n. if length s == 22 then some s else if length s == 34 then some s else none;
}

extract_address-InfoOk_example : InfoOk (extract_address witness_bitcoin (b'a' ∷ []) tt)
extract_address-InfoOk_example =
    extract_address-InfoOk witness_bitcoin (b'a' ∷ []) tt (λ program version odd. refl)
