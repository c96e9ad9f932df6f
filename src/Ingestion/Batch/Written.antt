-- ===== src/Ingestion/Batch/Written.antt =====
-- What the phases of a chunk (src/domain/ingestion.rs, `process_batch_chunk`) have written when they
-- succeed.
use bitcoin_chain_graph.Common.{
  ℕ, ◌+◌, ◌≡◌, refl, sym, ap, ◌∙◌, List, [], ◌∷◌, ◌++◌, Option, some, total, arith,
}
use bitcoin_chain_graph.Common.Result.{ok, ok-inj}
use bitcoin_chain_graph.Common.Exec.{◌>>=◌, ◌>>◌, return, bind-result}
use mathlib.Core.Path.{subst}
use bitcoin_chain_graph.Writer.Data.{
  CheckpointData, OutputData, TransactionData, PerformsData, BenefitsToData,
}
use bitcoin_chain_graph.Writer.Mock.{Tables}
use bitcoin_chain_graph.Writer.Graph.{GraphWriter}
use bitcoin_chain_graph.Writer.Contract.{
  Contract, add_blocks, add_outputs, add_transactions, add_inputs,
}
use bitcoin_chain_graph.Utxo.Key.{UtxoKey}
use bitcoin_chain_graph.Utxo.Cache.{UtxoCache, FoundMap, remove_many}
use bitcoin_chain_graph.Ingestion.Amounts.{
  PendingTx, price_all, chunk_input_rows, collect_input_keys, chunk_outputs, pend_chunk, block_rows,
}
use bitcoin_chain_graph.Ingestion.Buckets.{
  spawn_tasks, partition_performs_by_address, partition_benefits_by_address,
}
use bitcoin_chain_graph.Ingestion.Buckets.Written.{Rest, rest_of, tables_weight, Grows}
use bitcoin_chain_graph.Ingestion.Buckets.Schedule.{run_tasks-Grows}
use bitcoin_chain_graph.Ingestion.Buckets.Partition.{partition-weight}
use bitcoin_chain_graph.Ingestion.Orchestrator.{Orchestrator, State, on_db, on_cache}
use bitcoin_chain_graph.Ingestion.Batch.{
  ChunkItem, num_buckets, has_bip30, totals, cache_rows, supplement, supplemented, batch_checkpoint,
  last_item, write_transaction_rows, write_output_rows, write_input_rows, write_buckets,
  write_and_cache, write_checkpoint, write_priced, process_batch_chunk,
}
use bitcoin_chain_graph.Ingestion.Batch.Kept.{
  write_output_rows-Does, write_transaction_rows-Does, write_input_rows-Does,
}

module _ (O : Orchestrator) where
  -- The outputs that a chunk finds for its inputs: those that were fetched before, and those that the
  -- cache has once the outputs of the chunk itself are in it.
  unfoldable pub chunk_found : List (ChunkItem O) → FoundMap → UtxoCache O.lru.LruCache → FoundMap
  chunk_found chunk prefetched cache =
      (supplement O (pend_chunk O.bitcoin chunk ([], [])).0
        (cache_rows O (chunk_outputs O.bitcoin O.network chunk ([], [])).0 cache, prefetched)).1

  -- The cache after these look-ups.
  unfoldable pub chunk_cache :
      List (ChunkItem O) → FoundMap → UtxoCache O.lru.LruCache → UtxoCache O.lru.LruCache
  chunk_cache chunk prefetched cache =
      (supplement O (pend_chunk O.bitcoin chunk ([], [])).0
        (cache_rows O (chunk_outputs O.bitcoin O.network chunk ([], [])).0 cache, prefetched)).0

  -- The rows of the transactions of a chunk, with their PERFORMS rows.
  unfoldable pub chunk_priced :
      List (ChunkItem O) → FoundMap → List TransactionData × List PerformsData
  chunk_priced chunk found =
      let (keys, pending) = pend_chunk O.bitcoin chunk ([], []) in
      price_all O.bitcoin found keys pending ([], [])

  -- The checkpoint moves to the last block.
  unfoldable pub checkpoint_after :
      List (ChunkItem O) → Option CheckpointData → Option CheckpointData
  checkpoint_after [] c = c
  checkpoint_after (item ∷ chunk) c = some (batch_checkpoint O (last_item O item chunk))

  -- The tables after a chunk: each table grows by the rows of the chunk, those of PERFORMS and
  -- BENEFITS_TO in some order.
  pub record Written (chunk : List (ChunkItem O)) (found : FoundMap) (t t' : Tables) : Type 0 where
    pub blocks_written : t'.blocks ≡ t.blocks ++ block_rows O.bitcoin O.f64 chunk
    pub outputs_written :
        t'.outputs ≡ t.outputs ++ (chunk_outputs O.bitcoin O.network chunk ([], [])).0
    pub transactions_written : t'.transactions ≡ t.transactions ++ (chunk_priced chunk found).0
    pub inputs_written : t'.inputs ≡ t.inputs ++ chunk_input_rows O.bitcoin chunk
    pub relations_written :
        (wp : PerformsData → ℕ) (wb : BenefitsToData → ℕ)
        → tables_weight wp wb t'
          ≡ tables_weight wp wb t
            + (total wp (chunk_priced chunk found).1
                + total wb (chunk_outputs O.bitcoin O.network chunk ([], [])).1)
    pub checkpoint_written : t'.checkpoint ≡ checkpoint_after chunk t.checkpoint

  module _ (W : GraphWriter) (C : Contract W) where
    open C use {view, InTxn}

    write_buckets-Grows :
        (performs : List PerformsData) (benefits : List BenefitsToData) (wp : PerformsData → ℕ)
        (wb : BenefitsToData → ℕ) (s : State O W) (a : Unit {0})
        → (write_buckets O W performs benefits s).1 ≡ ok a
        → Grows wp wb
            (total wp performs + total wb benefits)
            (view s.db)
            (view (write_buckets O W performs benefits s).0.db)
    unfolding write_buckets
    write_buckets-Grows performs benefits wp wb s a h =
        let tasks =
          spawn_tasks (partition_performs_by_address O.string_hash performs num_buckets)
            (partition_benefits_by_address O.string_hash benefits num_buckets) in
        let g = run_tasks-Grows W wp wb C O.schedule tasks s.db a h in
        (
          g.0,
          g.1
              ∙ ap (λ n. tables_weight wp wb (view s.db) + n)
                  (partition-weight wp wb O.string_hash performs benefits num_buckets
                    (omega arith)),
        )

    write_checkpoint-done :
        (chunk : List (ChunkItem O)) (db : W.Db) (a : Unit {0})
        → (write_checkpoint O W chunk db).1 ≡ ok a
        → view (write_checkpoint O W chunk db).0
          ≡ record (view db) { checkpoint = checkpoint_after chunk (view db).checkpoint }
    unfolding write_checkpoint checkpoint_after
    write_checkpoint-done [] db a h = refl
    write_checkpoint-done (item ∷ chunk) db a h =
        (C.checkpoint (batch_checkpoint O (last_item O item chunk))).done db a h

    -- Phases 3c to 7, step by step.
    record Tail (chunk : List (ChunkItem O)) (rows : List TransactionData)
        (performs : List PerformsData) (benefits : List BenefitsToData) (t t' : Tables)
        : Type 0 where
      main : Tables
      main_is : main ≡ add_inputs (chunk_input_rows O.bitcoin chunk) (add_transactions rows t)
      spread : Tables
      grows :
          (wp : PerformsData → ℕ) (wb : BenefitsToData → ℕ)
          → Grows wp wb (total wp performs + total wb benefits) main spread
      end_is : t' ≡ record spread { checkpoint = checkpoint_after chunk spread.checkpoint }

    write_priced-Tail :
        (chunk : List (ChunkItem O)) (rows : List OutputData) (benefits : List BenefitsToData)
        (keys : List UtxoKey) (pending : List (PendingTx O.bitcoin)) (found : FoundMap)
        (s : State O W) (counts : ℕ × ℕ × ℕ)
        → (write_priced O W chunk rows benefits keys pending found s).1 ≡ ok counts
        → let (tx_rows, performs) = price_all O.bitcoin found keys pending ([], []) in
          (counts ≡ totals O chunk)
          × Tail chunk tx_rows performs benefits
              (view s.db)
              (view (write_priced O W chunk rows benefits keys pending found s).0.db)
          × ((write_priced O W chunk rows benefits keys pending found s).0.cache
              ≡ remove_many O.lru (collect_input_keys O.bitcoin chunk) s.cache)
    unfolding write_priced
    write_priced-Tail chunk rows benefits keys pending found s counts h =
        let bip30 = has_bip30 O chunk in
        let (tx_rows, performs) = price_all O.bitcoin found keys pending ([], []) in
        let input_rows = chunk_input_rows O.bitcoin chunk in
        let m3 = on_db O W (write_transaction_rows O W bip30 tx_rows) in
        let m35 = on_db O W (W.write_has_output_relationships_fast rows) in
        let m4 = on_db O W (write_input_rows O W bip30 input_rows) in
        let m6 = write_buckets O W performs benefits in
        let m7 = on_cache O W (remove_many O.lru (collect_input_keys O.bitcoin chunk)) in
        let m8 = on_db O W (write_checkpoint O W chunk) in
        let end = return (totals O chunk) in
        let (a8, h8, hr, at8) =
          bind-result (m3 >> m35 >> m4 >> m6 >> m7 >> m8) (λ a. end) s counts h in
        let (a7, h7, g8, at7) = bind-result (m3 >> m35 >> m4 >> m6 >> m7) (λ a. m8) s a8 h8 in
        let (a6, h6, g7, at6) = bind-result (m3 >> m35 >> m4 >> m6) (λ a. m7) s a7 h7 in
        let (a4, h4, g6, at4) = bind-result (m3 >> m35 >> m4) (λ a. m6) s a6 h6 in
        let (a35, h35, g4, at35) = bind-result (m3 >> m35) (λ a. m4) s a4 h4 in
        let (a3, g3, g35, at3) = bind-result m3 (λ a. m35) s a35 h35 in
        let s3 = (m3 s).0 in
        let s35 = ((m3 >> m35) s).0 in
        let s4 = ((m3 >> m35 >> m4) s).0 in
        let s6 = ((m3 >> m35 >> m4 >> m6) s).0 in
        let s7 = ((m3 >> m35 >> m4 >> m6 >> m7) s).0 in
        let db_view : State O W → Tables = λ x. view x.db in
        let e3 = (write_transaction_rows-Does O W C bip30 tx_rows).done s.db a3 g3 in
        let e35 = ap db_view at3 ∙ (C.has_output_fast rows).done s3.db a35 g35 ∙ e3 in
        let e4 =
          ap db_view at35
          ∙ (write_input_rows-Does O W C bip30 input_rows).done s35.db a4 g4
          ∙ ap (add_inputs input_rows) e35 in
        let e8 = ap db_view at7 ∙ write_checkpoint-done chunk s7.db a8 g8 in
        let cache_in : State O W → UtxoCache O.lru.LruCache = λ x. x.cache in
        let same7 : view s7.db ≡ view s6.db = ap db_view at6 in
        (
          ok-inj counts (totals O chunk) (sym hr),
          record {
            main = view s4.db;
            main_is = e4;
            spread = view s6.db;
            grows = λ wp wb.
                subst
                  (λ x.
                    Grows wp wb (total wp performs + total wb benefits) (view s4.db) (view x.db))
                  (sym at4) (write_buckets-Grows performs benefits wp wb s4 a6 g6);
            end_is =
                ap db_view at8
                ∙ e8
                ∙ ap (λ (t : Tables). record t { checkpoint = checkpoint_after chunk t.checkpoint })
                    same7;
          },
          ap cache_in at8
              ∙ ap cache_in at7
              ∙ ap cache_in at6
              ∙ ap (remove_many O.lru (collect_input_keys O.bitcoin chunk))
                  (ap cache_in at4 ∙ ap cache_in at35 ∙ ap cache_in at3),
        )

    Tail-Written :
        (chunk : List (ChunkItem O)) (found : FoundMap) (t t1 t' : Tables)
        → t1
          ≡ add_outputs
              (chunk_outputs O.bitcoin O.network chunk ([], [])).0
              (add_blocks (block_rows O.bitcoin O.f64 chunk) t)
        → Tail chunk
            (chunk_priced chunk found).0
            (chunk_priced chunk found).1
            (chunk_outputs O.bitcoin O.network chunk ([], [])).1
            t1
            t'
        → Written chunk found t t'
    Tail-Written chunk found t t1 t' before tail =
        let effect : Tables → Tables = λ x.
          add_inputs (chunk_input_rows O.bitcoin chunk)
            (add_transactions (chunk_priced chunk found).0 x) in
        let main = tail.main_is ∙ ap effect before in
        let rest = (tail.grows (λ p. 0) (λ b. 0)).0 ∙ ap rest_of main in
        record {
          blocks_written = ap (λ (x : Tables). x.blocks) tail.end_is ∙ ap (λ (r : Rest). r.0) rest;
          transactions_written =
              ap (λ (x : Tables). x.transactions) tail.end_is ∙ ap (λ (r : Rest). r.1) rest;
          outputs_written =
              ap (λ (x : Tables). x.outputs) tail.end_is ∙ ap (λ (r : Rest). r.2) rest;
          inputs_written = ap (λ (x : Tables). x.inputs) tail.end_is ∙ ap (λ (r : Rest). r.3) rest;
          relations_written = λ wp wb.
              ap (tables_weight wp wb) tail.end_is
              ∙ (tail.grows wp wb).1
              ∙ ap
                  (λ (x : Tables).
                    tables_weight wp wb x
                    + (total wp (chunk_priced chunk found).1
                        + total wb (chunk_outputs O.bitcoin O.network chunk ([], [])).1))
                  main;
          checkpoint_written =
              ap (λ (x : Tables). x.checkpoint) tail.end_is
              ∙ ap (λ (r : Rest). checkpoint_after chunk r.4) rest;
        }

    -- A chunk that succeeds has written the rows of its blocks, has moved the checkpoint to the last
    -- of them, and returns how many transactions, outputs and inputs they have.
    pub process_batch_chunk-Written :
        (chunk : List (ChunkItem O)) (prefetched : FoundMap) (s : State O W) (counts : ℕ × ℕ × ℕ)
        → (process_batch_chunk O W chunk prefetched s).1 ≡ ok counts
        → (counts ≡ totals O chunk)
          × Written chunk
              (chunk_found chunk prefetched s.cache)
              (view s.db)
              (view (process_batch_chunk O W chunk prefetched s).0.db)
          × ((process_batch_chunk O W chunk prefetched s).0.cache
              ≡ remove_many O.lru
                  (collect_input_keys O.bitcoin chunk)
                  (chunk_cache chunk prefetched s.cache))
    unfolding process_batch_chunk chunk_found chunk_cache chunk_priced supplemented write_and_cache
    process_batch_chunk-Written chunk prefetched s counts h =
        let bip30 = has_bip30 O chunk in
        let (rows, benefits) = chunk_outputs O.bitcoin O.network chunk ([], []) in
        let (keys, pending) = pend_chunk O.bitcoin chunk ([], []) in
        let block_data = block_rows O.bitcoin O.f64 chunk in
        let m1 = on_db O W (W.write_blocks_fast block_data) in
        let m2 = write_and_cache O W (write_output_rows O W bip30 rows) rows in
        let m3 = write_priced O W chunk rows benefits keys pending in
        let sup = supplemented O W keys prefetched in
        let (a2, h2, hr, at) = bind-result (m1 >> m2) (λ a. sup >>= m3) s counts h in
        let (a1, g1, g2, at2) = bind-result m1 (λ a. m2) s a2 h2 in
        let s1 = (m1 s).0 in
        let s2 = ((m1 >> m2) s).0 in
        let db_view : State O W → Tables = λ x. view x.db in
        let e1 = (C.blocks_fast block_data).done s.db a1 g1 in
        let same : s2.cache ≡ cache_rows O rows s.cache = ap (λ (x : State O W). x.cache) at2 in
        let e2 : view s2.db ≡ add_outputs rows (add_blocks block_data (view s.db)) =
          ap db_view at2
          ∙ (write_output_rows-Does O W C bip30 rows).done s1.db a2 g2
          ∙ ap (add_outputs rows) e1 in
        let s3 = (sup s2).0 in
        let found = (supplement O keys (s2.cache, prefetched)).1 in
        let tail = write_priced-Tail chunk rows benefits keys pending found s3 counts hr in
        let wrote =
          Tail-Written chunk found (view s.db) (view s3.db) (view (m3 found s3).0.db) e2 tail.1 in
        (
          tail.0,
          subst
              (λ c.
                Written chunk (supplement O keys (c, prefetched)).1 (view s.db)
                  (view (process_batch_chunk O W chunk prefetched s).0.db))
              same (subst (λ x. Written chunk found (view s.db) (view x.db)) (sym at) wrote),
          ap (λ (x : State O W). x.cache) at
              ∙ tail.2
              ∙ ap
                  (λ c.
                    remove_many O.lru (collect_input_keys O.bitcoin chunk)
                      (supplement O keys (c, prefetched)).0)
                  same,
        )
