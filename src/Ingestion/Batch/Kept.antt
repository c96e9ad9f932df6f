-- ===== src/Ingestion/Batch/Kept.antt =====
-- The phases of a chunk (src/domain/ingestion.rs, `process_batch_chunk`) inside its transaction.
use bitcoin_chain_graph.Common.{Bool, true, List, [], ◌∷◌}
use bitcoin_chain_graph.Common.Exec.{Exec, ◌>>=◌, ◌>>◌, return, bind-state}
use bitcoin_chain_graph.Writer.Error.{WriterError}
use bitcoin_chain_graph.Writer.Data.{
  OutputData, TransactionData, InputData, PerformsData, BenefitsToData,
}
use bitcoin_chain_graph.Writer.Mock.{Tables}
use bitcoin_chain_graph.Writer.Graph.{GraphWriter}
use bitcoin_chain_graph.Writer.Contract.{Does, Contract, add_outputs, add_transactions, add_inputs}
use bitcoin_chain_graph.Utxo.Key.{UtxoKey}
use bitcoin_chain_graph.Utxo.Cache.{FoundMap, remove_many}
use bitcoin_chain_graph.Ingestion.Amounts.{
  PendingTx, price_all, chunk_input_rows, collect_input_keys, chunk_outputs, pend_chunk, block_rows,
}
use bitcoin_chain_graph.Ingestion.Buckets.Kept.{run_tasks-InTxn}
use bitcoin_chain_graph.Ingestion.Orchestrator.{Orchestrator, State, on_db, on_cache}
use bitcoin_chain_graph.Ingestion.Batch.{
  ChunkItem, has_bip30, totals, supplemented, write_output_rows, write_transaction_rows,
  write_input_rows, write_buckets, write_and_cache, write_checkpoint, write_priced,
  process_batch_chunk,
}

module _ (O : Orchestrator) (W : GraphWriter) (C : Contract W) where
  open C use {view, InTxn}

  -- The plain write and the fast one have the same effect.
  pub write_output_rows-Does :
      (bip30 : Bool) (rows : List OutputData)
      → Does view InTxn (write_output_rows O W bip30 rows) (add_outputs rows)
  unfolding write_output_rows
  write_output_rows-Does true rows = C.outputs rows
  write_output_rows-Does Bool.false rows = C.outputs_fast rows

  pub write_transaction_rows-Does :
      (bip30 : Bool) (rows : List TransactionData)
      → Does view InTxn (write_transaction_rows O W bip30 rows) (add_transactions rows)
  unfolding write_transaction_rows
  write_transaction_rows-Does true rows = C.transactions rows
  write_transaction_rows-Does Bool.false rows = C.transactions_fast rows

  pub write_input_rows-Does :
      (bip30 : Bool) (rows : List InputData)
      → Does view InTxn (write_input_rows O W bip30 rows) (add_inputs rows)
  unfolding write_input_rows
  write_input_rows-Does true rows = C.inputs rows
  write_input_rows-Does Bool.false rows = C.inputs_fast rows

  -- A computation that keeps a transaction open.
  abbrev Keeps : {A : Type 0} → Exec (State O W) WriterError A → Type 0
  Keeps m = (t0 : Tables) (s : State O W) → InTxn t0 s.db → InTxn t0 (m s).0.db

  bind-Keeps :
      {A B : Type 0} (m : Exec (State O W) WriterError A) (f : A → Exec (State O W) WriterError B)
      → Keeps m
      → ((a : A) → Keeps (f a))
      → Keeps (m >>= f)
  bind-Keeps m f first rest t0 s h =
      bind-state (λ s'. InTxn t0 s'.db) m f s (first t0 s h)
        (λ a e. rest a t0 (m s).0 (first t0 s h))

  seq-Keeps :
      {A B : Type 0} (m : Exec (State O W) WriterError A) (n : Exec (State O W) WriterError B)
      → Keeps m
      → Keeps n
      → Keeps (m >> n)
  seq-Keeps m n first rest = bind-Keeps m (λ a. n) first (λ a. rest)

  on_db-Keeps :
      {f : Tables → Tables} (m : Exec W.Db WriterError Unit)
      → Does view InTxn m f
      → Keeps (on_db O W m)
  on_db-Keeps m d t0 s h = d.keeps t0 s.db h

  write_checkpoint-Keeps :
      (chunk : List (ChunkItem O)) → Keeps (on_db O W (write_checkpoint O W chunk))
  unfolding write_checkpoint
  write_checkpoint-Keeps [] t0 s h = h
  write_checkpoint-Keeps (item ∷ chunk) t0 s h = (C.checkpoint _).keeps t0 s.db h

  write_buckets-Keeps :
      (performs : List PerformsData) (benefits : List BenefitsToData)
      → Keeps (write_buckets O W performs benefits)
  unfolding write_buckets
  write_buckets-Keeps performs benefits t0 s h = run_tasks-InTxn W C t0 O.schedule _ s.db h

  write_priced-Keeps :
      (chunk : List (ChunkItem O)) (rows : List OutputData) (benefits : List BenefitsToData)
      (keys : List UtxoKey) (pending : List (PendingTx O.bitcoin)) (found : FoundMap)
      → Keeps (write_priced O W chunk rows benefits keys pending found)
  unfolding write_priced
  write_priced-Keeps chunk rows benefits keys pending found =
      let bip30 = has_bip30 O chunk in
      let (tx_rows, performs) = price_all O.bitcoin found keys pending ([], []) in
      let input_rows = chunk_input_rows O.bitcoin chunk in
      let m3 = on_db O W (write_transaction_rows O W bip30 tx_rows) in
      let m35 = on_db O W (W.write_has_output_relationships_fast rows) in
      let m4 = on_db O W (write_input_rows O W bip30 input_rows) in
      let m6 = write_buckets O W performs benefits in
      let m7 = on_cache O W (remove_many O.lru (collect_input_keys O.bitcoin chunk)) in
      let m8 = on_db O W (write_checkpoint O W chunk) in
      let k4 =
        seq-Keeps (m3 >> m35) m4
          (seq-Keeps m3 m35 (on_db-Keeps _ (write_transaction_rows-Does bip30 tx_rows))
            (on_db-Keeps _ (C.has_output_fast rows)))
          (on_db-Keeps _ (write_input_rows-Does bip30 input_rows)) in
      let k6 = seq-Keeps (m3 >> m35 >> m4) m6 k4 (write_buckets-Keeps performs benefits) in
      let k7 = seq-Keeps (m3 >> m35 >> m4 >> m6) m7 k6 (λ t0 s h. h) in
      let k8 = seq-Keeps (m3 >> m35 >> m4 >> m6 >> m7) m8 k7 (write_checkpoint-Keeps chunk) in
      seq-Keeps (m3 >> m35 >> m4 >> m6 >> m7 >> m8) (return (totals O chunk)) k8 (λ t0 s h. h)

  -- Every path through the phases of a chunk keeps the transaction open.
  pub process_batch_chunk-InTxn :
      (chunk : List (ChunkItem O)) (prefetched : FoundMap)
      → Keeps (process_batch_chunk O W chunk prefetched)
  unfolding process_batch_chunk write_and_cache supplemented
  process_batch_chunk-InTxn chunk prefetched =
      let (rows, benefits) = chunk_outputs O.bitcoin O.network chunk ([], []) in
      let (keys, pending) = pend_chunk O.bitcoin chunk ([], []) in
      let bip30 = has_bip30 O chunk in
      let m1 = on_db O W (W.write_blocks_fast (block_rows O.bitcoin O.f64 chunk)) in
      let m2 = write_and_cache O W (write_output_rows O W bip30 rows) rows in
      let m3 = write_priced O W chunk rows benefits keys pending in
      seq-Keeps (m1 >> m2) (supplemented O W keys prefetched >>= m3)
        (seq-Keeps m1 m2 (on_db-Keeps _ (C.blocks_fast _))
          (λ t0 s h. (write_output_rows-Does bip30 rows).keeps t0 s.db h))
        (bind-Keeps (supplemented O W keys prefetched) m3 (λ t0 s h. h)
          (write_priced-Keeps chunk rows benefits keys pending))
