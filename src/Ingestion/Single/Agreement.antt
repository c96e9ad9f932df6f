-- ===== src/Ingestion/Single/Agreement.antt =====
-- The rows that a chunk of a batch builds against those that a single block builds
-- (src/domain/ingestion.rs, `process_batch_chunk` and `ingest_block`).
use bitcoin_chain_graph.Common.{
  ℕ, suc, ◌+◌, ◌-◌, ◌%◌, ◌^◌, ◌≡◌, refl, sym, ap, ◌∙◌, inl, inr, List, [], ◌∷◌, ◌++◌, append-nil,
  append_assoc, length, Bool-cases, arith,
}
use bitcoin_chain_graph.Common.Int.{ℤ, pos}
use bitcoin_chain_graph.Writer.Data.{
  Text, OutputData, BenefitsToData, TransactionData, PerformsData,
}
use bitcoin_chain_graph.Utxo.Key.{UtxoKey}
use bitcoin_chain_graph.Utxo.Cache.{FoundMap}
use bitcoin_chain_graph.Ingestion.Conversions.{from_output}
use bitcoin_chain_graph.Ingestion.Amounts.{
  AmountMap, tally_address, benefits_of, tx_keys, txs_keys, txid_hex, output_loop, txs_outputs,
  chunk_outputs, PendingTx, pend_txs, pend_chunk, sum_values, priced, price_all,
}
use bitcoin_chain_graph.Ingestion.Orchestrator.{Orchestrator}
use bitcoin_chain_graph.Ingestion.Batch.{ChunkItem}
use bitcoin_chain_graph.Ingestion.Single.{
  output_rows, block_output_rows, benefits_loop, block_benefits, key_ranges, priced_tx, priced_txs,
}

module _ (O : Orchestrator) where
  open O use {bitcoin, network}
  open bitcoin use {Block, Transaction, TxOut, txdata, outputs, is_coinbase, value}

  output_loop-rows :
      (txid : Text) (index : ℕ) (outs : List TxOut) (rows : List OutputData) (m : AmountMap)
      → output_loop bitcoin network txid index outs (rows, m)
        ≡ (rows ++ output_rows O txid index outs, benefits_loop O txid index outs m)
  unfolding output_loop output_rows benefits_loop
  output_loop-rows txid index [] rows m = ap (λ r. (r, m)) (sym (append-nil rows))
  output_loop-rows txid index (o ∷ outs) rows m =
      let row = from_output bitcoin o txid (index % 2 ^ 32) network in
      let m' = tally_address row.address (value o) m in
      let next : suc index ≡ 1 + index = omega arith in
      ap (λ i. output_loop bitcoin network txid i outs (rows ++ row ∷ [], m')) next
      ∙ output_loop-rows txid (1 + index) outs (rows ++ row ∷ []) m'
      ∙ ap (λ r. (r, benefits_loop O txid (1 + index) outs m'))
          (append_assoc rows (row ∷ []) (output_rows O txid (1 + index) outs))

  pub txs_outputs-rows :
      (txs : List Transaction) (rows : List OutputData) (benefits : List BenefitsToData)
      → txs_outputs bitcoin network txs (rows, benefits)
        ≡ (rows ++ block_output_rows O txs, benefits ++ block_benefits O txs)
  unfolding txs_outputs block_output_rows block_benefits
  txs_outputs-rows [] rows benefits = sym (λ i. (append-nil rows i, append-nil benefits i))
  txs_outputs-rows (tx ∷ txs) rows benefits =
      let txid = txid_hex bitcoin tx in
      let made = output_rows O txid 0 (outputs tx) in
      let more = benefits_of txid (benefits_loop O txid 0 (outputs tx) []) in
      ap
        (λ (r : List OutputData × AmountMap).
          txs_outputs bitcoin network txs (r.0, benefits ++ benefits_of txid r.1))
        (output_loop-rows txid 0 (outputs tx) rows [])
      ∙ txs_outputs-rows txs (rows ++ made) (benefits ++ more)
      ∙ λ i. (
        append_assoc rows made (block_output_rows O txs) i,
        append_assoc benefits more (block_benefits O txs) i,
      )

  -- The pending transactions and the ranges, after some keys.
  pending_of : ℕ → Text → ℤ → List UtxoKey → List Transaction → List (PendingTx bitcoin)
  pending_of height hash time keys [] = []
  pending_of height hash time keys (tx ∷ txs) =
      let keys' = keys ++ tx_keys bitcoin tx in
      record {
        tx = tx;
        block_height = height;
        block_hash = hash;
        timestamp = time;
        key_range = (length keys, length keys');
      }
      ∷ pending_of height hash time keys' txs

  ranges_from : List UtxoKey → List Transaction → List (ℕ × ℕ)
  ranges_from keys [] = []
  ranges_from keys (tx ∷ txs) =
      let keys' = keys ++ tx_keys bitcoin tx in (length keys, length keys') ∷ ranges_from keys' txs

  pend_txs-keys :
      (height : ℕ) (hash : Text) (time : ℤ) (txs : List Transaction) (keys : List UtxoKey)
      (pending : List (PendingTx bitcoin))
      → pend_txs bitcoin height hash time txs (keys, pending)
        ≡ (keys ++ txs_keys bitcoin txs, pending ++ pending_of height hash time keys txs)
  unfolding pend_txs pending_of txs_keys
  pend_txs-keys height hash time [] keys pending =
      sym (λ i. (append-nil keys i, append-nil pending i))
  pend_txs-keys height hash time (tx ∷ txs) keys pending =
      let keys' = keys ++ tx_keys bitcoin tx in
      let p : PendingTx bitcoin = record {
        tx = tx;
        block_height = height;
        block_hash = hash;
        timestamp = time;
        key_range = (length keys, length keys');
      } in
      pend_txs-keys height hash time txs keys' (pending ++ p ∷ []) ∙ λ i. (
        append_assoc keys (tx_keys bitcoin tx) (txs_keys bitcoin txs) i,
        append_assoc pending (p ∷ []) (pending_of height hash time keys' txs) i,
      )

  key_ranges-keys :
      (txs : List Transaction) (keys : List UtxoKey) (ranges : List (ℕ × ℕ))
      → key_ranges O txs (keys, ranges)
        ≡ (keys ++ txs_keys bitcoin txs, ranges ++ ranges_from keys txs)
  unfolding key_ranges ranges_from txs_keys
  key_ranges-keys [] keys ranges = sym (λ i. (append-nil keys i, append-nil ranges i))
  key_ranges-keys (tx ∷ txs) keys ranges =
      let keys' = keys ++ tx_keys bitcoin tx in
      let r : ℕ × ℕ = (length keys, length keys') in
      key_ranges-keys txs keys' (ranges ++ r ∷ []) ∙ λ i. (
        append_assoc keys (tx_keys bitcoin tx) (txs_keys bitcoin txs) i,
        append_assoc ranges (r ∷ []) (ranges_from keys' txs) i,
      )

  -- The two ways to price a transaction: a coinbase has no input amount, and then the fee is 0.
  priced-priced_tx :
      (found : FoundMap) (all : List UtxoKey) (block : Block) (height : ℕ) (tx : Transaction)
      (range : ℕ × ℕ)
      → priced bitcoin found all (record {
        tx = tx;
        block_height = height;
        block_hash = bitcoin.block_hash block;
        timestamp = pos (bitcoin.time block);
        key_range = range;
      })
        ≡ priced_tx O found all block height tx range
  unfolding priced priced_tx
  priced-priced_tx found all block height tx range = elim (Bool-cases (is_coinbase tx)) [
    | inl e ↦
        let none_ : 0 - sum_values bitcoin (outputs tx) ≡ 0 = omega arith in
        rw (e, priced, priced_tx, none_) refl
    | inr e ↦ rw (e, priced, priced_tx) refl
  ]

  price_all-priced_txs :
      (found : FoundMap) (all : List UtxoKey) (block : Block) (height : ℕ) (txs : List Transaction)
      (keys : List UtxoKey) (rows : List TransactionData) (performs : List PerformsData)
      → price_all bitcoin found all
          (pending_of height (bitcoin.block_hash block) (pos (bitcoin.time block)) keys txs)
          (rows, performs)
        ≡ (
          rows ++ (priced_txs O found all block height txs (ranges_from keys txs)).0,
          performs ++ (priced_txs O found all block height txs (ranges_from keys txs)).1,
        )
  unfolding price_all pending_of priced_txs ranges_from
  price_all-priced_txs found all block height [] keys rows performs =
      sym (λ i. (append-nil rows i, append-nil performs i))
  price_all-priced_txs found all block height (tx ∷ txs) keys rows performs =
      let keys' = keys ++ tx_keys bitcoin tx in
      let range : ℕ × ℕ = (length keys, length keys') in
      let ps = pending_of height (bitcoin.block_hash block) (pos (bitcoin.time block)) keys' txs in
      let (row, more) = priced_tx O found all block height tx range in
      let rest = priced_txs O found all block height txs (ranges_from keys' txs) in
      ap
        (λ (r : TransactionData × List PerformsData).
          price_all bitcoin found all ps (rows ++ r.0 ∷ [], performs ++ r.1))
        (priced-priced_tx found all block height tx range)
      ∙ price_all-priced_txs found all block height txs keys' (rows ++ row ∷ []) (performs ++ more)
      ∙ λ i. (append_assoc rows (row ∷ []) rest.0 i, append_assoc performs more rest.1 i)

  -- For a chunk of one block, the batch builds the rows of outputs and BENEFITS_TO that `ingest_block`
  -- builds, collects the same input keys, and from the same found outputs makes the same rows of
  -- transactions and PERFORMS.
  pub process_batch_chunk-ingest_block :
      (height : ℕ) (block : Block) (file_name : Text) (found : FoundMap)
      → let chunk : List (ChunkItem O) = (height, block, file_name) ∷ [] in
        let txs = txdata block in
        let (keys, ranges) = key_ranges O txs ([], []) in
        let (keys', pending) = pend_chunk bitcoin chunk ([], []) in
        (chunk_outputs bitcoin network chunk ([], [])
          ≡ (block_output_rows O txs, block_benefits O txs))
        × (keys' ≡ keys)
        × (price_all bitcoin found keys' pending ([], [])
            ≡ priced_txs O found keys block height txs ranges)
  unfolding chunk_outputs pend_chunk
  process_batch_chunk-ingest_block height block file_name found =
      let txs = txdata block in
      let hash = bitcoin.block_hash block in
      let time = pos (bitcoin.time block) in
      let k = txs_keys bitcoin txs in
      let pend = pend_txs-keys height hash time txs [] [] in
      let ranges = key_ranges-keys txs [] [] in
      (
        txs_outputs-rows txs [] [],
        ap (λ (p : List UtxoKey × List (PendingTx bitcoin)). p.0) pend
            ∙ sym (ap (λ (r : List UtxoKey × List (ℕ × ℕ)). r.0) ranges),
        ap
              (λ (p : List UtxoKey × List (PendingTx bitcoin)).
                price_all bitcoin found p.0 p.1 ([], []))
              pend
            ∙ price_all-priced_txs found k block height txs [] [] []
            ∙ sym (
                ap
                  (λ (r : List UtxoKey × List (ℕ × ℕ)). priced_txs O found r.0 block height txs r.1)
                  ranges),
      )
