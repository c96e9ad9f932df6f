-- ===== src/Ingestion/Session/Prefix.antt =====
-- What `ingest_blocks_batch` leaves in the database, in terms of the blocks of the batch
-- (src/domain/ingestion.rs).
use bitcoin_chain_graph.Common.{
  ◌≡◌, refl, sym, ap, ◌∙◌, List, [], ◌∷◌, ◌++◌, Option, some, append-nil, append_assoc,
}
use bitcoin_chain_graph.Writer.Data.{OutputData, BenefitsToData, CheckpointData}
use bitcoin_chain_graph.Writer.Mock.{Tables}
use bitcoin_chain_graph.Ingestion.Conversions.{from_block}
use bitcoin_chain_graph.Utxo.Cache.{FoundMap}
use bitcoin_chain_graph.Ingestion.Amounts.{
  chunk_outputs, txs_input_rows, chunk_input_rows, block_rows,
}
use bitcoin_chain_graph.Ingestion.Orchestrator.{Orchestrator}
use bitcoin_chain_graph.Ingestion.Batch.{ChunkItem, last_item, batch_checkpoint}
use bitcoin_chain_graph.Ingestion.Batch.Written.{Written, checkpoint_after}
use bitcoin_chain_graph.Ingestion.Single.{block_output_rows}
use bitcoin_chain_graph.Ingestion.Single.Agreement.{txs_outputs-rows}

module _ (O : Orchestrator) where
  open O use {bitcoin, network, f64}
  open bitcoin use {txdata}

  -- The output rows of the blocks, as `ingest_block` builds them.
  unfoldable pub all_output_rows : List (ChunkItem O) → List OutputData
  all_output_rows [] = []
  all_output_rows ((height, block, file_name) ∷ blocks) =
      block_output_rows O (txdata block) ++ all_output_rows blocks

  -- A database that had the tables `t` has got the blocks, and its checkpoint is at the last one.
  pub record Holds (blocks : List (ChunkItem O)) (t t' : Tables) : Type 0 where
    pub blocks_held : t'.blocks ≡ t.blocks ++ block_rows bitcoin f64 blocks
    pub outputs_held : t'.outputs ≡ t.outputs ++ all_output_rows blocks
    pub inputs_held : t'.inputs ≡ t.inputs ++ chunk_input_rows bitcoin blocks
    pub checkpoint_held : t'.checkpoint ≡ checkpoint_after O blocks t.checkpoint

  chunk_outputs-rows :
      (blocks : List (ChunkItem O)) (rows : List OutputData) (benefits : List BenefitsToData)
      → (chunk_outputs bitcoin network blocks (rows, benefits)).0 ≡ rows ++ all_output_rows blocks
  unfolding chunk_outputs all_output_rows
  chunk_outputs-rows [] rows benefits = sym (append-nil rows)
  chunk_outputs-rows ((height, block, file_name) ∷ blocks) rows benefits =
      let made = txs_outputs-rows O (txdata block) rows benefits in
      ap (λ acc. (chunk_outputs bitcoin network blocks acc).0) made
      ∙ chunk_outputs-rows blocks (rows ++ block_output_rows O (txdata block)) _
      ∙ append_assoc rows (block_output_rows O (txdata block)) (all_output_rows blocks)

  all_output_rows-append :
      (xs ys : List (ChunkItem O))
      → all_output_rows (xs ++ ys) ≡ all_output_rows xs ++ all_output_rows ys
  unfolding all_output_rows
  all_output_rows-append [] ys = refl
  all_output_rows-append ((height, block, file_name) ∷ xs) ys =
      ap (λ l. block_output_rows O (txdata block) ++ l) (all_output_rows-append xs ys)
      ∙ sym (
          append_assoc (block_output_rows O (txdata block)) (all_output_rows xs)
            (all_output_rows ys))

  block_rows-append :
      (xs ys : List (ChunkItem O))
      → block_rows bitcoin f64 (xs ++ ys) ≡ block_rows bitcoin f64 xs ++ block_rows bitcoin f64 ys
  unfolding block_rows
  block_rows-append [] ys = refl
  block_rows-append ((height, block, file_name) ∷ xs) ys =
      ap (◌∷◌ (from_block bitcoin f64 block height)) (block_rows-append xs ys)

  chunk_input_rows-append :
      (xs ys : List (ChunkItem O))
      → chunk_input_rows bitcoin (xs ++ ys)
        ≡ chunk_input_rows bitcoin xs ++ chunk_input_rows bitcoin ys
  unfolding chunk_input_rows
  chunk_input_rows-append [] ys = refl
  chunk_input_rows-append ((height, block, file_name) ∷ xs) ys =
      ap (λ l. txs_input_rows bitcoin height (txdata block) ++ l) (chunk_input_rows-append xs ys)
      ∙ sym (
          append_assoc (txs_input_rows bitcoin height (txdata block)) (chunk_input_rows bitcoin xs)
            (chunk_input_rows bitcoin ys))

  last_item-append :
      (item : ChunkItem O) (xs : List (ChunkItem O)) (next : ChunkItem O) (ys : List (ChunkItem O))
      → last_item O item (xs ++ next ∷ ys) ≡ last_item O next ys
  last_item-append item [] next ys = refl
  last_item-append item (x ∷ xs) next ys = last_item-append x xs next ys

  checkpoint_after-append :
      (xs ys : List (ChunkItem O)) (c : Option CheckpointData)
      → checkpoint_after O (xs ++ ys) c ≡ checkpoint_after O ys (checkpoint_after O xs c)
  unfolding checkpoint_after
  checkpoint_after-append [] ys c = refl
  checkpoint_after-append (x ∷ xs) [] c = ap (λ l. checkpoint_after O (x ∷ l) c) (append-nil xs)
  checkpoint_after-append (x ∷ xs) (y ∷ ys) c =
      ap (λ i. some (batch_checkpoint O i)) (last_item-append x xs y ys)

  pub Holds-start : (t : Tables) → Holds [] t t
  unfolding checkpoint_after block_rows all_output_rows chunk_input_rows
  Holds-start t = record {
    blocks_held = sym (append-nil t.blocks);
    outputs_held = sym (append-nil t.outputs);
    inputs_held = sym (append-nil t.inputs);
    checkpoint_held = refl;
  }

  -- One more chunk.
  pub Holds-append :
      (xs ys : List (ChunkItem O)) (t t1 t2 : Tables)
      → Holds xs t t1
      → Holds ys t1 t2
      → Holds (xs ++ ys) t t2
  Holds-append xs ys t t1 t2 a b = record {
    blocks_held =
        b.blocks_held
        ∙ ap (λ l. l ++ block_rows bitcoin f64 ys) a.blocks_held
        ∙ append_assoc t.blocks (block_rows bitcoin f64 xs) (block_rows bitcoin f64 ys)
        ∙ ap (λ l. t.blocks ++ l) (sym (block_rows-append xs ys));
    outputs_held =
        b.outputs_held
        ∙ ap (λ l. l ++ all_output_rows ys) a.outputs_held
        ∙ append_assoc t.outputs (all_output_rows xs) (all_output_rows ys)
        ∙ ap (λ l. t.outputs ++ l) (sym (all_output_rows-append xs ys));
    inputs_held =
        b.inputs_held
        ∙ ap (λ l. l ++ chunk_input_rows bitcoin ys) a.inputs_held
        ∙ append_assoc t.inputs (chunk_input_rows bitcoin xs) (chunk_input_rows bitcoin ys)
        ∙ ap (λ l. t.inputs ++ l) (sym (chunk_input_rows-append xs ys));
    checkpoint_held =
        b.checkpoint_held
        ∙ ap (checkpoint_after O ys) a.checkpoint_held
        ∙ sym (checkpoint_after-append xs ys t.checkpoint);
  }

  pub Written-Holds :
      (chunk : List (ChunkItem O)) (found : FoundMap) (t t' : Tables)
      → Written O chunk found t t'
      → Holds chunk t t'
  Written-Holds chunk found t t' w = record {
    blocks_held = w.blocks_written;
    outputs_held = w.outputs_written ∙ ap (λ l. t.outputs ++ l) (chunk_outputs-rows chunk [] []);
    inputs_held = w.inputs_written;
    checkpoint_held = w.checkpoint_written;
  }
