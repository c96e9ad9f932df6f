-- ===== src/Ingestion/Session/Outcome.antt =====
-- The prefix of a batch that `ingest_blocks_batch` has committed when it returns
-- (src/domain/ingestion.rs).
use bitcoin_chain_graph.Common.{
  ℕ, zero, suc, ◌+◌, ◌-◌, ◌^◌, ◌≤◌, ◌<◌, ◌≡◌, refl, sym, ap, ◌∙◌, ◌⊎◌, List, [], ◌∷◌, ◌++◌, length,
  take, drop, take_of_length-le, arith,
}
use bitcoin_chain_graph.Common.Result.{ok, err}
use mathlib.Core.Path.{subst}
use bitcoin_chain_graph.Writer.Error.{WriterError}
use bitcoin_chain_graph.Writer.Mock.{Tables}
use bitcoin_chain_graph.Writer.Graph.{GraphWriter}
use bitcoin_chain_graph.Writer.Contract.{Contract}
use bitcoin_chain_graph.Ingestion.Chunks.{Range, compute_adaptive_chunks}
use bitcoin_chain_graph.Ingestion.Chunks.Budget.{memory_before, Tiles, compute_adaptive_chunks_lem}
use bitcoin_chain_graph.Ingestion.Amounts.{slice}
use bitcoin_chain_graph.Ingestion.Orchestrator.{Orchestrator, State}
use bitcoin_chain_graph.Ingestion.Batch.{ChunkItem}
use bitcoin_chain_graph.Ingestion.Session.{BatchStats, block_memories, ingest_blocks_batch}
use bitcoin_chain_graph.Ingestion.Session.Atomic.{tables_in, RollbackFailed}
use bitcoin_chain_graph.Ingestion.Session.Committed.{
  Committed, start, next_chunk, chunks_loop-Committed, chunks_loop-failure,
}
use bitcoin_chain_graph.Ingestion.Session.Prefix.{Holds, Holds-start, Holds-append, Written-Holds}

module _ {ℓ} {A : Type ℓ} where
  take_nil : (n : ℕ) → Path (List A) (take n []) []
  take_nil zero = refl
  take_nil (suc n) = refl

  drop_nil : (n : ℕ) → Path (List A) (drop n []) []
  drop_nil zero = refl
  drop_nil (suc n) = refl

  take-drop : (b k : ℕ) (xs : List A) → take b xs ++ take k (drop b xs) ≡ take (b + k) xs
  take-drop zero k xs = ap (λ n. take n xs) (omega arith)
  take-drop (suc b) k [] = take_nil k ∙ sym (take_nil (suc b + k))
  take-drop (suc b) k (x ∷ xs) =
      let n : suc (b + k) ≡ suc b + k = omega arith in
      ap (◌∷◌ x) (take-drop b k xs) ∙ ap (λ m. take m (x ∷ xs)) n

  drop-drop : (a k : ℕ) (xs : List A) → drop k (drop a xs) ≡ drop (a + k) xs
  drop-drop zero k xs = ap (λ n. drop n xs) (omega arith)
  drop-drop (suc a) k [] = drop_nil k ∙ sym (drop_nil (suc a + k))
  drop-drop (suc a) k (x ∷ xs) =
      let n : suc (a + k) ≡ suc a + k = omega arith in
      drop-drop a k xs ∙ ap (λ m. drop m (x ∷ xs)) n

  -- Two ranges that meet.
  slice-append :
      (a b c : ℕ) (xs : List A)
      → a ≤ b
      → b ≤ c
      → slice (a, b) xs ++ slice (b, c) xs ≡ slice (a, c) xs
  slice-append a b c xs ab bc =
      let there : drop (b - a) (drop a xs) ≡ drop b xs =
        drop-drop a (b - a) xs ∙ ap (λ n. drop n xs) (omega arith) in
      ap (λ l. take (b - a) (drop a xs) ++ take (c - b) l) (sym there)
      ∙ take-drop (b - a) (c - b) (drop a xs)
      ∙ ap (λ n. take n (drop a xs)) (omega arith)

  slice_whole : (n : ℕ) (xs : List A) → length xs ≤ n → slice (0, n) xs ≡ xs
  slice_whole n xs h = take_of_length-le (n - 0) xs (omega arith)

Tiles-le : (a c : ℕ) (ranges : List Range) → Tiles a c ranges → a ≤ c
unfolding Tiles
Tiles-le a c [] h = omega (arith, h)
Tiles-le a c ((x, y) ∷ ranges) h = omega (arith, Tiles-le y c ranges h.2, h.0, h.1)

-- The first ranges tile up to where they end.
Tiles-split :
    (a c : ℕ) (before after : List Range)
    → Tiles a c (before ++ after)
    → (m : ℕ) × (Tiles a m before) × (m ≤ c)
unfolding Tiles
Tiles-split a c [] after h = (a, refl, Tiles-le a c after h)
Tiles-split a c ((x, y) ∷ before) after h =
    let (m, tiles, le) = Tiles-split y c before after h.2 in (m, (h.0, h.1, tiles), le)

module _ (O : Orchestrator) where
  Committed-Holds :
      (blocks : List (ChunkItem O)) (ranges : List Range) (t t' : Tables) (a c : ℕ)
      → Committed O blocks ranges t t'
      → Tiles a c ranges
      → Holds O (slice (a, c) blocks) t t'
  unfolding Tiles
  Committed-Holds blocks [] t _ a c start h =
      let none_ : 0 ≡ c - a = omega (arith, h) in
      subst (λ n. Holds O (take n (drop a blocks)) t t) none_ (Holds-start O t)
  Committed-Holds blocks (_ ∷ ranges) t t' a c (next_chunk {t1 = t1} (x, y) found written rest) h =
      let later = Committed-Holds blocks ranges t1 t' y c rest h.2 in
      let now = Written-Holds O (slice (x, y) blocks) found t t1 written in
      let le : x ≤ y = omega (arith, h.1) in
      let le' = Tiles-le y c ranges h.2 in
      let both = Holds-append O (slice (x, y) blocks) (slice (y, c) blocks) t t1 t' now later in
      subst (λ z. Holds O (slice (z, c) blocks) t t') h.0
        (subst (λ l. Holds O l t t') (slice-append x y c blocks le le') both)

  module _ (W : GraphWriter) where
    length-block_memories :
        (blocks : List (ChunkItem O)) → length (block_memories O W blocks) ≡ length blocks
    unfolding block_memories
    length-block_memories [] = refl
    length-block_memories ((height, block, file_name) ∷ blocks) =
        ap suc (length-block_memories blocks)

    -- The estimates of all blocks of a batch do not overflow a `usize`.
    abbrev pub MemoryFits : List (ChunkItem O) → Type 0
    MemoryFits blocks =
        let mems = block_memories O W blocks in memory_before mems (length mems) < 2 ^ 64

    compute_adaptive_chunks-Tiles :
        (blocks : List (ChunkItem O))
        → MemoryFits blocks
        → Tiles 0
            (length blocks)
            (compute_adaptive_chunks (block_memories O W blocks) O.max_transaction_memory_bytes)
    compute_adaptive_chunks-Tiles blocks fits =
        let mems = block_memories O W blocks in
        let budget = O.max_transaction_memory_bytes in
        subst (λ n. Tiles 0 n (compute_adaptive_chunks mems budget)) (length-block_memories blocks)
          (compute_adaptive_chunks_lem mems budget fits).0

    module _ (C : Contract W) where
      -- A batch that succeeds, whose memory estimates do not overflow: every block of it is in the
      -- database with its output and input rows, once and in order, after what was there before, and
      -- the checkpoint is at the last block.
      pub ingest_blocks_batch-Holds :
          (blocks : List (ChunkItem O)) (s : State O W) (stats : BatchStats)
          → MemoryFits blocks
          → (ingest_blocks_batch O W blocks s).1 ≡ ok stats
          → Holds O blocks
              (tables_in O W C s)
              (tables_in O W C (ingest_blocks_batch O W blocks s).0)
      unfolding ingest_blocks_batch
      ingest_blocks_batch-Holds blocks s stats fits h =
          let ranges =
            compute_adaptive_chunks (block_memories O W blocks) O.max_transaction_memory_bytes in
          let zero_ : BatchStats = record {
            transactions = 0;
            outputs = 0;
            inputs = 0;
            chunks = length ranges;
          } in
          let t = tables_in O W C s in
          let t' = tables_in O W C (ingest_blocks_batch O W blocks s).0 in
          let committed = chunks_loop-Committed O W C blocks ranges zero_ stats s h in
          subst (λ l. Holds O l t t') (slice_whole (length blocks) blocks (omega arith))
            (Committed-Holds blocks ranges t t' 0 (length blocks) committed
              (compute_adaptive_chunks-Tiles blocks fits))

      -- A batch that fails, at whichever call of whichever chunk, and whose memory estimates do
      -- not overflow. When it returns, some number of its first chunks are committed: every table
      -- has what it had before, what these chunks write, and nothing else, so that their blocks,
      -- which are a prefix of the batch, are in the database with their output and input rows,
      -- once and in order, with the checkpoint at the last of them. Or the rollback of the chunk
      -- after these failed, in the transaction that was begun on these tables. What is left out is
      -- what the tasks of a bucket still do that an error, in this batch or before it, left
      -- running.
      pub ingest_blocks_batch-prefix :
          (blocks : List (ChunkItem O)) (s : State O W) (e : WriterError)
          → MemoryFits blocks
          → (ingest_blocks_batch O W blocks s).1 ≡ err e
          → let s' = (ingest_blocks_batch O W blocks s).0 in
            (before : List Range) × (failing : Range) × (after : List Range) × (n : ℕ)
            × (t : Tables) × (compute_adaptive_chunks
                  (block_memories O W blocks)
                  O.max_transaction_memory_bytes
                ≡ before ++ failing ∷ after)
            × Committed O blocks before (tables_in O W C s) t
            × (n ≤ length blocks)
            × Holds O (take n blocks) (tables_in O W C s) t
            × ((tables_in O W C s' ≡ t) ⊎ RollbackFailed O W C t s')
      unfolding ingest_blocks_batch
      ingest_blocks_batch-prefix blocks s e fits h =
          let ranges =
            compute_adaptive_chunks (block_memories O W blocks) O.max_transaction_memory_bytes in
          let zero_ : BatchStats = record {
            transactions = 0;
            outputs = 0;
            inputs = 0;
            chunks = length ranges;
          } in
          let t0 = tables_in O W C s in
          let (before, failing, after, split, (t, committed, undone)) =
            chunks_loop-failure O W C blocks ranges zero_ s e h in
          let (m, tiles, le) =
            Tiles-split 0 (length blocks) before (failing ∷ after)
              (subst (Tiles 0 (length blocks)) split (compute_adaptive_chunks-Tiles blocks fits)) in
          let held : Holds O (take m blocks) t0 t =
            subst (λ n. Holds O (take n blocks) t0 t) (omega arith)
              (Committed-Holds blocks before t0 t 0 m committed tiles) in
          (before, failing, after, m, t, split, committed, le, held, undone)
