-- ===== src/Ingestion/Live/Catchup/Stored.antt =====
-- About the catch-up of `run_live_ingestion` (src/main.rs): what is in the database after it.
use mathlib.Core.Path.{subst}
use mathlib.Core.List.{map}
use bitcoin_chain_graph.Common.{
  ℕ, suc, ◌+◌, ◌-◌, ◌^◌, ◌≤◌, ◌<◌, ◌≡◌, refl, sym, ap, ◌∙◌, ◌⊎◌, inl, inr, false, List, [], ◌∷◌,
  ◌++◌, Option, arith, min, length,
}
use bitcoin_chain_graph.Common.Context.{AnyError}
use bitcoin_chain_graph.Common.Result.{Result, ok, err}
use bitcoin_chain_graph.Writer.Graph.{GraphWriter}
use bitcoin_chain_graph.Writer.Contract.{Contract}
use bitcoin_chain_graph.Ingestion.Orchestrator.{Orchestrator, State}
use bitcoin_chain_graph.Ingestion.Batch.{ChunkItem}
use bitcoin_chain_graph.Ingestion.Fork.{LiveError}
use bitcoin_chain_graph.Ingestion.Session.{block_memories}
use bitcoin_chain_graph.Ingestion.Session.Atomic.{tables_in}
use bitcoin_chain_graph.Ingestion.Session.Prefix.{Holds, Holds-start, Holds-append}
use bitcoin_chain_graph.Ingestion.Session.Outcome.{MemoryFits, ingest_blocks_batch-Holds}
use bitcoin_chain_graph.Ingestion.Chunks.Budget.{memory_before}
use bitcoin_chain_graph.Ingestion.Live.{record_batch_commit}
use bitcoin_chain_graph.Parser.Rpc.{get_block, get_tip_height}
use bitcoin_chain_graph.Ingestion.Live.Catchup.{Setting, Live, catchup_loop, stop}
use bitcoin_chain_graph.Ingestion.Live.Catchup.Heights.{
  Ingested, nothing, batch, BlocksFrom, found, cons-inj, cons-nil,
}
use bitcoin_chain_graph.Ingestion.Live.Catchup.Blocks.{catchup_loop-blocks}

memory_before-append :
    (xs ys : List ℕ)
    → memory_before (xs ++ ys) (length (xs ++ ys))
      ≡ memory_before xs (length xs) + memory_before ys (length ys)
unfolding memory_before
memory_before-append [] ys = omega arith
memory_before-append (x ∷ xs) ys = omega (arith, memory_before-append xs ys)

module _ (O : Orchestrator) (W : GraphWriter) where
  block_memories-append :
      (xs ys : List (ChunkItem O))
      → block_memories O W (xs ++ ys) ≡ block_memories O W xs ++ block_memories O W ys
  unfolding block_memories
  block_memories-append [] ys = refl
  block_memories-append (x ∷ xs) ys = rw (block_memories-append xs ys) refl

  MemoryFits-append :
      (xs ys : List (ChunkItem O))
      → MemoryFits O W (xs ++ ys)
      → MemoryFits O W xs × MemoryFits O W ys
  MemoryFits-append xs ys fits =
      let parts = ap (λ l. memory_before l (length l)) (block_memories-append xs ys) in
      let sum = parts ∙ memory_before-append (block_memories O W xs) (block_memories O W ys) in
      (omega (arith, fits, sum), omega (arith, fits, sum))

  -- Batch by batch, all their blocks.
  Ingested-Holds :
      (C : Contract W) (s u : State O W) (blocks : List (ChunkItem O))
      → Ingested O W s u blocks
      → MemoryFits O W blocks
      → Holds O blocks (tables_in O W C s) (tables_in O W C u)
  Ingested-Holds C s u blocks (nothing _) fits = Holds-start O (tables_in O W C s)
  Ingested-Holds C s u blocks (batch _ t _ stats xs ys done rest) fits =
      let (fits_xs, fits_ys) = MemoryFits-append xs ys fits in
      let first = ingest_blocks_batch-Holds O W C xs s stats fits_xs (ap (λ r. r.1) done) in
      Holds-append O xs ys (tables_in O W C s) (tables_in O W C t) (tables_in O W C u)
        (subst (λ v. Holds O xs (tables_in O W C s) (tables_in O W C v)) (ap (λ r. r.0) done) first)
        (Ingested-Holds C t u ys rest fits_ys)

module _ (O : Orchestrator) (W : GraphWriter) (L : Setting O)
    (answer : ℕ → Result AnyError (Option (ChunkItem O))) where
  open L use {crates, provider, is_cancelled, max_height}

  found-injective :
      (xs ys : List (ChunkItem O))
      → map (found O W L answer) xs ≡ map (found O W L answer) ys
      → xs ≡ ys
  found-injective [] [] h = refl
  found-injective (x ∷ xs) (y ∷ ys) h =
      let (first, rest) = cons-inj _ _ _ _ h in
      let head : x ≡ y = cc in
      let tail = found-injective xs ys rest in ap (λ l. x ∷ l) tail ∙ ap (λ z. z ∷ ys) head
  found-injective [] (y ∷ ys) h = absurd (cons-nil _ _ (sym h))
  found-injective (x ∷ xs) [] h = absurd (cons-nil _ _ h)

  -- If the node always gives the same answers, which are the blocks of the heights from the current
  -- one to the tip, and the tip, cut off at `max_height`, is always the same and no u32::MAX, the
  -- current height is at most the one after it, the memory estimates of the blocks do not overflow,
  -- nobody asks to shut down, and calls and batches have at least size one: then the catch-up stops or
  -- fails, in at most as many passes as there are heights left and one more. If it stops, each of the
  -- blocks is in the database with its output and input rows, once and in order, after what was there
  -- before, with the checkpoint at the last of them; the current height is the one after the tip, and
  -- the tracker has the tip if there was a height left, and what it had before if not.
  pub catchup_loop-Holds :
      (C : Contract W) (top n : ℕ) (s : Live O W L) (blocks : List (ChunkItem O))
      → ((h : ℕ) (net : crates.Net) → (get_block crates provider h net).1 ≡ answer h)
      → ((net : crates.Net)
          → (tip : ℕ) × ((get_tip_height crates provider net).1 ≡ ok tip)
            × (min tip max_height ≡ top))
      → ((net : crates.Net) → (is_cancelled net).1 ≡ false)
      → BlocksFrom O W L answer s.current_height (top + 1 - s.current_height) blocks
      → MemoryFits O W blocks
      → top + 1 < 2 ^ 32
      → 0 < provider.max_concurrent
      → 0 < provider.batch_size
      → s.current_height ≤ top + 1
      → suc top - s.current_height < n
      → let s' = (catchup_loop O W L n s).0 in
        (((catchup_loop O W L n s).1 ≡ ok stop)
          × Holds O blocks (tables_in O W C s.orchestrator) (tables_in O W C s'.orchestrator)
          × (s'.current_height ≡ top + 1)
          × (((s.current_height ≡ top + 1) × (s'.shutdown_tracker ≡ s.shutdown_tracker))
              ⊎ ((s.current_height ≤ top)
                  × (s'.shutdown_tracker ≡ record_batch_commit top s.shutdown_tracker))))
        ⊎ ((e : LiveError) × ((catchup_loop O W L n s).1 ≡ err e))
  catchup_loop-Holds C top n s blocks stable tip_fixed running given fits below some_calls
        some_blocks low enough =
      elim (catchup_loop-blocks O W L answer top stable tip_fixed running below some_calls
        some_blocks n s low enough) [
          | inl (end, (reached, (done, from, ingested), tracked)) ↦
              let same = found-injective done blocks (sym from ∙ given) in
              let s' = (catchup_loop O W L n s).0 in
              let all = subst (Ingested O W s.orchestrator s'.orchestrator) same ingested in
              inl (
                end,
                Ingested-Holds O W C s.orchestrator s'.orchestrator blocks all fits,
                reached,
                tracked,
              )
          | inr failed ↦ inr failed
        ]
