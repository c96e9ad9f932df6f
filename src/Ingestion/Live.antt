-- ===== src/Ingestion/Live.antt =====
-- The real-time part of the live mode (`run_live_ingestion` of src/main.rs), with its
-- `ShutdownHeightTracker` (src/domain/shutdown_height.rs): the blocks up to a new tip, one after the
-- other. The node behind the RPC provider is a parameter, with a state of its own.
pub mod Progress
pub mod Tip
pub mod Catchup
use bitcoin_chain_graph.Common.Context.{AnyError}
use bitcoin_chain_graph.Common.{
  ℕ, zero, suc, ◌+◌, ◌-◌, ◌%◌, ◌^◌, [], ◌∷◌, Option, none, some, leb, ltb, if◌then◌else◌,
}
use bitcoin_chain_graph.Common.Result.{Result, ok, err}
use bitcoin_chain_graph.Common.Exec.{Exec, ◌>>=◌}
use bitcoin_chain_graph.Writer.Error.{WriterError, reorg_detected}
use bitcoin_chain_graph.Writer.Data.{Text}
use bitcoin_chain_graph.Writer.Graph.{GraphWriter}
use bitcoin_chain_graph.Ingestion.Orchestrator.{Orchestrator, State}
use bitcoin_chain_graph.Ingestion.Batch.{ChunkItem}
use bitcoin_chain_graph.Ingestion.Session.{BatchStats, ingest_blocks_batch}
use bitcoin_chain_graph.Ingestion.Fork.{
  LiveError, fetch_failed, ingest_failed, with_context, handle_reorg,
}

pub record ShutdownHeightTracker : Type 0 where
  pub last_committed_height : Option ℕ

abbrev pub new_tracker : ShutdownHeightTracker
new_tracker = record { last_committed_height = none }

abbrev pub record_block_commit : ℕ → ShutdownHeightTracker → ShutdownHeightTracker
record_block_commit height tracker = record { last_committed_height = some height }

abbrev pub record_batch_commit : ℕ → ShutdownHeightTracker → ShutdownHeightTracker
record_batch_commit batch_end tracker = record { last_committed_height = some batch_end }

abbrev pub save_height : ShutdownHeightTracker → Option ℕ
save_height tracker = tracker.last_committed_height

-- The variables of the loop.
pub record LiveState (O : Orchestrator) (W : GraphWriter) (Node : Type 0) : Type 0 where
  pub orchestrator : State O W
  pub node : Node
  pub shutdown_tracker : ShutdownHeightTracker
  pub current_height : ℕ
  pub blocks_processed : ℕ

module _ (O : Orchestrator) (W : GraphWriter) {Node : Type 0}
    (get_block_hash : ℕ → Exec Node AnyError Text)
    (get_block : ℕ → Exec Node AnyError (Option (ChunkItem O))) where
  abbrev pub Step : Type 0 → Type 0
  Step A = Exec (LiveState O W Node) LiveError A

  abbrev pub fetch : ℕ → Step (Option (ChunkItem O))
  fetch height s =
      let r = get_block height s.node in
      (record s { node = r.0 }, with_context (fetch_failed height) r.1)

  abbrev pub ingest_one :
      ChunkItem O → LiveState O W Node → LiveState O W Node × Result WriterError BatchStats
  unfolding ingest_blocks_batch
  ingest_one block s =
      let r = ingest_blocks_batch O W (block ∷ []) s.orchestrator in
      (record s { orchestrator = r.0 }, r.1)

  abbrev pub committed : ℕ → LiveState O W Node → LiveState O W Node
  committed height s = record s {
    shutdown_tracker = record_block_commit height s.shutdown_tracker;
    blocks_processed = (s.blocks_processed + 1) % 2 ^ 64;
  }

  -- The height to go on from becomes the current one, and the loop ends.
  abbrev pub go_back :
      LiveState O W Node × Result LiveError ℕ → LiveState O W Node × Result LiveError ℕ
  go_back (s, ok height) = (record s { current_height = height }, ok height)
  go_back (s, err e) = (s, err e)

  unfoldable pub handled : ℕ → Step ℕ
  unfolding handle_reorg
  handled reorg_height s =
      let r = handle_reorg W get_block_hash O.now reorg_height (s.orchestrator.db, s.node) in
      (record s { orchestrator = record s.orchestrator { db = r.0.0 }; node = r.0.1 }, r.1)

  unfoldable pub reorganise : ℕ → Step ℕ
  unfolding handled
  reorganise reorg_height s = go_back (handled reorg_height s)

  -- The three arms of the match, of which the first goes on.
  unfoldable pub ingested :
      ℕ
      → Step ℕ
      → LiveState O W Node × Result WriterError BatchStats
      → LiveState O W Node × Result LiveError ℕ
  unfolding reorganise
  ingested height continue (s, ok stats) = continue (committed height s)
  ingested height continue (s, err (reorg_detected reorg_height expected actual)) =
      reorganise reorg_height s
  ingested height continue (s, err e) = (s, err (ingest_failed height e))

  -- A block that the node does not have is passed over.
  unfoldable pub fetched : ℕ → Step ℕ → Option (ChunkItem O) → Step ℕ
  unfolding ingested ingest_one
  fetched height continue none s = continue s
  fetched height continue (some block) s = ingested height continue (ingest_one block s)

  -- `while height <= effective_tip`, from the number of heights that are left. The heights are below
  -- 2^32 - 1, so that `height += 1` does not wrap around.
  unfoldable pub blocks_loop : ℕ → ℕ → Step ℕ
  unfolding fetched
  blocks_loop zero height s = (s, ok height)
  blocks_loop (suc n) height s =
      (fetch height >>= λ block. fetched height (blocks_loop n (suc height)) block) s

  abbrev pub after_loop : ℕ → ℕ → Step (Unit {0})
  after_loop effective_tip height s = (
    (if ltb effective_tip height then record s { current_height = effective_tip + 1 } else s),
    ok tt,
  )

  unfoldable pub new_blocks : ℕ → Step (Unit {0})
  unfolding blocks_loop
  new_blocks effective_tip s =
      let run =
        (blocks_loop (suc effective_tip - s.current_height) s.current_height
            >>= after_loop effective_tip)
          s in
      if leb s.current_height effective_tip then run else (s, ok tt)
