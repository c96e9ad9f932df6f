-- ===== src/Ingestion/Live/Catchup.antt =====
-- The catch-up of the live mode (phase A of `run_live_ingestion`, src/main.rs): batches of blocks
-- through the RPC provider, until the tip is reached. The shutdown token is read through the state
-- of the network, since it is set from outside.
pub mod Ends
pub mod Heights
pub mod Steps
pub mod Blocks
pub mod Stored
use bitcoin_chain_graph.Common.{
  ℕ, zero, suc, ◌+◌, ◌-◌, ◌%◌, ◌^◌, ◌==◌, Bool, false, List, [], ◌∷◌, ltb, min, length,
  if◌then◌else◌,
}
use bitcoin_chain_graph.Common.Context.{AnyError}
use bitcoin_chain_graph.Common.Result.{Result, ok, err}
use bitcoin_chain_graph.Common.Exec.{Exec, ◌>>=◌, return}
use bitcoin_chain_graph.Writer.Error.{WriterError}
use bitcoin_chain_graph.Writer.Graph.{GraphWriter}
use bitcoin_chain_graph.Ingestion.Orchestrator.{Orchestrator}
use bitcoin_chain_graph.Ingestion.Batch.{ChunkItem}
use bitcoin_chain_graph.Ingestion.Session.{BatchStats, ingest_blocks_batch}
use bitcoin_chain_graph.Ingestion.Fork.{
  LiveError, tip_failed, batch_fetch_failed, batch_failed, with_context,
}
use bitcoin_chain_graph.Parser.Rpc.{RpcCrates, RpcBlockProvider, get_tip_height}
use bitcoin_chain_graph.Parser.Rpc.Batch.{get_block_batch}
use bitcoin_chain_graph.Ingestion.Live.{LiveState, record_batch_commit}

-- How a pass of the loop ends: by `break`, or so that the next one follows.
pub data Flow : Type 0 where
  stop again : Flow

-- `blocks.last()`, with the height that stands for it if there is none.
unfoldable pub last_height : {A : Type 0} → (A → ℕ) → ℕ → List A → ℕ
last_height key current_height [] = current_height
last_height key current_height (block ∷ blocks) = last_height key (key block) blocks

-- What does not change in the loop. `is_cancelled` asks the token.
pub record Setting (O : Orchestrator) : Type 1 where
  pub crates : RpcCrates O.bitcoin
  pub provider : RpcBlockProvider
  pub is_cancelled : crates.Net → crates.Net × Bool
  pub max_height : ℕ

module _ (O : Orchestrator) (W : GraphWriter) (L : Setting O) where
  open L use {crates, provider, is_cancelled, max_height}

  abbrev pub Live : Type 0
  Live = LiveState O W crates.Net

  abbrev pub Pass : Type 0 → Type 0
  Pass A = Exec Live LiveError A

  -- A call of the provider.
  abbrev pub call : {A : Type 0} → (AnyError → LiveError) → Exec crates.Net AnyError A → Pass A
  call f m s = let r = m s.node in (record s { node = r.0 }, with_context f r.1)

  -- What follows if there is no request to shut down.
  unfoldable pub unless_cancelled : Pass Flow → Pass Flow
  unless_cancelled rest s =
      let r = is_cancelled s.node in
      let s1 = record s { node = r.0 } in if r.1 then (s1, ok stop) else rest s1

  unfoldable pub batch_end : List (ChunkItem O) → Live → ℕ
  unfolding last_height
  batch_end blocks s = last_height (λ (block : ChunkItem O). block.0) s.current_height blocks

  unfoldable pub advance : List (ChunkItem O) → Pass Flow
  unfolding batch_end
  advance blocks s = (
    record s {
      blocks_processed = (s.blocks_processed + length blocks) % 2 ^ 64;
      current_height = (batch_end blocks s + 1) % 2 ^ 32;
    },
    ok again,
  )

  unfoldable pub after_ingest :
      List (ChunkItem O) → Live × Result WriterError BatchStats → Live × Result LiveError Flow
  unfolding advance unless_cancelled batch_end
  after_ingest blocks (s, ok stats) =
      unless_cancelled (advance blocks) (record s {
        shutdown_tracker = record_batch_commit (batch_end blocks s) s.shutdown_tracker;
      })
  after_ingest blocks (s, err e) = (s, err (batch_failed s.current_height (batch_end blocks s) e))

  unfoldable pub ingest : List (ChunkItem O) → Pass Flow
  unfolding after_ingest ingest_blocks_batch
  ingest blocks s =
      let r = ingest_blocks_batch O W blocks s.orchestrator in
      after_ingest blocks (record s { orchestrator = r.0 }, r.1)

  unfoldable pub after_fetch : List (ChunkItem O) → Pass Flow
  unfolding ingest unless_cancelled
  after_fetch [] s = (s, ok stop)
  after_fetch (block ∷ blocks) s = unless_cancelled (ingest (block ∷ blocks)) s

  unfoldable pub fetch_count : ℕ → Live → ℕ
  fetch_count target s = min ((target - s.current_height + 1) % 2 ^ 32) provider.batch_size

  unfoldable pub fetch_batch : ℕ → Pass Flow
  unfolding after_fetch fetch_count get_block_batch
  fetch_batch target s =
      (call (batch_fetch_failed s.current_height)
            (get_block_batch crates provider s.current_height (fetch_count target s))
          >>= after_fetch)
        s

  unfoldable pub after_tip : ℕ → Pass Flow
  unfolding fetch_batch
  after_tip tip s =
      let rest = fetch_batch (min tip max_height) s in
      if ltb (min tip max_height) s.current_height then (s, ok stop) else rest

  unfoldable pub look_up_tip : Pass Flow
  unfolding after_tip get_tip_height
  look_up_tip = call tip_failed (get_tip_height crates provider) >>= after_tip

  unfoldable pub catchup_pass : Pass Flow
  unfolding look_up_tip unless_cancelled
  catchup_pass = unless_cancelled look_up_tip

  abbrev pub go_on : Pass Flow → Flow → Pass Flow
  go_on rest stop s = (s, ok stop)
  go_on rest again s = rest s

  -- On fuel: `again` is the result if it runs out.
  unfoldable pub catchup_loop : ℕ → Pass Flow
  unfolding catchup_pass
  catchup_loop zero s = (s, ok again)
  catchup_loop (suc n) s = (catchup_pass >>= go_on (catchup_loop n)) s

  -- "Reached max_height": the mode ends here, and does not listen for new blocks.
  abbrev pub reached_max_height : Live → Bool
  reached_max_height s = if max_height == 2 ^ 32 - 1 then false else ltb max_height s.current_height
