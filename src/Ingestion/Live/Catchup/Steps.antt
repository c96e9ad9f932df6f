-- ===== src/Ingestion/Live/Catchup/Steps.antt =====
-- About the catch-up of `run_live_ingestion` (src/main.rs): what one pass does, and what follows from it.
use mathlib.Core.Path.{subst}
use bitcoin_chain_graph.Common.{
  ℕ, suc, ◌+◌, ◌-◌, ◌≤◌, ◌≡◌, refl, sym, ap, ◌∙◌, inl, inr, List, [], ◌++◌, arith, Option,
}
use bitcoin_chain_graph.Common.Context.{AnyError}
use bitcoin_chain_graph.Common.Exec.{and_then}
use bitcoin_chain_graph.Common.Result.{Result, ok, err, err-ok}
use bitcoin_chain_graph.Writer.Graph.{GraphWriter}
use bitcoin_chain_graph.Ingestion.Orchestrator.{Orchestrator}
use bitcoin_chain_graph.Ingestion.Batch.{ChunkItem}
use bitcoin_chain_graph.Ingestion.Session.{BatchStats, ingest_blocks_batch}
use bitcoin_chain_graph.Ingestion.Fork.{LiveError}
use bitcoin_chain_graph.Parser.Rpc.Batch.{numbers_from}
use bitcoin_chain_graph.Ingestion.Live.{record_batch_commit}
use bitcoin_chain_graph.Ingestion.Live.Catchup.Heights.{
  BlocksFrom, moved, numbers_from-append, Ingested, nothing, batch, CaughtUp,
}
use bitcoin_chain_graph.Ingestion.Live.Catchup.{Setting, Flow, stop, again, Live, Pass, go_on}

module _ (O : Orchestrator) (W : GraphWriter) (L : Setting O)
    (answer : ℕ → Result AnyError (Option (ChunkItem O))) (top : ℕ) where
  -- One pass: at the top nothing is done; below it a batch is ingested.
  unfoldable pub Outcome : Live O W L → Live O W L × Result LiveError Flow → Type 0
  Outcome s (s', ok stop) =
      (s.current_height ≡ top + 1)
      × (s'.current_height ≡ top + 1)
      × (s'.orchestrator ≡ s.orchestrator)
      × (s'.shutdown_tracker ≡ s.shutdown_tracker)
  Outcome s (s', ok again) =
      (k : ℕ) × (blocks : List (ChunkItem O)) × (stats : BatchStats) × (s.current_height + suc k
        ≤ top + 1)
      × (s'.current_height ≡ s.current_height + suc k)
      × BlocksFrom O W L answer s.current_height (suc k) blocks
      × (ingest_blocks_batch O W blocks s.orchestrator ≡ (s'.orchestrator, ok stats))
      × (s'.shutdown_tracker ≡ record_batch_commit (s.current_height + k) s.shutdown_tracker)
  Outcome s (s', err e) = Unit {0}

  pub next_pass-CaughtUp :
      (rest : Pass O W L Flow) (s : Live O W L) (r : Live O W L × Result LiveError Flow)
      → ((s' : Live O W L)
          → s'.current_height ≤ top + 1
          → (rest s').1 ≡ ok stop
          → CaughtUp O W L answer top s' (rest s').0)
      → Outcome s r
      → (and_then (go_on O W L rest) r).1 ≡ ok stop
      → CaughtUp O W L answer top s (and_then (go_on O W L rest) r).0
  unfolding Outcome numbers_from
  next_pass-CaughtUp rest s (s', err e) later h end = absurd (err-ok e stop end)
  next_pass-CaughtUp rest s (s', ok stop) later (at, at', same, tracked) end = (
    at',
    (
      [],
      moved O W L answer s.current_height s.current_height 0 (top + 1 - s.current_height) [] refl
          (omega arith) refl,
      subst (λ o. Ingested O W s.orchestrator o []) (sym same) (nothing s.orchestrator),
    ),
    inl (at, tracked),
  )
  next_pass-CaughtUp rest s (s', ok again) later (k, blocks, stats, fits, at, h, done, tracked)
        end =
      let (top_reached, (others, g, ingested), tracked') = later s' (omega arith) end in
      (
        top_reached,
        (
          blocks ++ others,
          moved O W L answer s.current_height s.current_height
              (suc k + (top + 1 - s'.current_height)) (top + 1 - s.current_height)
              (blocks ++ others) refl (omega arith)
              (numbers_from-append O W L answer s.current_height (suc k)
                (top + 1 - s'.current_height) blocks others h
                (moved O W L answer s'.current_height (s.current_height + suc k)
                  (top + 1 - s'.current_height) (top + 1 - s'.current_height) others at refl g)),
          batch s.orchestrator s'.orchestrator (rest s').0.orchestrator stats blocks others done
              ingested,
        ),
        inr (
          omega arith,
          elim tracked' [
            | inl (there, same) ↦
                same ∙ tracked ∙ ap (λ c. record_batch_commit c s.shutdown_tracker) (omega arith)
            | inr (under, same) ↦ same
          ],
        ),
      )
