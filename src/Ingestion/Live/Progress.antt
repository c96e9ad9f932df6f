-- ===== src/Ingestion/Live/Progress.antt =====
-- What the real-time loop (`run_live_ingestion` of src/main.rs) has ingested when it ends, with a
-- node that answers for a height up to the tip always with the same block, or always with none.
use bitcoin_chain_graph.Common.Context.{AnyError}
use bitcoin_chain_graph.Common.{
  ℕ, zero, suc, ◌+◌, ◌≤◌, ◌<◌, ◌≡◌, ◌⊎◌, inl, inr, refl, sym, ap, ◌∙◌, List, [], ◌∷◌, ◌++◌, Option,
  none, some, arith,
}
use mathlib.Core.Path.{subst}
use bitcoin_chain_graph.Common.Result.{Result, ok, err, ok-inj, err-ok}
use bitcoin_chain_graph.Common.Exec.{Exec, bind-result}
use bitcoin_chain_graph.Writer.Error.{
  WriterError, output_not_found, connection_failed, query_failed, checkpoint_error,
  serialization_error, database_error, constraint_violation, transaction_failed, reorg_detected,
}
use bitcoin_chain_graph.Writer.Mock.{Tables}
use bitcoin_chain_graph.Writer.Data.{Text}
use bitcoin_chain_graph.Writer.Graph.{GraphWriter}
use bitcoin_chain_graph.Writer.Contract.{Contract}
use bitcoin_chain_graph.Ingestion.Orchestrator.{Orchestrator}
use bitcoin_chain_graph.Ingestion.Batch.{ChunkItem}
use bitcoin_chain_graph.Ingestion.Session.{BatchStats, ingest_blocks_batch, block_memories}
use bitcoin_chain_graph.Ingestion.Amounts.{estimate_block_memory}
use bitcoin_chain_graph.Ingestion.Chunks.Budget.{memory_before}
use bitcoin_chain_graph.Ingestion.Session.Atomic.{tables_in}
use bitcoin_chain_graph.Ingestion.Session.Prefix.{Holds, Holds-start, Holds-append}
use bitcoin_chain_graph.Ingestion.Session.Outcome.{MemoryFits, ingest_blocks_batch-Holds}
use bitcoin_chain_graph.Ingestion.Fork.{LiveError, with_context, fetch_failed}
use bitcoin_chain_graph.Ingestion.Live.{
  LiveState, ShutdownHeightTracker, record_block_commit, fetch, ingest_one, committed, reorganise,
  ingested, fetched, blocks_loop,
}

module _ (O : Orchestrator) (W : GraphWriter) (C : Contract W) {Node : Type 0}
    (get_block_hash : ℕ → Exec Node AnyError Text)
    (get_block : ℕ → Exec Node AnyError (Option (ChunkItem O))) (blocks : ℕ → Option (ChunkItem O))
    (top : ℕ)
    (answers : (height : ℕ) (node : Node)
      → height ≤ top
      → (get_block height node).1 ≡ ok (blocks height)) where
  abbrev pub Live : Type 0
  Live = LiveState O W Node

  abbrev block_list : Option (ChunkItem O) → List (ChunkItem O)
  block_list none = []
  block_list (some block) = block ∷ []

  -- The blocks of the node at so many heights.
  unfoldable pub blocks_from : ℕ → ℕ → List (ChunkItem O)
  blocks_from zero height = []
  blocks_from (suc n) height = block_list (blocks height) ++ blocks_from n (suc height)

  abbrev pub track : ℕ → Option (ChunkItem O) → ShutdownHeightTracker → ShutdownHeightTracker
  track height none tracker = tracker
  track height (some block) tracker = record_block_commit height tracker

  -- The last height with a block.
  unfoldable pub tracked_from : ℕ → ℕ → ShutdownHeightTracker → ShutdownHeightTracker
  tracked_from zero height tracker = tracker
  tracked_from (suc n) height tracker =
      tracked_from n (suc height) (track height (blocks height) tracker)

  abbrev pub tables : Live → Tables
  tables s = tables_in O W C s.orchestrator

  -- At a height, the parent of the block was not the stored one, and the reorganisation was handled.
  abbrev pub Reorganised : ℕ → Live → Live → ℕ → Type 0
  Reorganised height t s' next =
      (block : ChunkItem O) × (u : Live) × (reorg_height : ℕ) × (expected : Text) × (actual : Text)
      × (blocks height ≡ some block)
      × (ingest_one O W get_block_hash get_block block t
          ≡ (u, err (reorg_detected reorg_height expected actual)))
      × (reorganise O W get_block_hash get_block reorg_height u ≡ (s', ok next))

  -- All heights are done.
  abbrev pub Complete : ℕ → ℕ → Live → Live → ℕ → Type 0
  Complete n height s s' next =
      (next ≡ height + n)
      × (s'.current_height ≡ s.current_height)
      × Holds O (blocks_from n height) (tables s) (tables s')
      × (s'.shutdown_tracker ≡ tracked_from n height s.shutdown_tracker)

  abbrev pub Outcome : ℕ → ℕ → Live → Live → ℕ → Type 0
  Outcome n height s s' next =
      Complete n height s s' next
      ⊎ ((k : ℕ) × (t : Live) × (k < n)
          × Complete k height s t (height + k)
          × Reorganised (height + k) t s' next)

  -- One more height before.
  Complete-suc :
      (n height next : ℕ) (block : Option (ChunkItem O)) (s t s' : Live)
      → blocks height ≡ block
      → Holds O (block_list block) (tables s) (tables t)
      → t.shutdown_tracker ≡ track height block s.shutdown_tracker
      → t.current_height ≡ s.current_height
      → Complete n (suc height) t s' next
      → Complete (suc n) height s s' next
  unfolding blocks_from tracked_from
  Complete-suc n height next block s t s' given held tracked same (end, current, rest, tracker) =
      let both =
        Holds-append O (block_list block) (blocks_from n (suc height)) (tables s) (tables t)
          (tables s') held rest in
      (
        omega (arith, end),
        current ∙ same,
        subst (λ b. Holds O (block_list b ++ blocks_from n (suc height)) (tables s) (tables s'))
            (sym given) both,
        tracker
            ∙ ap (tracked_from n (suc height))
                (tracked ∙ ap (λ b. track height b s.shutdown_tracker) (sym given)),
      )

  Outcome-suc :
      (n height next : ℕ) (block : Option (ChunkItem O)) (s t s' : Live)
      → blocks height ≡ block
      → Holds O (block_list block) (tables s) (tables t)
      → t.shutdown_tracker ≡ track height block s.shutdown_tracker
      → t.current_height ≡ s.current_height
      → Outcome n (suc height) t s' next
      → Outcome (suc n) height s s' next
  Outcome-suc n height next block s t s' given held tracked same (inl complete) =
      inl (Complete-suc n height next block s t s' given held tracked same complete)
  Outcome-suc n height next block s t s' given held tracked same
        (inr (k, u, low, complete, reorganised)) =
      let at : suc height + k ≡ height + suc k = omega arith in
      let first =
        Complete-suc k height (suc height + k) block s t u given held tracked same complete in
      inr (
        suc k,
        u,
        omega arith,
        subst (Complete (suc k) height s u) at first,
        subst (λ h. Reorganised h u s' next) at reorganised,
      )

  Complete-start : (height : ℕ) (s : Live) → Complete 0 height s s (height + 0)
  unfolding blocks_from tracked_from
  Complete-start height s = (refl, refl, Holds-start O (tables s), refl)

  abbrev pub loop : ℕ → ℕ → Exec Live LiveError ℕ
  loop n height = blocks_loop O W get_block_hash get_block n height

  -- The arm of an error that ends well is the one of the reorganisation.
  failed-Reorganised :
      (height next : ℕ) (continue : Exec Live LiveError ℕ) (block : ChunkItem O) (t u : Live)
      (x : WriterError)
      → blocks height ≡ some block
      → ingest_one O W get_block_hash get_block block t ≡ (u, err x)
      → (ingested O W get_block_hash get_block height continue (u, err x)).1 ≡ ok next
      → Reorganised height t
          (ingested O W get_block_hash get_block height continue (u, err x)).0
          next
  unfolding ingested
  failed-Reorganised height next continue block t u (reorg_detected r a b) given ran e = (
    block,
    u,
    r,
    a,
    b,
    given,
    ran,
    ap (λ q. ((reorganise O W get_block_hash get_block r u).0, q)) e,
  )
  failed-Reorganised height next continue block t u (output_not_found m) given ran e =
      absurd (err-ok _ next e)
  failed-Reorganised height next continue block t u (connection_failed m) given ran e =
      absurd (err-ok _ next e)
  failed-Reorganised height next continue block t u (query_failed m) given ran e =
      absurd (err-ok _ next e)
  failed-Reorganised height next continue block t u (checkpoint_error m) given ran e =
      absurd (err-ok _ next e)
  failed-Reorganised height next continue block t u (serialization_error m) given ran e =
      absurd (err-ok _ next e)
  failed-Reorganised height next continue block t u (database_error m) given ran e =
      absurd (err-ok _ next e)
  failed-Reorganised height next continue block t u (constraint_violation m) given ran e =
      absurd (err-ok _ next e)
  failed-Reorganised height next continue block t u (transaction_failed m) given ran e =
      absurd (err-ok _ next e)

  one-MemoryFits : (block : ChunkItem O) → MemoryFits O W (block ∷ [])
  unfolding block_memories estimate_block_memory memory_before
  one-MemoryFits block = omega arith

  -- What an ingested block gives.
  ingest_one-Holds :
      (block : ChunkItem O) (t u : Live) (stats : BatchStats)
      → ingest_one O W get_block_hash get_block block t ≡ (u, ok stats)
      → Holds O (block ∷ []) (tables t) (tables u)
        × (u.shutdown_tracker ≡ t.shutdown_tracker)
        × (u.current_height ≡ t.current_height)
  unfolding ingest_one
  ingest_one-Holds block t u stats ran =
      let done : (ingest_blocks_batch O W (block ∷ []) t.orchestrator).1 ≡ ok stats =
        ap (λ r. r.1) ran in
      let held =
        ingest_blocks_batch-Holds O W C (block ∷ []) t.orchestrator stats (one-MemoryFits block)
          done in
      (
        subst (Holds O (block ∷ []) (tables t)) (ap (λ r. tables r.0) ran) held,
        sym (ap (λ r. r.0.shutdown_tracker) ran),
        sym (ap (λ r. r.0.current_height) ran),
      )

  Later : ℕ → ℕ → ℕ → Type 0
  Later n height next =
      (v : Live) → (loop n height v).1 ≡ ok next → Outcome n height v (loop n height v).0 next

  ingested-Outcome :
      (n height next : ℕ) (block : ChunkItem O) (t : Live)
      (r : Live × Result WriterError BatchStats)
      → Later n (suc height) next
      → blocks height ≡ some block
      → ingest_one O W get_block_hash get_block block t ≡ r
      → (ingested O W get_block_hash get_block height (loop n (suc height)) r).1 ≡ ok next
      → Outcome
          (suc n)
          height
          t
          (ingested O W get_block_hash get_block height (loop n (suc height)) r).0
          next
  unfolding ingested Later
  ingested-Outcome n height next block t (u, ok stats) later given ran e =
      let (held, tracker, current) = ingest_one-Holds block t u stats ran in
      let v = committed O W get_block_hash get_block height u in
      Outcome-suc n height next (some block) t v _ given held refl current (later v e)
  ingested-Outcome n height next block t (u, err x) later given ran e =
      let here : height ≡ height + 0 = omega arith in
      inr (
        0,
        t,
        omega arith,
        Complete-start height t,
        subst
            (λ h.
              Reorganised h t
                (ingested O W get_block_hash get_block height (loop n (suc height)) (u, err x)).0
                next)
            here (failed-Reorganised height next (loop n (suc height)) block t u x given ran e),
      )

  fetched-Outcome :
      (n height next : ℕ) (o : Option (ChunkItem O)) (t : Live)
      → Later n (suc height) next
      → blocks height ≡ o
      → (fetched O W get_block_hash get_block height (loop n (suc height)) o t).1 ≡ ok next
      → Outcome
          (suc n)
          height
          t
          (fetched O W get_block_hash get_block height (loop n (suc height)) o t).0
          next
  unfolding fetched ingest_one Later
  fetched-Outcome n height next none t later given e =
      Outcome-suc n height next none t t _ given (Holds-start O (tables t)) refl refl (later t e)
  fetched-Outcome n height next (some block) t later given e =
      ingested-Outcome n height next block t (ingest_one O W get_block_hash get_block block t) later
        given refl e

  pub blocks_loop-Outcome :
      (n height next : ℕ) (s : Live)
      → height + n ≤ suc top
      → (loop n height s).1 ≡ ok next
      → Outcome n height s (loop n height s).0 next
  unfolding blocks_loop Later
  blocks_loop-Outcome zero height next s in_reach e =
      let end : height ≡ next = ok-inj _ _ e in
      inl (
        omega (arith, end),
        (Complete-start height s).1,
        (Complete-start height s).2,
        (Complete-start height s).3,
      )
  blocks_loop-Outcome (suc n) height next s in_reach e =
      let t = (fetch O W get_block_hash get_block height s).0 in
      let later = λ (v : Live) (h : (loop n (suc height) v).1 ≡ ok next).
        blocks_loop-Outcome n (suc height) next v (omega arith) h in
      let (b, got, rest, state) =
        bind-result (fetch O W get_block_hash get_block height)
          (λ block. fetched O W get_block_hash get_block height (loop n (suc height)) block) s next
          e in
      let answer = ap (with_context (fetch_failed height)) (answers height s.node (omega arith)) in
      let given : blocks height ≡ b = ok-inj _ _ (sym answer ∙ got) in
      subst (λ s'. Outcome (suc n) height s s' next) (sym state)
        (fetched-Outcome n height next b t later given rest)
