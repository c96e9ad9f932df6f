-- ===== src/Ingestion/Live/Catchup/Blocks.antt =====
-- About the catch-up of `run_live_ingestion` (src/main.rs): the blocks that its loop ingests.
use mathlib.Core.Path.{subst}
use bitcoin_chain_graph.Common.{
  ℕ, zero, suc, ◌+◌, ◌-◌, ◌^◌, ◌≤◌, ◌<◌, ◌≡◌, refl, sym, ap, ◌∙◌, ◌⊎◌, inl, inr, false, List, [],
  ◌∷◌, arith, ltb, ltb-false→ge, ltb→lt, if-both, min, if◌then◌else◌, Option,
}
use bitcoin_chain_graph.Common.Context.{AnyError}
use bitcoin_chain_graph.Common.Exec.{bind_of_ok, bind_of_err}
use bitcoin_chain_graph.Common.Result.{Result, Result-cases, ok, err, ok-inj}
use bitcoin_chain_graph.Writer.Graph.{GraphWriter}
use bitcoin_chain_graph.Ingestion.Orchestrator.{Orchestrator}
use bitcoin_chain_graph.Ingestion.Batch.{ChunkItem}
use bitcoin_chain_graph.Ingestion.Session.{ingest_blocks_batch}
use bitcoin_chain_graph.Ingestion.Fork.{LiveError, tip_failed, batch_fetch_failed, with_context}
use bitcoin_chain_graph.Parser.Rpc.{get_tip_height, get_block}
use bitcoin_chain_graph.Parser.Rpc.Batch.{get_block_batch, numbers_from}
use bitcoin_chain_graph.Parser.Rpc.Order.{stable-Full, get_block_batch-in_order}
use bitcoin_chain_graph.Ingestion.Live.{record_batch_commit}
use bitcoin_chain_graph.Ingestion.Live.Catchup.Heights.{
  BlocksFrom, BlocksFrom-cons, BlocksFrom-nil, height_of-found, last_height-BlocksFrom, moved,
  CaughtUp,
}
use bitcoin_chain_graph.Ingestion.Live.Catchup.Steps.{Outcome, next_pass-CaughtUp}
use bitcoin_chain_graph.Ingestion.Live.Catchup.Ends.{stop-again, catchup_loop-ends}
use bitcoin_chain_graph.Ingestion.Live.Catchup.{
  Setting, Flow, stop, last_height, Live, Pass, call, unless_cancelled, batch_end, advance,
  after_ingest, ingest, after_fetch, fetch_count, fetch_batch, after_tip, look_up_tip, catchup_pass,
  catchup_loop,
}

module _ (O : Orchestrator) (W : GraphWriter) (L : Setting O)
    (answer : ℕ → Result AnyError (Option (ChunkItem O))) where
  open L use {crates, provider, is_cancelled, max_height}

  module _ (top : ℕ)
      (stable : (h : ℕ) (net : crates.Net) → (get_block crates provider h net).1 ≡ answer h)
      (tip_fixed : (net : crates.Net)
        → (tip : ℕ) × ((get_tip_height crates provider net).1 ≡ ok tip)
          × (min tip max_height ≡ top))
      (running : (net : crates.Net) → (is_cancelled net).1 ≡ false) (below : top + 1 < 2 ^ 32)
      (some_calls : 0 < provider.max_concurrent) (some_blocks : 0 < provider.batch_size) where
    tip_top :
        (net : crates.Net) (tip : ℕ)
        → (get_tip_height crates provider net).1 ≡ ok tip
        → min tip max_height ≤ top
    tip_top net tip h =
        let (t, got, same) = tip_fixed net in
        let equal : t ≡ tip = ok-inj t tip (sym got ∙ h) in
        subst (λ c. min c max_height ≤ top) equal (omega (arith, same))

    unless_cancelled-running :
        (rest : Pass O W L Flow) (s : Live O W L)
        → unless_cancelled O W L rest s ≡ rest (record s { node = (is_cancelled s.node).0 })
    unfolding unless_cancelled
    unless_cancelled-running rest s = rw (running s.node) refl

    ingest-Outcome :
        (k : ℕ) (block : ChunkItem O) (blocks : List (ChunkItem O)) (s : Live O W L)
        → s.current_height + suc k ≤ top + 1
        → BlocksFrom O W L answer s.current_height (suc k) (block ∷ blocks)
        → Outcome O W L answer top s (ingest O W L (block ∷ blocks) s)
    unfolding ingest after_ingest advance batch_end Outcome
    ingest-Outcome k block blocks s fits h =
        elim (Result-cases (ingest_blocks_batch O W (block ∷ blocks) s.orchestrator).1) [
          | inl (stats, e) ↦
              let (first, rest) = BlocksFrom-cons O W L answer s.current_height k block blocks h in
              let full = stable-Full crates provider answer stable s.node in
              let height = height_of-found O W L answer s.current_height block full first in
              let last = last_height-BlocksFrom O W L answer block.0 k blocks full (
                moved O W L answer (suc s.current_height) (suc block.0) k k blocks
                  (ap suc (sym height)) refl rest) in
              let last_k : last_height (λ (c : ChunkItem O). c.0) block.0 blocks
                  ≡ s.current_height + k =
                omega (arith, last, height) in
              let s1 : Live O W L = record s {
                orchestrator = (ingest_blocks_batch O W (block ∷ blocks) s.orchestrator).0;
                shutdown_tracker =
                    record_batch_commit (last_height (λ (c : ChunkItem O). c.0) block.0 blocks)
                      s.shutdown_tracker;
              } in
              rw e (
                subst (Outcome O W L answer top s)
                  (sym (unless_cancelled-running (advance O W L (block ∷ blocks)) s1))
                  (
                    k,
                    block ∷ blocks,
                    stats,
                    fits,
                    omega (arith, last_k),
                    h,
                    ap (λ r. ((ingest_blocks_batch O W (block ∷ blocks) s.orchestrator).0, r)) e,
                    ap (λ c. record_batch_commit c s.shutdown_tracker) last_k,
                  ))
          | inr (x, e) ↦ rw e tt
        ]

    after_fetch-Outcome :
        (n : ℕ) (blocks : List (ChunkItem O)) (s : Live O W L)
        → 0 < n
        → s.current_height + n ≤ top + 1
        → BlocksFrom O W L answer s.current_height n blocks
        → Outcome O W L answer top s (after_fetch O W L blocks s)
    unfolding after_fetch numbers_from Outcome
    after_fetch-Outcome zero blocks s more fits h = absurd (omega arith)
    after_fetch-Outcome (suc k) [] s more fits h =
        absurd (BlocksFrom-nil O W L answer s.current_height k h)
    after_fetch-Outcome (suc k) (block ∷ blocks) s more fits h =
        subst (Outcome O W L answer top s)
          (sym (unless_cancelled-running (ingest O W L (block ∷ blocks)) s))
          (ingest-Outcome k block blocks (record s { node = (is_cancelled s.node).0 }) fits h)

    fetch_batch-Outcome :
        (s : Live O W L)
        → s.current_height ≤ top
        → Outcome O W L answer top s (fetch_batch O W L top s)
    unfolding fetch_batch fetch_count Outcome
    fetch_batch-Outcome s low =
        let count = fetch_count O W L top s in
        let get = get_block_batch crates provider s.current_height count in
        let more : 0 < count = omega (arith, some_blocks) in
        let fits : s.current_height + count ≤ top + 1 = omega arith in
        elim (get_block_batch-in_order crates provider answer stable s.current_height count s.node
          some_calls (omega arith) (omega arith)) [
            | inl (blocks, got, h) ↦
                let result = ap (with_context (batch_fetch_failed s.current_height)) got in
                subst (Outcome O W L answer top s)
                  (sym (
                    bind_of_ok (call O W L (batch_fetch_failed s.current_height) get)
                      (after_fetch O W L) s blocks result))
                  (after_fetch-Outcome count blocks (record s { node = (get s.node).0 }) more fits
                    h)
            | inr (e, o, less, failed, got) ↦
                let result = ap (with_context (batch_fetch_failed s.current_height)) got in
                subst (Outcome O W L answer top s)
                  (sym (
                    bind_of_err (call O W L (batch_fetch_failed s.current_height) get)
                      (after_fetch O W L) s _ result))
                  tt
          ]

    after_tip-Outcome :
        (tip : ℕ) (s : Live O W L)
        → min tip max_height ≡ top
        → s.current_height ≤ top + 1
        → Outcome O W L answer top s (after_tip O W L tip s)
    unfolding after_tip Outcome
    after_tip-Outcome tip s same low =
        subst
          (λ t. Outcome O W L answer top s (
            let rest = fetch_batch O W L t s in
            if ltb t s.current_height then (s, ok stop) else rest))
          (sym same)
          (if-both (Outcome O W L answer top s) (ltb top s.current_height) _ _
            (λ e.
              let past = ltb→lt top s.current_height e in (omega arith, omega arith, refl, refl))
            (λ e. fetch_batch-Outcome s (ltb-false→ge _ _ e)))

    catchup_pass-Outcome :
        (s : Live O W L)
        → s.current_height ≤ top + 1
        → Outcome O W L answer top s (catchup_pass O W L s)
    unfolding catchup_pass look_up_tip Outcome
    catchup_pass-Outcome s low =
        let s1 : Live O W L = record s { node = (is_cancelled s.node).0 } in
        let (tip, got, same) = tip_fixed s1.node in
        let tip_call = call O W L tip_failed (get_tip_height crates provider) in
        let result = ap (with_context tip_failed) got in
        subst (Outcome O W L answer top s)
          (sym (
            unless_cancelled-running (look_up_tip O W L) s
            ∙ bind_of_ok tip_call (after_tip O W L) s1 tip result))
          (after_tip-Outcome tip (tip_call s1).0 same low)

    catchup_loop-CaughtUp :
        (n : ℕ) (s : Live O W L)
        → s.current_height ≤ top + 1
        → (catchup_loop O W L n s).1 ≡ ok stop
        → CaughtUp O W L answer top s (catchup_loop O W L n s).0
    unfolding catchup_loop
    catchup_loop-CaughtUp zero s low end = absurd (stop-again (sym end))
    catchup_loop-CaughtUp (suc n) s low end =
        next_pass-CaughtUp O W L answer top (catchup_loop O W L n) s (catchup_pass O W L s)
          (catchup_loop-CaughtUp n) (catchup_pass-Outcome s low) end

    -- If the node always gives the same answers, the tip, cut off at `max_height`, is always the same
    -- and no u32::MAX, the current height is at most the one after it, nobody asks to shut down, and
    -- calls and batches have at least size one: then the catch-up stops or fails, in at most as many
    -- passes as there are heights left and one more. If it stops, the blocks of all heights from the
    -- current one to the tip were ingested without an error, batch after batch, in the order of the
    -- heights and none left out; the current height is the one after the tip, and the tracker has the
    -- tip if there was a height left, and what it had before if not.
    pub catchup_loop-blocks :
        (n : ℕ) (s : Live O W L)
        → s.current_height ≤ top + 1
        → suc top - s.current_height < n
        → (((catchup_loop O W L n s).1 ≡ ok stop)
            × CaughtUp O W L answer top s (catchup_loop O W L n s).0)
          ⊎ ((e : LiveError) × ((catchup_loop O W L n s).1 ≡ err e))
    catchup_loop-blocks n s low enough =
        elim (catchup_loop-ends O W L top n s some_calls below tip_top enough) [
          | inl end ↦ inl (end, catchup_loop-CaughtUp n s low end)
          | inr failed ↦ inr failed
        ]
