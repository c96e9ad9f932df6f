-- ===== src/Ingestion/Live/Tip.antt =====
-- What `run_live_ingestion` (src/main.rs) makes of a new tip.
use bitcoin_chain_graph.Common.Context.{AnyError}
use bitcoin_chain_graph.Common.{
  ◌-◌, ◌≤◌, true, ltb, leb, lt→ltb, le→leb, if-both, if◌then◌else◌, ℕ, suc, ◌+◌, ◌<◌, ◌≡◌, ◌⊎◌, inl,
  inr, refl, sym, ap, ◌∙◌, Option, arith,
}
use mathlib.Core.Path.{subst}
use bitcoin_chain_graph.Common.Result.{Result, ok, err, ok-inj, err-ok}
use bitcoin_chain_graph.Common.Exec.{Exec, bind-result, ◌>>=◌}
use bitcoin_chain_graph.Writer.Data.{Text}
use bitcoin_chain_graph.Writer.Graph.{GraphWriter}
use bitcoin_chain_graph.Writer.Contract.{Contract}
use bitcoin_chain_graph.Ingestion.Orchestrator.{Orchestrator}
use bitcoin_chain_graph.Ingestion.Batch.{ChunkItem}
use bitcoin_chain_graph.Ingestion.Session.Prefix.{Holds}
use bitcoin_chain_graph.Ingestion.Fork.{LiveError}
use bitcoin_chain_graph.Ingestion.Live.{
  LiveState, reorganise, blocks_loop, new_blocks, after_loop, go_back, handled,
}
use bitcoin_chain_graph.Ingestion.Live.Progress.{
  tables, blocks_from, tracked_from, Complete, Reorganised, Outcome, blocks_loop-Outcome,
}

module _ (O : Orchestrator) (W : GraphWriter) (C : Contract W) {Node : Type 0}
    (get_block_hash : ℕ → Exec Node AnyError Text)
    (get_block : ℕ → Exec Node AnyError (Option (ChunkItem O))) (blocks : ℕ → Option (ChunkItem O))
    (effective_tip : ℕ)
    (answers : (height : ℕ) (node : Node)
      → height ≤ effective_tip
      → (get_block height node).1 ≡ ok (blocks height)) where
  go_back-current :
      (r : LiveState O W Node × Result LiveError ℕ) (v : LiveState O W Node) (next : ℕ)
      → go_back O W get_block_hash get_block r ≡ (v, ok next)
      → v.current_height ≡ next
  go_back-current (u, ok height) v next e =
      sym (ap (λ q. q.0.current_height) e) ∙ ok-inj _ _ (ap (λ q. q.1) e)
  go_back-current (u, err x) v next e = absurd (err-ok x next (ap (λ q. q.1) e))

  reorganise-current :
      (reorg_height : ℕ) (u v : LiveState O W Node) (next : ℕ)
      → reorganise O W get_block_hash get_block reorg_height u ≡ (v, ok next)
      → v.current_height ≡ next
  unfolding reorganise
  reorganise-current reorg_height u v next e =
      go_back-current (handled O W get_block_hash get_block reorg_height u) v next e

  -- After the loop.
  Ended : LiveState O W Node → LiveState O W Node → Type 0
  Ended s s' =
      let n = suc effective_tip - s.current_height in
      ((s'.current_height ≡ effective_tip + 1)
        × Holds O
            (blocks_from O W C get_block_hash get_block blocks effective_tip answers n
              s.current_height)
            (tables O W C get_block_hash get_block blocks effective_tip answers s)
            (tables O W C get_block_hash get_block blocks effective_tip answers s')
        × (s'.shutdown_tracker
            ≡ tracked_from O W C get_block_hash get_block blocks effective_tip answers n
                s.current_height s.shutdown_tracker))
      ⊎ ((k : ℕ) × (t : LiveState O W Node) × (v : LiveState O W Node) × (next : ℕ) × (k < n)
          × Complete O W C get_block_hash get_block blocks effective_tip answers k s.current_height
              s t (s.current_height + k)
          × Reorganised O W C get_block_hash get_block blocks effective_tip answers
              (s.current_height + k) t v next
          × (s'.orchestrator ≡ v.orchestrator)
          × (s'.current_height ≡ (if ltb effective_tip next then effective_tip + 1 else next)))

  after_loop-Ended :
      (next : ℕ) (s v : LiveState O W Node)
      → s.current_height ≤ effective_tip
      → Outcome O W C get_block_hash get_block blocks effective_tip answers
          (suc effective_tip - s.current_height)
          s.current_height
          s
          v
          next
      → Ended s (after_loop O W get_block_hash get_block effective_tip next v).0
  unfolding Ended
  after_loop-Ended next s v behind (inl (end, current, held, tracker)) =
      let past : ltb effective_tip next ≡ true = lt→ltb _ _ (omega (arith, end)) in
      rw past (inl (refl, held, tracker))
  after_loop-Ended next s v behind (inr (k, t, low, complete, reorganised)) =
      let at : v.current_height ≡ next =
        reorganise-current reorganised.2 reorganised.1 v next reorganised.7 in
      inr (
        k,
        t,
        v,
        next,
        low,
        complete,
        reorganised,
        if-both (λ (x : LiveState O W Node). x.orchestrator ≡ v.orchestrator)
            (ltb effective_tip next) _ _ (λ h. refl) (λ h. refl),
        if-both
            (λ (x : LiveState O W Node).
              x.current_height ≡ (if ltb effective_tip next then effective_tip + 1 else next))
            (ltb effective_tip next) _ _ (λ h. rw h refl) (λ h. rw h at),
      )

  -- The node answers for a height up to the tip always with the same block, or always with none, the
  -- current height is not above the tip, and the database fulfils its contract. When the tip has been
  -- dealt with without an error, either every block that the node has from the current height to the
  -- tip is in the database with its rows, once and in order, the shutdown height is the height of the
  -- last of them, or as before if there is none, and the current height is the one after the tip; or
  -- this holds for the blocks below some height, whose block did not fit to the stored parent, and
  -- the reorganisation was handled: the database is as that left it, and the current height is where
  -- it says to go on, or the one after the tip if that is above the tip.
  pub new_blocks-ok :
      (s : LiveState O W Node)
      → s.current_height ≤ effective_tip
      → (new_blocks O W get_block_hash get_block effective_tip s).1 ≡ ok tt
      → let s' = (new_blocks O W get_block_hash get_block effective_tip s).0 in
        let n = suc effective_tip - s.current_height in
        ((s'.current_height ≡ effective_tip + 1)
          × Holds O
              (blocks_from O W C get_block_hash get_block blocks effective_tip answers n
                s.current_height)
              (tables O W C get_block_hash get_block blocks effective_tip answers s)
              (tables O W C get_block_hash get_block blocks effective_tip answers s')
          × (s'.shutdown_tracker
              ≡ tracked_from O W C get_block_hash get_block blocks effective_tip answers n
                  s.current_height s.shutdown_tracker))
        ⊎ ((k : ℕ) × (t : LiveState O W Node) × (v : LiveState O W Node) × (next : ℕ) × (k < n)
            × Complete O W C get_block_hash get_block blocks effective_tip answers k
                s.current_height s t
                (s.current_height + k)
            × Reorganised O W C get_block_hash get_block blocks effective_tip answers
                (s.current_height + k)
                t
                v
                next
            × (s'.orchestrator ≡ v.orchestrator)
            × (s'.current_height ≡ (if ltb effective_tip next then effective_tip + 1 else next)))
  unfolding new_blocks Ended
  new_blocks-ok s behind e =
      let n = suc effective_tip - s.current_height in
      let now : leb s.current_height effective_tip ≡ true = le→leb _ _ behind in
      let run = blocks_loop O W get_block_hash get_block n s.current_height in
      let whole = run >>= after_loop O W get_block_hash get_block effective_tip in
      let same : new_blocks O W get_block_hash get_block effective_tip s ≡ whole s =
        rw (new_blocks, now) refl in
      let (next, ran, done, state) =
        bind-result run (after_loop O W get_block_hash get_block effective_tip) s tt
          (sym (ap (λ r. r.1) same) ∙ e) in
      subst (Ended s) (sym (ap (λ r. r.0) same ∙ state)) (
        after_loop-Ended next s (run s).0 behind (
          blocks_loop-Outcome O W C get_block_hash get_block blocks effective_tip answers n
            s.current_height next s (omega arith) ran))
