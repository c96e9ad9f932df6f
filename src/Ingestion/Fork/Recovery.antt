-- ===== src/Ingestion/Fork/Recovery.antt =====
-- About `find_fork_point` with `rollback_to_height`, the branch of `run_live_ingestion` (src/main.rs)
-- for a reorganisation, on the in-memory database.
use bitcoin_chain_graph.Common.Context.{AnyError}
use bitcoin_chain_graph.Common.{
  ℕ, suc, ◌+◌, ◌-◌, ◌%◌, ◌^◌, ◌<◌, ◌≤◌, ◌≡◌, sym, ap, ◌∙◌, none, arith, true, false, leb,
  if◌then◌else◌, ℕ_discrete,
}
use bitcoin_chain_graph.Common.Result.{Result, ok, err, ok-inj, err-ok}
use bitcoin_chain_graph.Common.Int.{ℤ}
use bitcoin_chain_graph.Common.Exec.{Exec, return, bind-result, ◌>>=◌}
use bitcoin_chain_graph.Writer.Data.{Text}
use bitcoin_chain_graph.Writer.Mock.{MockStorage}
use bitcoin_chain_graph.Writer.Mock.Queries.{lookup_block_hash}
use bitcoin_chain_graph.Writer.Mock.Instance.{mock_writer}
use bitcoin_chain_graph.Ingestion.Resume.{rollback_to_height}
use bitcoin_chain_graph.Ingestion.Resume.Reorg.{in_range, rollback_to_height_lem}
use bitcoin_chain_graph.Ingestion.Fork.{
  LiveError, with_context, rollback_failed, on_db, find_fork_point, handle_reorg,
}
use bitcoin_chain_graph.Ingestion.Fork.Search.{Agrees, find_fork_point-ok}

module _ (now : ℤ) {Node : Type 0} (get_block_hash : ℕ → Exec Node AnyError Text) (chain : ℕ → Text)
    (answers : (height : ℕ) (node : Node)
      → (get_block_hash height node).1 ≡ ok (chain height)) where
  in_context :
      {E A : Type 0} (f : E → LiveError) (r : Result E A) (a : A)
      → with_context f r ≡ ok a
      → r ≡ ok a
  in_context f (ok x) a e = ap ok (ok-inj x a e)
  in_context f (err x) a e = absurd (err-ok (f x) a e)

  -- The rollback of the heights above the fork point.
  rolled_back :
      (tip fork r : ℕ) (s : MockStorage)
      → fork ≤ tip
      → (rollback_to_height (mock_writer now) now tip fork s).1 ≡ ok r
      → (h : ℕ)
      → (lookup_block_hash h (rollback_to_height (mock_writer now) now tip fork s).0).1
        ≡ (if in_range fork tip h then ok none else (lookup_block_hash h s).1)
  unfolding rollback_to_height
  rolled_back tip fork r s low e h = elim (ℕ_discrete fork tip) [
    | yes same ↦
        let stay : leb tip fork ≡ true = ground arith in
        let out : in_range fork tip h ≡ false = ground arith in
        rw (rollback_to_height, stay)
          (sym (ap (λ b. if b then ok none else (lookup_block_hash h s).1) out))
    | no ne ↦ (rollback_to_height_lem now fork tip h r s (omega arith) e).1
  ]

  then_roll_back : ℕ → ℕ → Exec (MockStorage × Node) LiveError ℕ
  then_roll_back tip fork =
      on_db rollback_failed (rollback_to_height (mock_writer now) now tip fork) >>= λ rolled_back.
      return ((fork + 1) % 2 ^ 32)

  then_roll_back-ok :
      (tip fork next : ℕ) (t : MockStorage × Node)
      → fork < suc tip
      → (then_roll_back tip fork t).1 ≡ ok next
      → (next ≡ (fork + 1) % 2 ^ 32)
        × ((h : ℕ)
            → (lookup_block_hash h (then_roll_back tip fork t).0.0).1
              ≡ (if in_range fork tip h then ok none else (lookup_block_hash h t.0).1))
  unfolding then_roll_back
  then_roll_back-ok tip fork next t low e =
      let roll =
        on_db {Node = Node} rollback_failed (rollback_to_height (mock_writer now) now tip fork) in
      let (r, ran, last, state) =
        bind-result roll (λ rolled. return ((fork + 1) % 2 ^ 32)) t next e in
      let done = in_context rollback_failed _ r ran in
      (
        sym (ok-inj _ _ last),
        λ h.
            ap (λ q. (lookup_block_hash h q.0).1) state
            ∙ rolled_back tip fork r t.0 (omega arith) done h,
      )

  -- On the in-memory database, with a node that answers with the hashes of one chain: a
  -- reorganisation that is handled finds a fork point below the block, which is the highest height
  -- at which the database has the block of the chain; afterwards no block above it is stored up to
  -- the parent's height, up to the fork point every height has the hash that it had, and the next
  -- height is the one after the fork point.
  pub handle_reorg-ok :
      (reorg_height next : ℕ) (s : MockStorage) (node : Node)
      → (handle_reorg (mock_writer now) get_block_hash now reorg_height (s, node)).1 ≡ ok next
      → let s' = (handle_reorg (mock_writer now) get_block_hash now reorg_height (s, node)).0.0 in
        (fork : ℕ) × (next ≡ (fork + 1) % 2 ^ 32)
        × (fork < suc (reorg_height - 1))
        × Agrees now get_block_hash chain answers s fork
        × ((h : ℕ)
            → fork < h
            → h < suc (reorg_height - 1)
            → ¬ (Agrees now get_block_hash chain answers s h)
              × ((lookup_block_hash h s').1 ≡ ok none))
        × ((h : ℕ) → h ≤ fork → (lookup_block_hash h s').1 ≡ (lookup_block_hash h s).1)
  unfolding handle_reorg then_roll_back
  handle_reorg-ok reorg_height next s node e =
      let tip = reorg_height - 1 in
      let (fork, ran, rest, state) =
        bind-result (find_fork_point (mock_writer now) get_block_hash tip) (then_roll_back tip)
          (s, node) next e in
      let t = (find_fork_point (mock_writer now) get_block_hash tip (s, node)).0 in
      let (same, low, at, none_above) =
        find_fork_point-ok now get_block_hash chain answers tip fork s node ran in
      let (height, looks) = then_roll_back-ok tip fork next t low rest in
      let look : (h : ℕ)
          → (lookup_block_hash h (then_roll_back tip fork t).0.0).1
            ≡ (if in_range fork tip h then ok none else (lookup_block_hash h s).1) =
        λ h.
          looks h
          ∙ ap (λ db. if in_range fork tip h then ok none else (lookup_block_hash h db).1) same in
      let after = λ (h : ℕ). ap (λ q. (lookup_block_hash h q.0).1) state ∙ look h in
      (
        fork,
        height,
        low,
        at,
        λ h above below.
            let inside : in_range fork tip h ≡ true = ground arith in
            (
              none_above h above below,
              after h ∙ ap (λ b. if b then ok none else (lookup_block_hash h s).1) inside,
            ),
        λ h kept.
            let out : in_range fork tip h ≡ false = ground arith in
            after h ∙ ap (λ b. if b then ok none else (lookup_block_hash h s).1) out,
      )
