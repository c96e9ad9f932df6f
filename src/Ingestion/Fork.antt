-- ===== src/Ingestion/Fork.antt =====
-- The reorganisation of the live mode (src/main.rs): `find_fork_point`, and the branch of
-- `run_live_ingestion` for a block whose parent is not the stored one. The node behind the RPC
-- provider is a parameter, with a state of its own.
pub mod Search
pub mod Recovery
use bitcoin_chain_graph.Common.Context.{AnyError}
use bitcoin_chain_graph.Common.{
  ℕ, zero, suc, ◌+◌, ◌-◌, ◌%◌, ◌^◌, Bool, false, Option, none, some, if◌then◌else◌,
}
use bitcoin_chain_graph.Common.Result.{Result, ok, err}
use bitcoin_chain_graph.Common.Int.{ℤ}
use bitcoin_chain_graph.Common.Exec.{Exec, ◌>>=◌, return}
use bitcoin_chain_graph.Writer.Error.{WriterError}
use bitcoin_chain_graph.Writer.Data.{Text}
use bitcoin_chain_graph.Writer.Graph.{GraphWriter}
use bitcoin_chain_graph.Writer.Mock.Queries.{text_eq}
use bitcoin_chain_graph.Ingestion.Resume.{rollback_to_height}

pub data LiveError : Type 0 where
  lookup_failed rollback_failed : WriterError → LiveError
  hash_failed : AnyError → LiveError
  no_fork_point : LiveError
  fetch_failed : ℕ → AnyError → LiveError
  ingest_failed : ℕ → WriterError → LiveError
  tip_failed : AnyError → LiveError
  batch_fetch_failed : ℕ → AnyError → LiveError
  batch_failed : ℕ → ℕ → WriterError → LiveError

-- `our_hash.as_deref() == Some(&canonical_hash)`.
abbrev pub agrees : Option Text → Text → Bool
unfolding text_eq
agrees none canonical_hash = false
agrees (some our_hash) canonical_hash = text_eq our_hash canonical_hash

-- The context of an error.
abbrev pub with_context : {E A : Type 0} → (E → LiveError) → Result E A → Result LiveError A
with_context f (ok a) = ok a
with_context f (err e) = err (f e)

module _ {Db Node : Type 0} where
  -- A call of the database, or of the node.
  abbrev pub on_db :
      {A : Type 0}
      → (WriterError → LiveError)
      → Exec Db WriterError A
      → Exec (Db × Node) LiveError A
  on_db f m s = let r = m s.0 in ((r.0, s.1), with_context f r.1)

  abbrev pub on_node : {A : Type 0} → Exec Node AnyError A → Exec (Db × Node) LiveError A
  on_node m s = let r = m s.1 in ((s.0, r.0), with_context hash_failed r.1)

module _ (W : GraphWriter) {Node : Type 0} (get_block_hash : ℕ → Exec Node AnyError Text) where
  -- `for height in (0..=start_height).rev()`, from the number of heights that are left.
  unfoldable pub fork_loop : ℕ → Exec (W.Db × Node) LiveError ℕ
  unfolding agrees
  fork_loop zero s = (s, err no_fork_point)
  fork_loop (suc height) s =
      (on_db lookup_failed (W.lookup_block_hash height) >>= λ our_hash.
      (on_node (get_block_hash height) >>= λ canonical_hash.
      if agrees our_hash canonical_hash then return height else fork_loop height))
        s

  unfoldable pub find_fork_point : ℕ → Exec (W.Db × Node) LiveError ℕ
  unfolding fork_loop
  find_fork_point start_height = fork_loop (suc start_height)

  -- `WriterError::ReorgDetected`: the height from which the blocks are fetched again.
  unfoldable pub handle_reorg : ℤ → ℕ → Exec (W.Db × Node) LiveError ℕ
  unfolding find_fork_point rollback_to_height
  handle_reorg now reorg_height = find_fork_point (reorg_height - 1) >>= λ fork_point.
      (on_db rollback_failed (rollback_to_height W now (reorg_height - 1) fork_point)
        >>= λ rolled_back. return ((fork_point + 1) % 2 ^ 32))
