-- ===== src/Tests/Fork.antt =====
-- The theorems on the reorganisation of the live mode at concrete inputs.
use bitcoin_chain_graph.Common.Context.{AnyError}
use bitcoin_chain_graph.Common.{
  ℕ, suc, ◌+◌, ◌-◌, ◌%◌, ◌^◌, ◌<◌, ◌≤◌, ◌≡◌, refl, [], ◌∷◌, none, some, ◌==◌, if◌then◌else◌,
}
use bitcoin_chain_graph.Common.Int.{pos}
use bitcoin_chain_graph.Common.Result.{ok}
use bitcoin_chain_graph.Common.Exec.{Exec}
use bitcoin_chain_graph.Writer.Data.{Text}
use bitcoin_chain_graph.Writer.Mock.Writes.{check_failure}
use bitcoin_chain_graph.Writer.Mock.Queries.{lookup_block_hash, rollback_block, update_checkpoint}
use bitcoin_chain_graph.Writer.Mock.Instance.{mock_writer}
use bitcoin_chain_graph.Ingestion.Fork.{handle_reorg}
use bitcoin_chain_graph.Ingestion.Fork.Recovery.{handle_reorg-ok}
use bitcoin_chain_graph.Tests.Database.{stored}

-- The chain and the database have the same block at height 1, and others above it.
abbrev chain : ℕ → Text
chain height = if height == 1 then 1 ∷ [] else 9 ∷ []

abbrev get_block_hash : ℕ → Exec (Unit {0}) AnyError Text
get_block_hash height node = (node, ok (chain height))

reorganised : (handle_reorg (mock_writer (pos 9)) get_block_hash (pos 9) 3 (stored, tt)).1 ≡ ok 2
unfolding handle_reorg lookup_block_hash rollback_block update_checkpoint check_failure
reorganised = refl

handle_reorg-ok_example :
    (fork : ℕ) × (2 ≡ (fork + 1) % 2 ^ 32)
    × (fork < suc (3 - 1))
    × ((lookup_block_hash fork stored).1 ≡ ok (some (chain fork)))
    × ((h : ℕ)
        → fork < h
        → h < suc (3 - 1)
        → ¬ ((lookup_block_hash h stored).1 ≡ ok (some (chain h)))
          × ((lookup_block_hash h
                (handle_reorg (mock_writer (pos 9)) get_block_hash (pos 9) 3 (stored, tt)).0.0).1
              ≡ ok none))
    × ((h : ℕ)
        → h ≤ fork
        → (lookup_block_hash h
            (handle_reorg (mock_writer (pos 9)) get_block_hash (pos 9) 3 (stored, tt)).0.0).1
          ≡ (lookup_block_hash h stored).1)
handle_reorg-ok_example =
    handle_reorg-ok (pos 9) get_block_hash chain (λ height node. refl) 3 2 stored tt reorganised
