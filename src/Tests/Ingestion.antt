-- ===== src/Tests/Ingestion.antt =====
-- The theorems on the batches and on resuming at concrete inputs.
use bitcoin_chain_graph.Common.{
  ℕ, suc, ◌-◌, ◌^◌, ◌<◌, ◌≤◌, ◌≡◌, ◌⊎◌, inl, refl, true, List, [], ◌∷◌, none, some, length, All,
  arith, if◌then◌else◌,
}
use bitcoin_chain_graph.Common.Int.{pos, negsuc, ltz, as_i32, as_u32, sucz}
use bitcoin_chain_graph.Common.Result.{ok}
use bitcoin_chain_graph.Writer.Data.{Text}
use bitcoin_chain_graph.Writer.Mock.Writes.{check_failure}
use bitcoin_chain_graph.Writer.Mock.Queries.{
  find, max_height, lookup_block_hash, check_block_complete, rollback_block, update_checkpoint,
  get_checkpoint, get_max_block_height,
}
use bitcoin_chain_graph.Writer.Mock.Instance.{mock_writer}
use bitcoin_chain_graph.Ingestion.Chunks.{compute_adaptive_chunks}
use bitcoin_chain_graph.Ingestion.Chunks.Budget.{
  memory_before, Tiles, RangeOk, compute_adaptive_chunks_lem,
}
use bitcoin_chain_graph.Ingestion.Resume.{
  resume_of, is_complete, rolled_back_checkpoint, sync_checkpoint_with_db, rollback_to_height,
}
use bitcoin_chain_graph.Ingestion.Resume.Walk.{Removed, Kept}
use bitcoin_chain_graph.Ingestion.Resume.Synced.{sync_checkpoint_with_db_lem}
use bitcoin_chain_graph.Ingestion.Resume.Reorg.{in_range, rollback_to_height_lem}
use bitcoin_chain_graph.Tests.Database.{stored}

-- A block over the budget in the middle.
abbrev memories : List ℕ
memories = 30 ∷ 40 ∷ 500 ∷ 60 ∷ 50 ∷ []

memories-small : memory_before memories (length memories) < 2 ^ 64
unfolding memory_before
memories-small = omega arith

compute_adaptive_chunks_lem_example :
    Tiles 0 5 (compute_adaptive_chunks memories 100)
    × All (RangeOk memories 100) (compute_adaptive_chunks memories 100)
compute_adaptive_chunks_lem_example = compute_adaptive_chunks_lem memories 100 memories-small

-- The upper of the two stored blocks has no transaction, and there is no checkpoint.
highest : max_height stored.tables.blocks ≡ some 2
unfolding max_height
highest = refl

beyond : ltz (negsuc 0) (as_i32 2) ≡ true
unfolding ltz as_i32
beyond = refl

synced : (sync_checkpoint_with_db (mock_writer (pos 9)) (pos 9) stored).1 ≡ ok 2
unfolding sync_checkpoint_with_db get_checkpoint get_max_block_height ltz as_i32 as_u32
    check_block_complete rollback_block lookup_block_hash update_checkpoint check_failure sucz
synced = refl

sync_checkpoint_with_db_lem_example :
    let s' = (sync_checkpoint_with_db (mock_writer (pos 9)) (pos 9) stored).0 in
    ((2 ≡ resume_of none)
      ⊎ ((h : ℕ) × (2 ≡ suc h)
          × (resume_of none ≤ h)
          × (h ≤ 2)
          × ((counts : ℕ × ℕ) × ((check_block_complete h s').1 ≡ ok counts)
              × (is_complete counts ≡ true))))
    × ((g : ℕ) → 2 ≤ g → g ≤ 2 → Removed g stored s')
    × ((g : ℕ) → g < 2 → Kept g stored s')
sync_checkpoint_with_db_lem_example =
    sync_checkpoint_with_db_lem (pos 9) stored 2 highest (inl refl) (omega arith) beyond 2 synced

abbrev one_byte : Text
one_byte = 1 ∷ []

parent_hash : (lookup_block_hash 1 stored).1 ≡ ok (some (1 ∷ []))
unfolding lookup_block_hash find
parent_hash = refl

undone : (rollback_to_height (mock_writer (pos 9)) (pos 9) 2 1 stored).1 ≡ ok 1
unfolding rollback_to_height rollback_block lookup_block_hash update_checkpoint check_failure
undone = refl

rollback_to_height_lem_example :
    (1 ≡ 2 - 1)
    × ((lookup_block_hash 2 (rollback_to_height (mock_writer (pos 9)) (pos 9) 2 1 stored).0).1
        ≡ (if in_range 1 2 2 then ok none else (lookup_block_hash 2 stored).1))
    × (((lookup_block_hash 1 stored).1 ≡ ok none)
        ⊎ ((h : Text) × ((lookup_block_hash 1 stored).1 ≡ ok (some h))
            × ((rollback_to_height (mock_writer (pos 9)) (pos 9) 2 1 stored).0.tables.checkpoint
                ≡ some (rolled_back_checkpoint (pos 9) 1 h))))
rollback_to_height_lem_example = rollback_to_height_lem (pos 9) 1 2 2 1 stored (omega arith) undone
