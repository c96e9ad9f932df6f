-- ===== src/Tests/Live.antt =====
-- The theorem on the real-time loop at a concrete node.
use bitcoin_chain_graph.Common.Context.{AnyError, message}
use bitcoin_chain_graph.Common.{
  ℕ, zero, suc, ℕ_discrete, ◌+◌, ◌<◌, ◌≤◌, ◌≡◌, ◌⊎◌, refl, [], ◌∷◌, Option, none, some, arith, ltb,
  if◌then◌else◌,
}
use bitcoin_chain_graph.Common.Int.{pos}
use bitcoin_chain_graph.Common.Assoc.{lookup, insert, remove}
use bitcoin_chain_graph.Common.Result.{ok, err}
use bitcoin_chain_graph.Common.Exec.{Exec}
use bitcoin_chain_graph.Utxo.Key.{shard_index, UtxoKey-discrete}
use bitcoin_chain_graph.Utxo.Cache.{shard}
use bitcoin_chain_graph.Writer.Data.{Text}
use bitcoin_chain_graph.Writer.Contract.{Contract}
use bitcoin_chain_graph.Writer.Mock
use bitcoin_chain_graph.Writer.Mock.Writes.{
  check_failure, write_blocks_fast, write_outputs_fast, write_transactions_fast,
  write_has_output_relationships, write_inputs_fast, write_performs, write_benefits_to,
}
use bitcoin_chain_graph.Writer.Mock.Queries.{
  update_checkpoint, lookup_outputs_batch, lookup_block_hash, find,
}
use bitcoin_chain_graph.Writer.Mock.Session.{begin_transaction, commit_transaction}
use bitcoin_chain_graph.Writer.Mock.Fulfils.{mock_contract}
use bitcoin_chain_graph.Ingestion.Amounts.{Item, Text-discrete}
use bitcoin_chain_graph.Ingestion.Session.Prefix.{Holds}
use bitcoin_chain_graph.Ingestion.Live.{LiveState, new_tracker, new_blocks}
use bitcoin_chain_graph.Ingestion.Live.Progress.{
  tables, blocks_from, tracked_from, Complete, Reorganised,
}
use bitcoin_chain_graph.Ingestion.Live.Tip.{new_blocks-ok}
use bitcoin_chain_graph.Tests.Instances.{halve, twice}
use bitcoin_chain_graph.Tests.Chain.{
  some_bitcoin, some_orchestrator, some_writer, first_tx, second_tx, third_tx, fresh,
}

-- Blocks at the heights 0 and 1.
abbrev block_at : ℕ → Option (Item some_bitcoin)
block_at zero = some (0, record { number = 0; txs = first_tx ∷ second_tx ∷ [] }, b'f' ∷ [])
block_at (suc zero) = some (1, record { number = 1; txs = third_tx ∷ [] }, b'f' ∷ [])
block_at _ = none

abbrev get_block : ℕ → Exec (Unit {0}) AnyError (Option (Item some_bitcoin))
get_block zero node = (node, ok (block_at 0))
get_block (suc zero) node = (node, ok (block_at 1))
get_block _ node = (node, err (message (b'f' ∷ [])))

answers :
    (height : ℕ) (node : Unit {0}) → height ≤ 1 → (get_block height node).1 ≡ ok (block_at height)
answers zero node h = refl
answers (suc zero) node h = refl
answers (suc (suc height)) node h = absurd (omega arith)

abbrev get_block_hash : ℕ → Exec (Unit {0}) AnyError Text
get_block_hash height node = (node, ok [])

abbrev listening : LiveState some_orchestrator some_writer (Unit {0})
listening = record {
  orchestrator = fresh;
  node = tt;
  shutdown_tracker = new_tracker;
  current_height = 0;
  blocks_processed = 0;
}

abbrev some_contract : Contract some_writer
some_contract = mock_contract (pos 9)

up_to_tip :
    (new_blocks some_orchestrator some_writer get_block_hash get_block 1 listening).1 ≡ ok tt
unfolding new_blocks shard_index lookup insert remove check_failure Mock.new begin_transaction
    commit_transaction write_blocks_fast write_outputs_fast write_transactions_fast
    write_has_output_relationships write_inputs_fast write_performs write_benefits_to
    update_checkpoint lookup_outputs_batch lookup_block_hash find shard halve twice UtxoKey-discrete
    Text-discrete ℕ_discrete
up_to_tip = refl

new_blocks-ok_example :
    let s' = (new_blocks some_orchestrator some_writer get_block_hash get_block 1 listening).0 in
    ((s'.current_height ≡ 2)
      × Holds some_orchestrator
          (blocks_from some_orchestrator some_writer some_contract get_block_hash get_block block_at
            1 answers 2 0)
          (tables some_orchestrator some_writer some_contract get_block_hash get_block block_at 1
            answers listening)
          (tables some_orchestrator some_writer some_contract get_block_hash get_block block_at 1
            answers s')
      × (s'.shutdown_tracker
          ≡ tracked_from some_orchestrator some_writer some_contract get_block_hash get_block
              block_at 1 answers 2 0 new_tracker))
    ⊎ ((k : ℕ) × (t : LiveState some_orchestrator some_writer (Unit {0})) × (v : LiveState
          some_orchestrator some_writer
          (Unit {0}))
        × (next : ℕ) × (k < 2)
        × Complete some_orchestrator some_writer some_contract get_block_hash get_block block_at 1
            answers k 0 listening t
            (0 + k)
        × Reorganised some_orchestrator some_writer some_contract get_block_hash get_block block_at
            1 answers
            (0 + k)
            t
            v
            next
        × (s'.orchestrator ≡ v.orchestrator)
        × (s'.current_height ≡ (if ltb 1 next then 2 else next)))
new_blocks-ok_example =
    new_blocks-ok some_orchestrator some_writer some_contract get_block_hash get_block block_at 1
      answers listening (omega arith) up_to_tip
