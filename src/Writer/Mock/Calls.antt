-- ===== src/Writer/Mock/Calls.antt =====
-- The calls that `MockWriter` takes inside a transaction, in any order (src/writer/mock.rs).
use bitcoin_chain_graph.Common.{List, [], ◌∷◌}
use bitcoin_chain_graph.Writer.Data.{
  Text, BlockData, TransactionData, OutputData, InputData, CheckpointData, PerformsData,
  BenefitsToData,
}
use bitcoin_chain_graph.Writer.Mock.{MockStorage}
use bitcoin_chain_graph.Writer.Mock.Writes.{
  write_blocks, write_transactions, write_outputs, write_inputs, write_performs, write_benefits_to,
  write_blocks_fast, write_transactions_fast, write_outputs_fast, write_inputs_fast,
}
use bitcoin_chain_graph.Writer.Mock.Queries.{update_checkpoint, lookup_outputs_batch}

-- The calls that a chunk makes inside its transaction.
pub data Call : Type 0 where
  blocks blocks_fast : List BlockData → Call
  transactions transactions_fast : List TransactionData → Call
  outputs outputs_fast : List OutputData → Call
  inputs inputs_fast : List InputData → Call
  performs : List PerformsData → Call
  benefits_to : List BenefitsToData → Call
  checkpoint : CheckpointData → Call
  look_up : List Text → Call

-- The state after a call, whether it succeeds or fails.
unfoldable pub call : Call → MockStorage → MockStorage
unfolding write_blocks_fast write_transactions_fast write_outputs_fast write_inputs_fast
    write_performs write_benefits_to update_checkpoint lookup_outputs_batch
call (blocks rows) s = (write_blocks rows s).0
call (blocks_fast rows) s = (write_blocks_fast rows s).0
call (transactions rows) s = (write_transactions rows s).0
call (transactions_fast rows) s = (write_transactions_fast rows s).0
call (outputs rows) s = (write_outputs rows s).0
call (outputs_fast rows) s = (write_outputs_fast rows s).0
call (inputs rows) s = (write_inputs rows s).0
call (inputs_fast rows) s = (write_inputs_fast rows s).0
call (performs rows) s = (write_performs rows s).0
call (benefits_to rows) s = (write_benefits_to rows s).0
call (checkpoint c) s = (update_checkpoint c s).0
call (look_up ids) s = (lookup_outputs_batch ids s).0

unfoldable pub calls : List Call → MockStorage → MockStorage
unfolding call
calls [] s = s
calls (c ∷ cs) s = calls cs (call c s)
