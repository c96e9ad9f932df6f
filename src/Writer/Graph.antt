-- ===== src/Writer/Graph.antt =====
-- The `GraphWriter` trait (src/writer/traits.rs): the operations of a database, each a computation
-- on the state of the database. The four `_fast` writes and the one of HAS_OUTPUT that an
-- implementation leaves out are the plain ones.
use Prim.Native.String.{String}
use bitcoin_chain_graph.Common.{ℕ, List, Option}
use bitcoin_chain_graph.Common.Exec.{Exec}
use bitcoin_chain_graph.Writer.Error.{WriterError}
use bitcoin_chain_graph.Writer.Data.{
  Text, BlockData, TransactionData, OutputData, InputData, CheckpointData, PerformsData,
  BenefitsToData, OutputLookupResult,
}

pub record GraphWriter : Type 1 where
  pub Db : Type 0
  pub init_schema : Exec Db WriterError Unit
  pub write_blocks : List BlockData → Exec Db WriterError Unit
  pub write_transactions : List TransactionData → Exec Db WriterError Unit
  pub write_outputs : List OutputData → Exec Db WriterError Unit
  pub write_has_output_relationships : List OutputData → Exec Db WriterError Unit
  pub write_inputs : List InputData → Exec Db WriterError Unit
  pub write_performs : List PerformsData → Exec Db WriterError Unit
  pub write_benefits_to : List BenefitsToData → Exec Db WriterError Unit
  pub mark_output_spent : Text → Text → ℕ → Exec Db WriterError Unit
  pub create_checkpoint : Exec Db WriterError Unit
  pub update_checkpoint : CheckpointData → Exec Db WriterError Unit
  pub get_checkpoint : Exec Db WriterError (Option CheckpointData)
  pub mark_checkpoint_complete : Exec Db WriterError Unit
  pub set_checkpoint_status : String → Exec Db WriterError Unit
  pub lookup_outputs_batch : List Text → Exec Db WriterError (List OutputLookupResult)
  pub lookup_block_hash : ℕ → Exec Db WriterError (Option Text)
  pub rollback_block : ℕ → Exec Db WriterError Unit
  pub get_max_block_height : Exec Db WriterError (Option ℕ)
  pub check_block_complete : ℕ → Exec Db WriterError (ℕ × ℕ)
  pub write_blocks_fast : List BlockData → Exec Db WriterError Unit
  pub write_transactions_fast : List TransactionData → Exec Db WriterError Unit
  pub write_outputs_fast : List OutputData → Exec Db WriterError Unit
  pub write_has_output_relationships_fast : List OutputData → Exec Db WriterError Unit
  pub write_inputs_fast : List InputData → Exec Db WriterError Unit
  pub begin_transaction : Exec Db WriterError Unit
  pub commit_transaction : Exec Db WriterError Unit
  pub rollback_transaction : Exec Db WriterError Unit
