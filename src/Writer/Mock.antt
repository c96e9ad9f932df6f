-- ===== src/Writer/Mock.antt =====
-- `MockWriter` (src/writer/mock.rs): the in-memory database, with its configured failures and its
-- transactions. A method name that the code looks failures up by is a `Method`, and a `HashMap`
-- over method names is a function. The clock is an argument.
pub mod Writes
pub mod Queries
pub mod Session
pub mod Instance
pub mod Calls
pub mod Open
pub mod Grow
pub mod Transaction
pub mod Rollback
pub mod Fulfils
use Prim.Native.String.{String}
use bitcoin_chain_graph.Common.{
  ℕ, zero, suc, ◌+◌, max, Bool, true, false, not, List, [], ◌∷◌, ◌++◌, map, Option, none, some,
  length, take, ◌==◌, if◌then◌else◌,
}
use bitcoin_chain_graph.Common.Result.{Result, ok, err}
use bitcoin_chain_graph.Common.Int.{ℤ, pos}
use bitcoin_chain_graph.Common.Exec.{Exec, ◌>>◌, return}
use bitcoin_chain_graph.Writer.Error.{
  WriterError, output_not_found, query_failed, text, block_not_found,
}
use bitcoin_chain_graph.Writer.Data.{
  Text, BlockData, TransactionData, OutputData, InputData, CheckpointData, PerformsData,
  BenefitsToData, OutputLookupResult,
}
use bitcoin_chain_graph.Writer.Graph.{GraphWriter}

-- The methods that can be made to fail.
pub data Method : Type 0 where
  write_blocks write_transactions write_outputs write_inputs write_performs : Method
  write_benefits_to lookup_outputs_batch update_checkpoint write_blocks_fast : Method
  write_transactions_fast write_outputs_fast write_inputs_fast begin_transaction : Method
  commit_transaction rollback_transaction : Method

-- A position for each method name, to compare them by.
method_id : Method → ℕ
method_id write_blocks = 0
method_id write_transactions = 1
method_id write_outputs = 2
method_id write_inputs = 3
method_id write_performs = 4
method_id write_benefits_to = 5
method_id lookup_outputs_batch = 6
method_id update_checkpoint = 7
method_id write_blocks_fast = 8
method_id write_transactions_fast = 9
method_id write_outputs_fast = 10
method_id write_inputs_fast = 11
method_id begin_transaction = 12
method_id commit_transaction = 13
method_id rollback_transaction = 14

-- `HashMap::insert`.
unfoldable pub method_insert {ℓ} :
    {V : Type ℓ} → Method → V → (Method → Option V) → Method → Option V
unfolding method_id
method_insert m v f n = if method_id m == method_id n then some v else f n

-- The rows, and the checkpoint.
pub record Tables : Type 0 where
  pub blocks : List BlockData
  pub transactions : List TransactionData
  pub outputs : List OutputData
  pub inputs : List InputData
  pub performs : List PerformsData
  pub benefits_to : List BenefitsToData
  pub checkpoint : Option CheckpointData

pub record MockSnapshot : Type 0 where
  pub blocks_len : ℕ
  pub transactions_len : ℕ
  pub outputs_len : ℕ
  pub inputs_len : ℕ
  pub performs_len : ℕ
  pub benefits_to_len : ℕ
  pub snap_checkpoint : Option CheckpointData

-- How many calls succeed, how many there were, and the error.
pub record FailureAfter : Type 0 where
  pub threshold : ℕ
  pub count : ℕ
  pub error : WriterError

pub record MockStorage : Type 0 where
  pub tables : Tables
  pub schema_initialized : Bool
  pub transaction_commit_count : ℕ
  pub in_transaction : Bool
  pub checkpoint_written_in_txn : Bool
  pub snapshot : Option MockSnapshot
  pub lookup_outputs_responses : List OutputLookupResult
  pub call_log : List Method
  pub failures : Method → Option WriterError
  pub transient_failures : Method → Option (WriterError × ℕ)
  pub failure_after_n : Method → Option FailureAfter

abbrev pub empty_tables : Tables
empty_tables = record {
  blocks = [];
  transactions = [];
  outputs = [];
  inputs = [];
  performs = [];
  benefits_to = [];
  checkpoint = none;
}

unfoldable pub new : MockStorage
new = record {
  tables = empty_tables;
  schema_initialized = false;
  transaction_commit_count = 0;
  in_transaction = false;
  checkpoint_written_in_txn = false;
  snapshot = none;
  lookup_outputs_responses = [];
  call_log = [];
  failures = λ m. none;
  transient_failures = λ m. none;
  failure_after_n = λ m. none;
}

unfoldable pub clear : MockStorage → MockStorage
clear s = record s { tables = empty_tables; schema_initialized = false }

unfoldable pub set_lookup_outputs_response : List OutputLookupResult → MockStorage → MockStorage
set_lookup_outputs_response results s = record s { lookup_outputs_responses = results }

unfoldable pub set_failure_on : Method → WriterError → MockStorage → MockStorage
unfolding method_insert
set_failure_on m e s = record s { failures = method_insert m e s.failures }

unfoldable pub set_transient_failure_on : Method → WriterError → ℕ → MockStorage → MockStorage
unfolding method_insert
set_transient_failure_on m e times s = record s {
  transient_failures = method_insert m (e, times) s.transient_failures;
}

unfoldable pub set_failure_after_n_calls : Method → ℕ → WriterError → MockStorage → MockStorage
unfolding method_insert
set_failure_after_n_calls m n e s = record s {
  failure_after_n =
      method_insert m (record { threshold = n; count = 0; error = e }) s.failure_after_n;
}

unfoldable pub clear_failures : MockStorage → MockStorage
clear_failures s = record s {
  failures = λ m. none;
  transient_failures = λ m. none;
  failure_after_n = λ m. none;
}
