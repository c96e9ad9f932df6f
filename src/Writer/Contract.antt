-- ===== src/Writer/Contract.antt =====
-- What the ingestion (src/domain/ingestion.rs) relies on in a database behind the `GraphWriter` trait
-- (src/writer/traits.rs): the tables it holds, and what a call does to them, inside a transaction as
-- well.
use bitcoin_chain_graph.Common.{ℕ, ◌≡◌, List, ◌++◌, some}
use bitcoin_chain_graph.Common.Result.{ok, err}
use bitcoin_chain_graph.Common.Exec.{Exec}
use bitcoin_chain_graph.Writer.Error.{WriterError}
use bitcoin_chain_graph.Writer.Data.{
  Text, BlockData, TransactionData, OutputData, InputData, CheckpointData, PerformsData,
  BenefitsToData,
}
use bitcoin_chain_graph.Writer.Mock.{Tables}
use bitcoin_chain_graph.Writer.Graph.{GraphWriter}

-- The effect of each write on the tables.
abbrev pub add_blocks : List BlockData → Tables → Tables
add_blocks rows t = record t { blocks = t.blocks ++ rows }

abbrev pub add_transactions : List TransactionData → Tables → Tables
add_transactions rows t = record t { transactions = t.transactions ++ rows }

abbrev pub add_outputs : List OutputData → Tables → Tables
add_outputs rows t = record t { outputs = t.outputs ++ rows }

abbrev pub add_inputs : List InputData → Tables → Tables
add_inputs rows t = record t { inputs = t.inputs ++ rows }

abbrev pub add_performs : List PerformsData → Tables → Tables
add_performs rows t = record t { performs = t.performs ++ rows }

abbrev pub add_benefits_to : List BenefitsToData → Tables → Tables
add_benefits_to rows t = record t { benefits_to = t.benefits_to ++ rows }

abbrev pub set_checkpoint : CheckpointData → Tables → Tables
set_checkpoint c t = record t { checkpoint = some c }

abbrev pub same_tables : Tables → Tables
same_tables t = t

module _ {Db : Type 0} (view : Db → Tables) (InTxn : Tables → Db → Type 0) where
  -- If `m` succeeds it has the effect `f`, and in any case it keeps a transaction open that was begun on
  -- the tables `t0`.
  pub record Does {A : Type 0} (m : Exec Db WriterError A) (f : Tables → Tables) : Type 0 where
    pub done : (s : Db) (a : A) → (m s).1 ≡ ok a → view (m s).0 ≡ f (view s)
    pub keeps : (t0 : Tables) (s : Db) → InTxn t0 s → InTxn t0 (m s).0

pub record Contract (W : GraphWriter) : Type 1 where
  pub view : W.Db → Tables
  pub InTxn : Tables → W.Db → Type 0
  pub blocks : (rows : List BlockData) → Does view InTxn (W.write_blocks rows) (add_blocks rows)
  pub blocks_fast :
      (rows : List BlockData) → Does view InTxn (W.write_blocks_fast rows) (add_blocks rows)
  pub transactions :
      (rows : List TransactionData)
      → Does view InTxn (W.write_transactions rows) (add_transactions rows)
  pub transactions_fast :
      (rows : List TransactionData)
      → Does view InTxn (W.write_transactions_fast rows) (add_transactions rows)
  pub outputs : (rows : List OutputData) → Does view InTxn (W.write_outputs rows) (add_outputs rows)
  pub outputs_fast :
      (rows : List OutputData) → Does view InTxn (W.write_outputs_fast rows) (add_outputs rows)
  pub has_output :
      (rows : List OutputData) → Does view InTxn (W.write_has_output_relationships rows) same_tables
  pub has_output_fast :
      (rows : List OutputData)
      → Does view InTxn (W.write_has_output_relationships_fast rows) same_tables
  pub inputs : (rows : List InputData) → Does view InTxn (W.write_inputs rows) (add_inputs rows)
  pub inputs_fast :
      (rows : List InputData) → Does view InTxn (W.write_inputs_fast rows) (add_inputs rows)
  pub performs :
      (rows : List PerformsData) → Does view InTxn (W.write_performs rows) (add_performs rows)
  pub benefits_to :
      (rows : List BenefitsToData)
      → Does view InTxn (W.write_benefits_to rows) (add_benefits_to rows)
  pub checkpoint : (c : CheckpointData) → Does view InTxn (W.update_checkpoint c) (set_checkpoint c)
  -- These two queries change no table, whether they succeed or fail.
  pub look_up : (ids : List Text) (s : W.Db) → view (W.lookup_outputs_batch ids s).0 ≡ view s
  pub block_hash : (height : ℕ) (s : W.Db) → view (W.lookup_block_hash height s).0 ≡ view s
  pub begin_view : (s : W.Db) → view (W.begin_transaction s).0 ≡ view s
  pub begin_ok :
      (s : W.Db) → (W.begin_transaction s).1 ≡ ok tt → InTxn (view s) (W.begin_transaction s).0
  pub commit_ok :
      (s : W.Db) → (W.commit_transaction s).1 ≡ ok tt → view (W.commit_transaction s).0 ≡ view s
  -- A commit that fails undoes what was done.
  pub commit_err :
      (t0 : Tables) (s : W.Db) (e : WriterError)
      → InTxn t0 s
      → (W.commit_transaction s).1 ≡ err e
      → view (W.commit_transaction s).0 ≡ t0
  pub rollback_ok :
      (t0 : Tables) (s : W.Db)
      → InTxn t0 s
      → (W.rollback_transaction s).1 ≡ ok tt
      → view (W.rollback_transaction s).0 ≡ t0
