-- ===== src/Writer/Mock/Fulfils.antt =====
-- `MockWriter` (src/writer/mock.rs) as a database that the ingestion can rely on.
use bitcoin_chain_graph.Common.{
  ◌≡◌, refl, sym, ap, ◌∙◌, inl, inr, List, [], ◌∷◌, ◌++◌, Option-cases,
}
use bitcoin_chain_graph.Common.Int.{ℤ}
use bitcoin_chain_graph.Common.Result.{ok, err, err-ok, Result-cases}
use bitcoin_chain_graph.Common.Exec.{Exec, ◌>>◌}
use bitcoin_chain_graph.Writer.Error.{WriterError}
use bitcoin_chain_graph.Writer.Data.{Text, OutputData, CheckpointData}
use bitcoin_chain_graph.Writer.Contract.{
  Does, Contract, add_blocks, add_transactions, add_outputs, add_inputs, add_performs,
  add_benefits_to, set_checkpoint, same_tables,
}
use bitcoin_chain_graph.Writer.Mock.{Method, Tables, MockStorage}
use bitcoin_chain_graph.Writer.Mock.Writes.{
  check_failure, guarded, on_tables, write_blocks, write_transactions, write_outputs,
  write_has_output_relationships, write_inputs, write_performs, write_benefits_to,
  write_blocks_fast, write_transactions_fast, write_outputs_fast, write_inputs_fast,
}
use bitcoin_chain_graph.Writer.Mock.Queries.{
  store_checkpoint, update_checkpoint, lookup_outputs_batch, lookup_block_hash,
}
use bitcoin_chain_graph.Writer.Mock.Session.{begin_transaction, commit_transaction}
use bitcoin_chain_graph.Writer.Mock.Calls
use bitcoin_chain_graph.Writer.Mock.Open.{IsOpen, check_failure-Same}
use bitcoin_chain_graph.Writer.Mock.Grow.{call-IsOpen}
use bitcoin_chain_graph.Writer.Mock.Transaction.{
  begin_transaction-IsOpen, rollback_transaction-IsOpen, commit_transaction-IsOpen,
}
use bitcoin_chain_graph.Writer.Mock.Instance.{mock_writer}

abbrev tables_of : MockStorage → Tables
tables_of s = s.tables

-- What a guarded call that succeeds does, if its work has an effect on the tables.
guarded-tables :
    (m : Method) (work : MockStorage → MockStorage) (f : Tables → Tables)
    → ((s : MockStorage) → (work s).tables ≡ f s.tables)
    → (s : MockStorage) (a : Unit {0}) → (guarded m work s).1 ≡ ok a
    → (guarded m work s).0.tables ≡ f s.tables
unfolding guarded
guarded-tables m work f effect s a h = elim (Option-cases (check_failure m s).1) [
  | inr (e, at) ↦ absurd (err-ok e a (rw (guarded, at) at h))
  | inl at ↦ rw (at, guarded) (effect (check_failure m s).0 ∙ ap f (check_failure-Same m s).0)
]

-- A guarded call before another one.
fast-tables :
    (m : Method) (rest : Exec MockStorage WriterError Unit) (f : Tables → Tables)
    → ((s : MockStorage) (a : Unit {0}) → (rest s).1 ≡ ok a → (rest s).0.tables ≡ f s.tables)
    → (s : MockStorage) (a : Unit {0}) → ((guarded m (λ x. x) >> rest) s).1 ≡ ok a
    → ((guarded m (λ x. x) >> rest) s).0.tables ≡ f s.tables
fast-tables m rest f effect s a h = elim (Result-cases (guarded m (λ x. x) s).1) [
  | inr (e, at) ↦ absurd (err-ok e a (rw at at h))
  | inl (b, at) ↦
      let first = guarded-tables m (λ x. x) (λ t. t) (λ s'. refl) s b at in
      rw at (effect (guarded m (λ x. x) s).0 a (rw at at h) ∙ ap f first)
]

begin_transaction-tables : (s : MockStorage) → (begin_transaction s).0.tables ≡ s.tables
unfolding begin_transaction guarded
begin_transaction-tables s =
    let same = (check_failure-Same Method.begin_transaction s).0 in
    elim (Option-cases (check_failure Method.begin_transaction s).1) [
      | inr (e, at) ↦ rw (at, guarded) same
      | inl at ↦ rw (at, guarded) same
    ]

lookup_outputs_batch-tables :
    (ids : List Text) (s : MockStorage) → (lookup_outputs_batch ids s).0.tables ≡ s.tables
unfolding lookup_outputs_batch
lookup_outputs_batch-tables ids s =
    let same = (check_failure-Same Method.lookup_outputs_batch s).0 in
    elim (Option-cases (check_failure Method.lookup_outputs_batch s).1) [
      | inr (e, at) ↦ rw (at, lookup_outputs_batch) same
      | inl at ↦ rw (at, lookup_outputs_batch) same
    ]

-- A write that appends rows to a table, plain and fast.
plain-Does :
    (m : Method) (f : Tables → Tables)
    → ((t0 : Tables) (s : MockStorage) → IsOpen t0 s → IsOpen t0 (guarded m (on_tables f) s).0)
    → Does tables_of IsOpen (guarded m (on_tables f)) f
plain-Does m f keeps = record { done = guarded-tables m (on_tables f) f (λ s. refl); keeps = keeps }

fast-Does :
    (m : Method) (rest : Exec MockStorage WriterError Unit) (f : Tables → Tables)
    → Does tables_of IsOpen rest f
    → ((t0 : Tables) (s : MockStorage) → IsOpen t0 s → IsOpen t0 ((guarded m (λ x. x) >> rest) s).0)
    → Does tables_of IsOpen (guarded m (λ x. x) >> rest) f
fast-Does m rest f d keeps = record { done = fast-tables m rest f d.done; keeps = keeps }

update_checkpoint-Does :
    (c : CheckpointData) → Does tables_of IsOpen (update_checkpoint c) (set_checkpoint c)
unfolding update_checkpoint store_checkpoint Calls.call
update_checkpoint-Does c = record {
  done =
      guarded-tables Method.update_checkpoint (store_checkpoint c) (set_checkpoint c) (λ s. refl);
  keeps = λ t0. call-IsOpen t0 (Calls.checkpoint c);
}

has_output-Does :
    (rows : List OutputData)
    → Does tables_of IsOpen (write_has_output_relationships rows) same_tables
unfolding write_has_output_relationships
has_output-Does rows = record { done = λ s a h. refl; keeps = λ t0 s h. h }

commit_transaction-kept :
    (s : MockStorage)
    → (commit_transaction s).1 ≡ ok tt
    → (commit_transaction s).0.tables ≡ s.tables
unfolding commit_transaction
commit_transaction-kept s h =
    let t1 = record s { call_log = s.call_log ++ Method.commit_transaction ∷ [] } in
    let same = (check_failure-Same Method.commit_transaction t1).0 in
    elim (Option-cases (check_failure Method.commit_transaction t1).1) [
      | inr (e, at) ↦ absurd (err-ok e tt (rw (at, commit_transaction) at h))
      | inl at ↦ rw (at, commit_transaction) same
    ]

commit_transaction-restored :
    (t0 : Tables) (s : MockStorage) (e : WriterError)
    → IsOpen t0 s
    → (commit_transaction s).1 ≡ err e
    → (commit_transaction s).0.tables ≡ t0
commit_transaction-restored t0 s e h failed = elim (commit_transaction-IsOpen t0 s h) [
  | inl (good, kept) ↦ absurd (err-ok e tt (sym failed ∙ good))
  | inr (f, bad, restored) ↦ restored
]

-- The contract, call by call.
pub mock_contract : (now : ℤ) → Contract (mock_writer now)
unfolding Calls.call write_blocks write_transactions write_outputs write_inputs write_performs
    write_benefits_to write_blocks_fast write_transactions_fast write_outputs_fast write_inputs_fast
    lookup_block_hash
mock_contract now = record {
  view = tables_of;
  InTxn = IsOpen;
  blocks = λ rows.
      plain-Does Method.write_blocks (add_blocks rows) (λ t0. call-IsOpen t0 (Calls.blocks rows));
  blocks_fast = λ rows.
      fast-Does Method.write_blocks_fast (write_blocks rows) (add_blocks rows)
        (plain-Does Method.write_blocks (add_blocks rows)
          (λ t0. call-IsOpen t0 (Calls.blocks rows)))
        (λ t0. call-IsOpen t0 (Calls.blocks_fast rows));
  transactions = λ rows.
      plain-Does Method.write_transactions (add_transactions rows)
        (λ t0. call-IsOpen t0 (Calls.transactions rows));
  transactions_fast = λ rows.
      fast-Does Method.write_transactions_fast (write_transactions rows) (add_transactions rows)
        (plain-Does Method.write_transactions (add_transactions rows)
          (λ t0. call-IsOpen t0 (Calls.transactions rows)))
        (λ t0. call-IsOpen t0 (Calls.transactions_fast rows));
  outputs = λ rows.
      plain-Does Method.write_outputs (add_outputs rows)
        (λ t0. call-IsOpen t0 (Calls.outputs rows));
  outputs_fast = λ rows.
      fast-Does Method.write_outputs_fast (write_outputs rows) (add_outputs rows)
        (plain-Does Method.write_outputs (add_outputs rows)
          (λ t0. call-IsOpen t0 (Calls.outputs rows)))
        (λ t0. call-IsOpen t0 (Calls.outputs_fast rows));
  has_output = has_output-Does;
  has_output_fast = has_output-Does;
  inputs = λ rows.
      plain-Does Method.write_inputs (add_inputs rows) (λ t0. call-IsOpen t0 (Calls.inputs rows));
  inputs_fast = λ rows.
      fast-Does Method.write_inputs_fast (write_inputs rows) (add_inputs rows)
        (plain-Does Method.write_inputs (add_inputs rows)
          (λ t0. call-IsOpen t0 (Calls.inputs rows)))
        (λ t0. call-IsOpen t0 (Calls.inputs_fast rows));
  performs = λ rows.
      plain-Does Method.write_performs (add_performs rows)
        (λ t0. call-IsOpen t0 (Calls.performs rows));
  benefits_to = λ rows.
      plain-Does Method.write_benefits_to (add_benefits_to rows)
        (λ t0. call-IsOpen t0 (Calls.benefits_to rows));
  checkpoint = update_checkpoint-Does;
  look_up = lookup_outputs_batch-tables;
  block_hash = λ height s. refl;
  begin_view = begin_transaction-tables;
  begin_ok = begin_transaction-IsOpen;
  commit_ok = commit_transaction-kept;
  commit_err = commit_transaction-restored;
  rollback_ok = rollback_transaction-IsOpen;
}

-- `MockWriter` fulfils the contract that the ingestion relies on, for its own tables. Each write of the
-- contract, plain or fast, appends its rows when it succeeds (the HAS_OUTPUT writes change no table),
-- and `update_checkpoint` sets the checkpoint; each of these, whether it succeeds or fails, keeps a
-- transaction open that is open. `lookup_outputs_batch` and `lookup_block_hash` change no table.
-- `begin_transaction` changes no table, and when it succeeds a transaction is open that began on them.
-- A commit that succeeds changes no table; a commit that fails, and a rollback that succeeds, bring
-- back the tables on which the open transaction began.
pub mock_writer-Contract :
    (now : ℤ) → (C : Contract (mock_writer now)) × ((s : MockStorage) → C.view s ≡ s.tables)
unfolding mock_contract
mock_writer-Contract now = (mock_contract now, λ s. refl)
