-- ===== src/Writer/Mock/Writes.antt =====
-- The configured failures of `MockWriter` and its writes (src/writer/mock.rs).
use bitcoin_chain_graph.Common.{
  ◌+◌, ◌-◌, ◌%◌, ◌^◌, true, List, ◌++◌, Option, none, some, ltb, if◌then◌else◌,
}
use bitcoin_chain_graph.Common.Result.{ok, err}
use bitcoin_chain_graph.Common.Exec.{Exec, ◌>>◌}
use bitcoin_chain_graph.Writer.Error.{WriterError}
use bitcoin_chain_graph.Writer.Data.{
  BlockData, TransactionData, OutputData, InputData, PerformsData, BenefitsToData,
}
use bitcoin_chain_graph.Writer.Mock.{Method, Tables, MockStorage, method_insert}

-- `HashMap::get_mut` of the third map.
unfoldable pub check_after : Method → MockStorage → MockStorage × Option WriterError
unfolding method_insert
check_after m s = elim (s.failure_after_n m) [
  | none ↦ (s, none)
  | some f ↦
      let count = (f.count + 1) % 2 ^ 32 in
      (
        record s {
          failure_after_n = method_insert m (record f { count = count }) s.failure_after_n;
        },
        if ltb f.threshold count then some f.error else none,
      )
]

unfoldable pub check_transient : Method → MockStorage → MockStorage × Option WriterError
unfolding check_after method_insert
check_transient m s = elim (s.transient_failures m) [
  | none ↦ check_after m s
  | some e ↦
      if ltb 0 e.1
      then (
        record s { transient_failures = method_insert m (e.0, e.1 - 1) s.transient_failures },
        some e.0,
      )
      else check_after m s
]

unfoldable pub check_failure : Method → MockStorage → MockStorage × Option WriterError
unfolding check_transient
check_failure m s = elim (s.failures m) [ none ↦ check_transient m s | some e ↦ (s, some e) ]

-- A method that returns the configured failure, and else does its work.
unfoldable pub guarded : Method → (MockStorage → MockStorage) → Exec MockStorage WriterError Unit
guarded m work s =
    let (s', failure) = check_failure m s in
    elim failure [ none ↦ (work s', ok tt) | some e ↦ (s', err e) ]

abbrev pub on_tables : (Tables → Tables) → MockStorage → MockStorage
on_tables f s = record s { tables = f s.tables }

unfoldable pub write_blocks : List BlockData → Exec MockStorage WriterError Unit
unfolding guarded
write_blocks rows =
    guarded Method.write_blocks (on_tables (λ t. record t { blocks = t.blocks ++ rows }))

unfoldable pub write_transactions : List TransactionData → Exec MockStorage WriterError Unit
unfolding guarded
write_transactions rows =
    guarded Method.write_transactions
      (on_tables (λ t. record t { transactions = t.transactions ++ rows }))

unfoldable pub write_outputs : List OutputData → Exec MockStorage WriterError Unit
unfolding guarded
write_outputs rows =
    guarded Method.write_outputs (on_tables (λ t. record t { outputs = t.outputs ++ rows }))

unfoldable pub write_has_output_relationships : List OutputData → Exec MockStorage WriterError Unit
write_has_output_relationships rows s = (s, ok tt)

-- The loop over the spent outputs looks them up and changes nothing.
unfoldable pub write_inputs : List InputData → Exec MockStorage WriterError Unit
unfolding guarded
write_inputs rows =
    guarded Method.write_inputs (on_tables (λ t. record t { inputs = t.inputs ++ rows }))

unfoldable pub write_performs : List PerformsData → Exec MockStorage WriterError Unit
unfolding guarded
write_performs rows =
    guarded Method.write_performs (on_tables (λ t. record t { performs = t.performs ++ rows }))

unfoldable pub write_benefits_to : List BenefitsToData → Exec MockStorage WriterError Unit
unfolding guarded
write_benefits_to rows =
    guarded Method.write_benefits_to
      (on_tables (λ t. record t { benefits_to = t.benefits_to ++ rows }))

unfoldable pub write_blocks_fast : List BlockData → Exec MockStorage WriterError Unit
unfolding guarded write_blocks
write_blocks_fast rows = guarded Method.write_blocks_fast (λ s. s) >> write_blocks rows

unfoldable pub write_transactions_fast : List TransactionData → Exec MockStorage WriterError Unit
unfolding guarded write_transactions
write_transactions_fast rows =
    guarded Method.write_transactions_fast (λ s. s) >> write_transactions rows

unfoldable pub write_outputs_fast : List OutputData → Exec MockStorage WriterError Unit
unfolding guarded write_outputs
write_outputs_fast rows = guarded Method.write_outputs_fast (λ s. s) >> write_outputs rows

unfoldable pub write_inputs_fast : List InputData → Exec MockStorage WriterError Unit
unfolding guarded write_inputs
write_inputs_fast rows = guarded Method.write_inputs_fast (λ s. s) >> write_inputs rows

unfoldable pub init_schema : Exec MockStorage WriterError Unit
init_schema s = (record s { schema_initialized = true }, ok tt)
