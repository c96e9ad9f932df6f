-- ===== src/Writer/Mock/Grow.antt =====
-- The calls inside an open transaction of `MockWriter` (src/writer/mock.rs).
use bitcoin_chain_graph.Common.{inl, inr, List, ◌++◌, Option-cases}
use bitcoin_chain_graph.Writer.Data.{
  Text, BlockData, TransactionData, OutputData, InputData, CheckpointData, PerformsData,
  BenefitsToData,
}
use bitcoin_chain_graph.Writer.Mock.{Method, Tables, MockStorage}
use bitcoin_chain_graph.Writer.Mock.Writes.{
  check_failure, on_tables, write_blocks, write_transactions, write_outputs, write_inputs,
  write_performs, write_benefits_to, write_blocks_fast, write_transactions_fast, write_outputs_fast,
  write_inputs_fast,
}
use bitcoin_chain_graph.Writer.Mock.Queries.{
  store_checkpoint, update_checkpoint, lookup_outputs_batch,
}
use bitcoin_chain_graph.Writer.Mock.Calls.{
  Call, blocks, blocks_fast, transactions, transactions_fast, outputs, outputs_fast, inputs,
  inputs_fast, performs, benefits_to, checkpoint, look_up, call,
}
use bitcoin_chain_graph.Writer.Mock.Open.{
  Extends-append, IsOpen, check_failure-Same, Open-Same, guarded-IsOpen, fast-IsOpen,
}

write_blocks-IsOpen :
    (t0 : Tables) (rows : List BlockData) (s : MockStorage)
    → IsOpen t0 s
    → IsOpen t0 (write_blocks rows s).0
unfolding write_blocks
write_blocks-IsOpen t0 rows s h =
    guarded-IsOpen t0 Method.write_blocks (on_tables (λ t. record t { blocks = t.blocks ++ rows }))
      s
      (λ s' g. record {
        saved = g.saved;
        blocks_grow = Extends-append t0.blocks s'.tables.blocks rows g.blocks_grow;
        transactions_grow = g.transactions_grow;
        outputs_grow = g.outputs_grow;
        inputs_grow = g.inputs_grow;
        performs_grow = g.performs_grow;
        benefits_to_grow = g.benefits_to_grow;
      })
      h

write_transactions-IsOpen :
    (t0 : Tables) (rows : List TransactionData) (s : MockStorage)
    → IsOpen t0 s
    → IsOpen t0 (write_transactions rows s).0
unfolding write_transactions
write_transactions-IsOpen t0 rows s h =
    guarded-IsOpen t0 Method.write_transactions
      (on_tables (λ t. record t { transactions = t.transactions ++ rows })) s
      (λ s' g. record {
        saved = g.saved;
        blocks_grow = g.blocks_grow;
        transactions_grow =
            Extends-append t0.transactions s'.tables.transactions rows g.transactions_grow;
        outputs_grow = g.outputs_grow;
        inputs_grow = g.inputs_grow;
        performs_grow = g.performs_grow;
        benefits_to_grow = g.benefits_to_grow;
      })
      h

write_outputs-IsOpen :
    (t0 : Tables) (rows : List OutputData) (s : MockStorage)
    → IsOpen t0 s
    → IsOpen t0 (write_outputs rows s).0
unfolding write_outputs
write_outputs-IsOpen t0 rows s h =
    guarded-IsOpen t0 Method.write_outputs
      (on_tables (λ t. record t { outputs = t.outputs ++ rows })) s
      (λ s' g. record {
        saved = g.saved;
        blocks_grow = g.blocks_grow;
        transactions_grow = g.transactions_grow;
        outputs_grow = Extends-append t0.outputs s'.tables.outputs rows g.outputs_grow;
        inputs_grow = g.inputs_grow;
        performs_grow = g.performs_grow;
        benefits_to_grow = g.benefits_to_grow;
      })
      h

write_inputs-IsOpen :
    (t0 : Tables) (rows : List InputData) (s : MockStorage)
    → IsOpen t0 s
    → IsOpen t0 (write_inputs rows s).0
unfolding write_inputs
write_inputs-IsOpen t0 rows s h =
    guarded-IsOpen t0 Method.write_inputs (on_tables (λ t. record t { inputs = t.inputs ++ rows }))
      s
      (λ s' g. record {
        saved = g.saved;
        blocks_grow = g.blocks_grow;
        transactions_grow = g.transactions_grow;
        outputs_grow = g.outputs_grow;
        inputs_grow = Extends-append t0.inputs s'.tables.inputs rows g.inputs_grow;
        performs_grow = g.performs_grow;
        benefits_to_grow = g.benefits_to_grow;
      })
      h

write_performs-IsOpen :
    (t0 : Tables) (rows : List PerformsData) (s : MockStorage)
    → IsOpen t0 s
    → IsOpen t0 (write_performs rows s).0
unfolding write_performs
write_performs-IsOpen t0 rows s h =
    guarded-IsOpen t0 Method.write_performs
      (on_tables (λ t. record t { performs = t.performs ++ rows })) s
      (λ s' g. record {
        saved = g.saved;
        blocks_grow = g.blocks_grow;
        transactions_grow = g.transactions_grow;
        outputs_grow = g.outputs_grow;
        inputs_grow = g.inputs_grow;
        performs_grow = Extends-append t0.performs s'.tables.performs rows g.performs_grow;
        benefits_to_grow = g.benefits_to_grow;
      })
      h

write_benefits_to-IsOpen :
    (t0 : Tables) (rows : List BenefitsToData) (s : MockStorage)
    → IsOpen t0 s
    → IsOpen t0 (write_benefits_to rows s).0
unfolding write_benefits_to
write_benefits_to-IsOpen t0 rows s h =
    guarded-IsOpen t0 Method.write_benefits_to
      (on_tables (λ t. record t { benefits_to = t.benefits_to ++ rows })) s
      (λ s' g. record {
        saved = g.saved;
        blocks_grow = g.blocks_grow;
        transactions_grow = g.transactions_grow;
        outputs_grow = g.outputs_grow;
        inputs_grow = g.inputs_grow;
        performs_grow = g.performs_grow;
        benefits_to_grow =
            Extends-append t0.benefits_to s'.tables.benefits_to rows g.benefits_to_grow;
      })
      h

update_checkpoint-IsOpen :
    (t0 : Tables) (c : CheckpointData) (s : MockStorage)
    → IsOpen t0 s
    → IsOpen t0 (update_checkpoint c s).0
unfolding update_checkpoint store_checkpoint
update_checkpoint-IsOpen t0 c s h =
    guarded-IsOpen t0 Method.update_checkpoint (store_checkpoint c) s
      (λ s' g. record {
        saved = g.saved;
        blocks_grow = g.blocks_grow;
        transactions_grow = g.transactions_grow;
        outputs_grow = g.outputs_grow;
        inputs_grow = g.inputs_grow;
        performs_grow = g.performs_grow;
        benefits_to_grow = g.benefits_to_grow;
      })
      h

lookup_outputs_batch-IsOpen :
    (t0 : Tables) (ids : List Text) (s : MockStorage)
    → IsOpen t0 s
    → IsOpen t0 (lookup_outputs_batch ids s).0
unfolding lookup_outputs_batch
lookup_outputs_batch-IsOpen t0 ids s h =
    let after =
      Open-Same t0 s (check_failure Method.lookup_outputs_batch s).0
        (check_failure-Same Method.lookup_outputs_batch s) h in
    elim (Option-cases (check_failure Method.lookup_outputs_batch s).1) [
      | inl e ↦ rw (e, lookup_outputs_batch) after
      | inr (f, e) ↦ rw (e, lookup_outputs_batch) after
    ]

pub call-IsOpen : (t0 : Tables) (c : Call) (s : MockStorage) → IsOpen t0 s → IsOpen t0 (call c s)
unfolding call write_blocks_fast write_transactions_fast write_outputs_fast write_inputs_fast
call-IsOpen t0 (blocks rows) s h = write_blocks-IsOpen t0 rows s h
call-IsOpen t0 (blocks_fast rows) s h =
    fast-IsOpen t0 Method.write_blocks_fast (write_blocks rows) s
      (λ s' g. write_blocks-IsOpen t0 rows s' g) h
call-IsOpen t0 (transactions rows) s h = write_transactions-IsOpen t0 rows s h
call-IsOpen t0 (transactions_fast rows) s h =
    fast-IsOpen t0 Method.write_transactions_fast (write_transactions rows) s
      (λ s' g. write_transactions-IsOpen t0 rows s' g) h
call-IsOpen t0 (outputs rows) s h = write_outputs-IsOpen t0 rows s h
call-IsOpen t0 (outputs_fast rows) s h =
    fast-IsOpen t0 Method.write_outputs_fast (write_outputs rows) s
      (λ s' g. write_outputs-IsOpen t0 rows s' g) h
call-IsOpen t0 (inputs rows) s h = write_inputs-IsOpen t0 rows s h
call-IsOpen t0 (inputs_fast rows) s h =
    fast-IsOpen t0 Method.write_inputs_fast (write_inputs rows) s
      (λ s' g. write_inputs-IsOpen t0 rows s' g) h
call-IsOpen t0 (performs rows) s h = write_performs-IsOpen t0 rows s h
call-IsOpen t0 (benefits_to rows) s h = write_benefits_to-IsOpen t0 rows s h
call-IsOpen t0 (checkpoint c) s h = update_checkpoint-IsOpen t0 c s h
call-IsOpen t0 (look_up ids) s h = lookup_outputs_batch-IsOpen t0 ids s h
