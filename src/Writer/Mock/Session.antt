-- ===== src/Writer/Mock/Session.antt =====
-- The transactions of `MockWriter` (src/writer/mock.rs).
use bitcoin_chain_graph.Common.{◌+◌, ◌%◌, ◌^◌, true, false, [], ◌∷◌, ◌++◌, none, some, length, take}
use bitcoin_chain_graph.Common.Result.{ok, err}
use bitcoin_chain_graph.Common.Exec.{Exec}
use bitcoin_chain_graph.Writer.Error.{WriterError}
use bitcoin_chain_graph.Writer.Mock.{Method, Tables, MockSnapshot, MockStorage}
use bitcoin_chain_graph.Writer.Mock.Writes.{check_failure, guarded}

unfoldable pub begin_transaction : Exec MockStorage WriterError Unit
unfolding guarded
begin_transaction = guarded Method.begin_transaction (λ s. record s {
  call_log = s.call_log ++ Method.begin_transaction ∷ [];
  in_transaction = true;
  snapshot = some (record {
    blocks_len = length s.tables.blocks;
    transactions_len = length s.tables.transactions;
    outputs_len = length s.tables.outputs;
    inputs_len = length s.tables.inputs;
    performs_len = length s.tables.performs;
    benefits_to_len = length s.tables.benefits_to;
    snap_checkpoint = s.tables.checkpoint;
  });
})

-- `truncate` keeps a list that is shorter.
unfoldable pub restore : MockSnapshot → Tables → Tables
restore snap t = record {
  blocks = take snap.blocks_len t.blocks;
  transactions = take snap.transactions_len t.transactions;
  outputs = take snap.outputs_len t.outputs;
  inputs = take snap.inputs_len t.inputs;
  performs = take snap.performs_len t.performs;
  benefits_to = take snap.benefits_to_len t.benefits_to;
  checkpoint = snap.snap_checkpoint;
}

-- `snapshot.take()`, and `in_transaction = false`.
unfoldable pub restore_snapshot : MockStorage → MockStorage
unfolding restore
restore_snapshot s = elim s.snapshot [
  | none ↦ record s { in_transaction = false }
  | some snap ↦ record s { tables = restore snap s.tables; snapshot = none; in_transaction = false }
]

unfoldable pub commit_transaction : Exec MockStorage WriterError Unit
unfolding restore_snapshot
commit_transaction s =
    let (s', failure) =
      check_failure Method.commit_transaction
        (record s { call_log = s.call_log ++ Method.commit_transaction ∷ [] }) in
    elim failure [
      | some e ↦ (restore_snapshot s', err e)
      | none ↦ (
        record s' {
          in_transaction = false;
          snapshot = none;
          transaction_commit_count = (s'.transaction_commit_count + 1) % 2 ^ 32;
        },
        ok tt,
      )
    ]

unfoldable pub rollback_transaction : Exec MockStorage WriterError Unit
unfolding guarded restore_snapshot
rollback_transaction = guarded Method.rollback_transaction restore_snapshot
