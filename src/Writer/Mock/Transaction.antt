-- ===== src/Writer/Mock/Transaction.antt =====
-- The transactions of `MockWriter` (src/writer/mock.rs), from a begin to a rollback or a commit.
use bitcoin_chain_graph.Common.{◌≡◌, refl, ◌⊎◌, inl, inr, [], ◌∷◌, ◌++◌, Option-cases}
use bitcoin_chain_graph.Common.Result.{ok, err, err-ok}
use bitcoin_chain_graph.Writer.Error.{WriterError}
use bitcoin_chain_graph.Writer.Mock.{Method, Tables, MockStorage}
use bitcoin_chain_graph.Writer.Mock.Writes.{check_failure, guarded}
use bitcoin_chain_graph.Writer.Mock.Session.{
  begin_transaction, commit_transaction, rollback_transaction, restore, restore_snapshot,
}
use bitcoin_chain_graph.Writer.Mock.Open.{
  Extends-refl, take-Extends, IsOpen, check_failure-Same, Open-Same,
}

pub begin_transaction-IsOpen :
    (s : MockStorage) → (begin_transaction s).1 ≡ ok tt → IsOpen s.tables (begin_transaction s).0
unfolding begin_transaction guarded
begin_transaction-IsOpen s began =
    let same = (check_failure-Same Method.begin_transaction s).0 in
    elim (Option-cases (check_failure Method.begin_transaction s).1) [
      | inr (f, e) ↦ absurd (err-ok f tt (rw (guarded, e) at began))
      | inl e ↦
          rw (e, guarded, same)
            (record {
              saved = refl;
              blocks_grow = Extends-refl s.tables.blocks;
              transactions_grow = Extends-refl s.tables.transactions;
              outputs_grow = Extends-refl s.tables.outputs;
              inputs_grow = Extends-refl s.tables.inputs;
              performs_grow = Extends-refl s.tables.performs;
              benefits_to_grow = Extends-refl s.tables.benefits_to;
            })
    ]

pub restore_snapshot-IsOpen :
    (t0 : Tables) (s : MockStorage) → IsOpen t0 s → (restore_snapshot s).tables ≡ t0
unfolding restore_snapshot
restore_snapshot-IsOpen t0 s h = rw (
  h.saved,
  restore_snapshot,
  restore,
  take-Extends t0.blocks s.tables.blocks h.blocks_grow,
  take-Extends t0.transactions s.tables.transactions h.transactions_grow,
  take-Extends t0.outputs s.tables.outputs h.outputs_grow,
  take-Extends t0.inputs s.tables.inputs h.inputs_grow,
  take-Extends t0.performs s.tables.performs h.performs_grow,
  take-Extends t0.benefits_to s.tables.benefits_to h.benefits_to_grow,
)

-- A rollback that succeeds, in an open transaction.
pub rollback_transaction-IsOpen :
    (t0 : Tables) (t : MockStorage)
    → IsOpen t0 t
    → (rollback_transaction t).1 ≡ ok tt
    → (rollback_transaction t).0.tables ≡ t0
unfolding rollback_transaction guarded
rollback_transaction-IsOpen t0 t h undone =
    let m = Method.rollback_transaction in
    let opened = Open-Same t0 t (check_failure m t).0 (check_failure-Same m t) h in
    elim (Option-cases (check_failure m t).1) [
      | inr (f, e) ↦ absurd (err-ok f tt (rw (rollback_transaction, guarded, e) at undone))
      | inl e ↦ rw (e, guarded) (restore_snapshot-IsOpen t0 (check_failure m t).0 opened)
    ]

-- A commit in an open transaction keeps the tables when it succeeds, and restores them when it
-- fails.
pub commit_transaction-IsOpen :
    (t0 : Tables) (t : MockStorage)
    → IsOpen t0 t
    → (((commit_transaction t).1 ≡ ok tt) × ((commit_transaction t).0.tables ≡ t.tables))
      ⊎ ((e : WriterError) × ((commit_transaction t).1 ≡ err e)
          × ((commit_transaction t).0.tables ≡ t0))
unfolding commit_transaction
commit_transaction-IsOpen t0 t h =
    let t1 = record t { call_log = t.call_log ++ Method.commit_transaction ∷ [] } in
    let m = Method.commit_transaction in
    let same = check_failure-Same m t1 in
    let opened = Open-Same t0 t1 (check_failure m t1).0 same h in
    elim (Option-cases (check_failure m t1).1) [
      | inl e ↦ inl (rw (e, commit_transaction) refl, rw (e, commit_transaction) same.0)
      | inr (f, e) ↦ inr (
        f,
        rw (e, commit_transaction) refl,
        rw (e, commit_transaction) (restore_snapshot-IsOpen t0 (check_failure m t1).0 opened),
      )
    ]
