-- ===== src/Ingestion/Buckets/Kept.antt =====
-- The bucket tasks (src/domain/ingestion.rs, phase 6 of `process_batch_chunk`) inside the transaction
-- of their chunk.
use bitcoin_chain_graph.Common.{ℕ, inl, inr, List, [], ◌∷◌, get_elem?, set, Option-cases}
use bitcoin_chain_graph.Common.Result.{Result-cases}
use bitcoin_chain_graph.Common.Exec.{bind-state}
use bitcoin_chain_graph.Writer.Mock.{Tables}
use bitcoin_chain_graph.Writer.Graph.{GraphWriter}
use bitcoin_chain_graph.Writer.Contract.{Contract}
use bitcoin_chain_graph.Ingestion.Buckets.{
  BucketWrite, write_performs, write_benefits_to, Task, running, failed, write_bucket, task_step,
  run_schedule, finish, await_task, await_all, run_tasks,
}

module _ (W : GraphWriter) (C : Contract W) (t0 : Tables) where
  open C use {InTxn}

  write_bucket-InTxn :
      (w : BucketWrite) (db : W.Db) → InTxn t0 db → InTxn t0 (write_bucket W w db).0
  unfolding write_bucket
  write_bucket-InTxn (write_performs rows) db h = (C.performs rows).keeps t0 db h
  write_bucket-InTxn (write_benefits_to rows) db h = (C.benefits_to rows).keeps t0 db h

  task_step-InTxn : (t : Task) (db : W.Db) → InTxn t0 db → InTxn t0 (task_step W t db).0
  unfolding task_step
  task_step-InTxn (running []) db h = h
  task_step-InTxn (running (w ∷ todo)) db h = write_bucket-InTxn w db h
  task_step-InTxn (failed e) db h = h

  run_schedule-InTxn :
      (schedule : List ℕ) (tasks : List Task) (db : W.Db)
      → InTxn t0 db
      → InTxn t0 (run_schedule W schedule tasks db).0
  unfolding run_schedule
  run_schedule-InTxn [] tasks db h = h
  run_schedule-InTxn (i ∷ schedule) tasks db h = elim (Option-cases (get_elem? tasks i)) [
    | inl out ↦ rw (out, run_schedule) (run_schedule-InTxn schedule tasks db h)
    | inr (t, at) ↦
        rw (at, run_schedule)
          (run_schedule-InTxn schedule (set tasks i (task_step W t db).1) (task_step W t db).0
            (task_step-InTxn t db h))
  ]

  finish-InTxn : (todo : List BucketWrite) (db : W.Db) → InTxn t0 db → InTxn t0 (finish W todo db).0
  unfolding finish
  finish-InTxn [] db h = h
  finish-InTxn (w ∷ todo) db h =
      bind-state (InTxn t0) (write_bucket W w) (λ a. finish W todo) db (write_bucket-InTxn w db h)
        (λ a e. finish-InTxn todo (write_bucket W w db).0 (write_bucket-InTxn w db h))

  await_task-InTxn : (t : Task) (db : W.Db) → InTxn t0 db → InTxn t0 (await_task W t db).0
  unfolding await_task
  await_task-InTxn (running todo) db h = finish-InTxn todo db h
  await_task-InTxn (failed e) db h = h

  await_all-InTxn :
      (tasks : List Task) (db : W.Db) → InTxn t0 db → InTxn t0 (await_all W tasks db).0
  unfolding await_all
  await_all-InTxn [] db h = h
  await_all-InTxn (t ∷ tasks) db h =
      let first = await_task-InTxn t db h in
      elim (Result-cases (await_task W t db).1) [
        | inl (a, e) ↦ rw (e, await_all) (await_all-InTxn tasks (await_task W t db).0 first)
        | inr (f, e) ↦ rw (e, await_all) first
      ]

  -- Whatever the schedule and whichever tasks fail, they keep the transaction open.
  pub run_tasks-InTxn :
      (schedule : List ℕ) (tasks : List Task) (db : W.Db)
      → InTxn t0 db
      → InTxn t0 (run_tasks W schedule tasks db).0
  unfolding run_tasks
  run_tasks-InTxn schedule tasks db h =
      await_all-InTxn (run_schedule W schedule tasks db).1 (run_schedule W schedule tasks db).0
        (run_schedule-InTxn schedule tasks db h)
