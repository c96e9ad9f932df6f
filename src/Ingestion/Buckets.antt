-- ===== src/Ingestion/Buckets.antt =====
-- The tasks of a chunk that write the relations of addresses (src/domain/ingestion.rs, phase 6 of
-- `process_batch_chunk`): the rows go to buckets by the hash of their address, and each bucket has a
-- task of its own. A schedule says which task makes the next call. Then the tasks are awaited in
-- order, up to the first that fails.
pub mod Partition
pub mod Kept
pub mod Written
pub mod Schedule
use bitcoin_chain_graph.Common.{
  ℕ, ◌%◌, List, [], ◌∷◌, ◌++◌, Option, none, some, get_or, get_elem?, set, replicate,
}
use bitcoin_chain_graph.Common.Result.{Result, ok, err}
use bitcoin_chain_graph.Common.Exec.{Exec, ◌>>◌, return}
use bitcoin_chain_graph.Writer.Error.{WriterError}
use bitcoin_chain_graph.Writer.Data.{Text, PerformsData, BenefitsToData}
use bitcoin_chain_graph.Writer.Graph.{GraphWriter}

-- The loop over the rows, by the address of a row: `buckets[bucket_idx].push(item.clone())`.
unfoldable pub partition_loop {ℓ} :
    {A : Type ℓ} → (Text → ℕ) → (A → Text) → ℕ → List A → List (List A) → List (List A)
partition_loop string_hash address num_buckets [] buckets = buckets
partition_loop string_hash address num_buckets (item ∷ items) buckets =
    let bucket_idx = string_hash (address item) % num_buckets in
    partition_loop string_hash address num_buckets items
      (set buckets bucket_idx (get_or buckets bucket_idx [] ++ item ∷ []))

unfoldable pub partition_performs_by_address :
    (Text → ℕ) → List PerformsData → ℕ → List (List PerformsData)
unfolding partition_loop
partition_performs_by_address string_hash performs num_buckets =
    partition_loop string_hash (λ p. p.from_address) num_buckets performs (replicate num_buckets [])

unfoldable pub partition_benefits_by_address :
    (Text → ℕ) → List BenefitsToData → ℕ → List (List BenefitsToData)
unfolding partition_loop
partition_benefits_by_address string_hash benefits num_buckets =
    partition_loop string_hash (λ b. b.to_address) num_buckets benefits (replicate num_buckets [])

pub data BucketWrite : Type 0 where
  write_performs : List PerformsData → BucketWrite
  write_benefits_to : List BenefitsToData → BucketWrite

-- A task with the calls that it has still to make, or the error that ended it.
pub data Task : Type 0 where
  running : List BucketWrite → Task
  failed : WriterError → Task

-- `if !performs.is_empty()`.
unfoldable pub performs_writes : List PerformsData → List BucketWrite
performs_writes [] = []
performs_writes (p ∷ ps) = write_performs (p ∷ ps) ∷ []

unfoldable pub benefits_writes : List BenefitsToData → List BucketWrite
benefits_writes [] = []
benefits_writes (b ∷ bs) = write_benefits_to (b ∷ bs) ∷ []

unfoldable pub bucket_task : List PerformsData → List BenefitsToData → Task
unfolding performs_writes benefits_writes
bucket_task performs benefits = running (performs_writes performs ++ benefits_writes benefits)

-- `for bucket_idx in 0..NUM_BUCKETS`: there are as many buckets of either kind.
unfoldable pub spawn_tasks : List (List PerformsData) → List (List BenefitsToData) → List Task
unfolding bucket_task
spawn_tasks [] buckets = []
spawn_tasks (performs ∷ rest) [] = []
spawn_tasks (performs ∷ rest) (benefits ∷ buckets) =
    bucket_task performs benefits ∷ spawn_tasks rest buckets

module _ (W : GraphWriter) where
  open W use {Db}

  unfoldable pub write_bucket : BucketWrite → Exec Db WriterError Unit
  write_bucket (write_performs rows) = W.write_performs rows
  write_bucket (write_benefits_to rows) = W.write_benefits_to rows

  abbrev pub after_write : List BucketWrite → Result WriterError (Unit {0}) → Task
  after_write todo (ok _) = running todo
  after_write todo (err e) = failed e

  -- The next call of a task, if there is one.
  unfoldable pub task_step : Task → Db → Db × Task
  unfolding write_bucket
  task_step (running []) db = (db, running [])
  task_step (running (w ∷ todo)) db =
      let (db', result) = write_bucket w db in (db', after_write todo result)
  task_step (failed e) db = (db, failed e)

  unfoldable pub run_schedule : List ℕ → List Task → Db → Db × List Task
  unfolding task_step
  run_schedule [] tasks db = (db, tasks)
  run_schedule (i ∷ schedule) tasks db = elim (get_elem? tasks i) [
    | none ↦ run_schedule schedule tasks db
    | some t ↦ let (db', t') = task_step t db in run_schedule schedule (set tasks i t') db'
  ]

  -- The calls up to the end of a task.
  unfoldable pub finish : List BucketWrite → Exec Db WriterError Unit
  unfolding write_bucket
  finish [] = return tt
  finish (w ∷ todo) = write_bucket w >> finish todo

  unfoldable pub await_task : Task → Exec Db WriterError Unit
  unfolding finish
  await_task (running todo) = finish todo
  await_task (failed e) = λ db. (db, err e)

  -- `task.await??` in order. The tasks after one that fails are not awaited.
  unfoldable pub await_all : List Task → Db → Db × List Task × Result WriterError (Unit {0})
  unfolding await_task
  await_all [] db = (db, [], ok tt)
  await_all (t ∷ tasks) db =
      let (db', result) = await_task t db in
      elim result [ ok _ ↦ await_all tasks db' | err e ↦ (db', tasks, err e) ]

  unfoldable pub run_tasks :
      List ℕ → List Task → Db → Db × List Task × Result WriterError (Unit {0})
  unfolding run_schedule await_all
  run_tasks schedule tasks db =
      let (db', tasks') = run_schedule schedule tasks db in await_all tasks' db'
