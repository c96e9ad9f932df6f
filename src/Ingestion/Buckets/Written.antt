-- ===== src/Ingestion/Buckets/Written.antt =====
-- What the bucket tasks (src/domain/ingestion.rs, phase 6 of `process_batch_chunk`) have written when
-- all of them have succeeded.
use bitcoin_chain_graph.Common.{
  ℕ, zero, suc, ◌+◌, ◌≡◌, refl, sym, ap, ◌∙◌, inl, inr, List, [], ◌∷◌, Option, some, get_elem?, set,
  total, total-append, arith,
}
use bitcoin_chain_graph.Common.Result.{ok, err-ok, Result-cases}
use bitcoin_chain_graph.Common.Exec.{bind-result}
use mathlib.Core.Path.{subst}
use bitcoin_chain_graph.Writer.Data.{
  BlockData, TransactionData, OutputData, InputData, CheckpointData, PerformsData, BenefitsToData,
}
use bitcoin_chain_graph.Writer.Mock.{Tables}
use bitcoin_chain_graph.Writer.Graph.{GraphWriter}
use bitcoin_chain_graph.Writer.Contract.{Contract}
use bitcoin_chain_graph.Ingestion.Buckets.{
  BucketWrite, write_performs, write_benefits_to, Task, running, failed, write_bucket, finish,
  await_task, await_all,
}

-- The tables that the tasks do not write.
abbrev pub Rest : Type 0
Rest =
    List BlockData × List TransactionData × List OutputData × List InputData × Option CheckpointData

abbrev pub rest_of : Tables → Rest
rest_of t = (t.blocks, t.transactions, t.outputs, t.inputs, t.checkpoint)

module _ (wp : PerformsData → ℕ) (wb : BenefitsToData → ℕ) where
  -- The weight of rows of either kind, for a weight on each.
  abbrev pub tables_weight : Tables → ℕ
  tables_weight t = total wp t.performs + total wb t.benefits_to

  unfoldable pub write_weight : BucketWrite → ℕ
  write_weight (write_performs rows) = total wp rows
  write_weight (write_benefits_to rows) = total wb rows

  abbrev pub todo_weight : List BucketWrite → ℕ
  todo_weight todo = total write_weight todo

  unfoldable pub task_weight : Task → ℕ
  unfolding write_weight
  task_weight (running todo) = total write_weight todo
  task_weight (failed e) = 0

  pub total-set :
      (tasks : List Task) (i : ℕ) (t t' : Task)
      → get_elem? tasks i ≡ some t
      → total task_weight (set tasks i t') + task_weight t
        ≡ total task_weight tasks + task_weight t'
  total-set [] i t t' h = cc
  total-set (x ∷ tasks) zero t t' h = let same : x ≡ t = ground arith in rw same (omega arith)
  total-set (x ∷ tasks) (suc i) t t' h = omega (arith, total-set tasks i t t' h)

  -- The rest of the tables is kept, and the weight grows by `n`.
  abbrev pub Grows : ℕ → Tables → Tables → Type 0
  Grows n t t' = (rest_of t' ≡ rest_of t) × (tables_weight t' ≡ tables_weight t + n)

  pub Grows-trans :
      (a b n : ℕ) (t t1 t2 : Tables) → a + b ≡ n → Grows a t t1 → Grows b t1 t2 → Grows n t t2
  Grows-trans a b n t t1 t2 e g h = (h.0 ∙ g.0, omega (arith, g.1, h.1))

  module _ (W : GraphWriter) (C : Contract W) where
    open C use {view}

    pub write_bucket-Grows :
        (w : BucketWrite) (db : W.Db) (a : Unit {0})
        → (write_bucket W w db).1 ≡ ok a
        → Grows (write_weight w) (view db) (view (write_bucket W w db).0)
    unfolding write_bucket write_weight
    write_bucket-Grows (write_performs rows) db a h =
        let done = (C.performs rows).done db a h in
        (
          ap rest_of done,
          ap tables_weight done ∙ omega (arith, total-append wp (view db).performs rows),
        )
    write_bucket-Grows (write_benefits_to rows) db a h =
        let done = (C.benefits_to rows).done db a h in
        (
          ap rest_of done,
          ap tables_weight done ∙ omega (arith, total-append wb (view db).benefits_to rows),
        )

    finish-Grows :
        (todo : List BucketWrite) (db : W.Db) (a : Unit {0})
        → (finish W todo db).1 ≡ ok a
        → Grows (todo_weight todo) (view db) (view (finish W todo db).0)
    unfolding finish
    finish-Grows [] db a h = (refl, omega arith)
    finish-Grows (w ∷ todo) db a h =
        let (b, written, finished, at) =
          bind-result (write_bucket W w) (λ x. finish W todo) db a h in
        let db1 = (write_bucket W w db).0 in
        subst (λ db'. Grows (todo_weight (w ∷ todo)) (view db) (view db')) (sym at)
          (Grows-trans (write_weight w) (todo_weight todo) (todo_weight (w ∷ todo)) (view db)
            (view db1) (view (finish W todo db1).0) refl (write_bucket-Grows w db b written)
            (finish-Grows todo db1 a finished))

    await_task-Grows :
        (t : Task) (db : W.Db) (a : Unit {0})
        → (await_task W t db).1 ≡ ok a
        → Grows (task_weight t) (view db) (view (await_task W t db).0)
    unfolding await_task task_weight
    await_task-Grows (running todo) db a h = finish-Grows todo db a h
    await_task-Grows (failed e) db a h = absurd (err-ok e a h)

    pub await_all-Grows :
        (tasks : List Task) (db : W.Db) (a : Unit {0})
        → (await_all W tasks db).2 ≡ ok a
        → Grows (total task_weight tasks) (view db) (view (await_all W tasks db).0)
    unfolding await_all
    await_all-Grows [] db a h = (refl, omega arith)
    await_all-Grows (t ∷ tasks) db a h = elim (Result-cases (await_task W t db).1) [
      | inr (f, e) ↦ absurd (err-ok f a (rw (e, await_all) at h))
      | inl (b, e) ↦
          let db1 = (await_task W t db).0 in
          rw (e, await_all)
            (Grows-trans (task_weight t) (total task_weight tasks)
              (task_weight t + total task_weight tasks) (view db) (view db1)
              (view (await_all W tasks db1).0) refl (await_task-Grows t db b e)
              (await_all-Grows tasks db1 a (rw (e, await_all) at h)))
    ]
