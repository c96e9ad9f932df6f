-- ===== src/Ingestion/Buckets/Schedule.antt =====
-- The bucket tasks under any schedule of their calls (src/domain/ingestion.rs, phase 6 of
-- `process_batch_chunk`).
use bitcoin_chain_graph.Common.{
  ℕ, zero, suc, ◌≡◌, refl, sym, ap, ◌∙◌, inl, inr, List, [], ◌∷◌, Option, some, get_elem?, set,
  total, get_elem?-set_self, get_elem?-set_ne, get_elem?-some-lt, ℕ_discrete, Option-cases, arith,
}
use bitcoin_chain_graph.Common.Result.{ok, err-ok, Result-cases}
use bitcoin_chain_graph.Writer.Error.{WriterError}
use bitcoin_chain_graph.Writer.Data.{PerformsData, BenefitsToData}
use bitcoin_chain_graph.Writer.Mock.{Tables}
use bitcoin_chain_graph.Writer.Graph.{GraphWriter}
use bitcoin_chain_graph.Writer.Contract.{Contract}
use bitcoin_chain_graph.Ingestion.Buckets.{
  Task, running, failed, write_bucket, task_step, run_schedule, await_task, await_all, run_tasks,
}
use bitcoin_chain_graph.Ingestion.Buckets.Written.{
  task_weight, total-set, Grows, Grows-trans, write_weight, write_bucket-Grows, await_all-Grows,
}

-- Some task has failed.
abbrev HasFailed : List Task → Type 0
HasFailed tasks = (i : ℕ) × (e : WriterError) × (get_elem? tasks i ≡ some (failed e))

some-inj : (t t' : Task) → Path (Option Task) (some t) (some t') → t ≡ t'
some-inj t t' h = cc

module _ (W : GraphWriter) where
  await_all-HasFailed :
      (tasks : List Task) (db : W.Db) (a : Unit {0})
      → HasFailed tasks
      → (await_all W tasks db).2 ≡ ok a
      → ⊥
  unfolding await_all await_task
  await_all-HasFailed [] db a (i, e, at) h = cc
  await_all-HasFailed (t ∷ tasks) db a (zero, e, at) h =
      err-ok e a (rw (some-inj t (failed e) at, await_all, await_task) at h)
  await_all-HasFailed (t ∷ tasks) db a (suc i, e, at) h =
      elim (Result-cases (await_task W t db).1) [
        | inl (b, good) ↦
            await_all-HasFailed tasks (await_task W t db).0 a (i, e, at) (rw (good, await_all) at h)
        | inr (f, bad) ↦ err-ok f a (rw (bad, await_all) at h)
      ]

  -- A task that has failed stays so.
  step-HasFailed :
      (tasks : List Task) (j : ℕ) (t : Task) (db : W.Db)
      → get_elem? tasks j ≡ some t
      → HasFailed tasks
      → HasFailed (set tasks j (task_step W t db).1)
  unfolding task_step
  step-HasFailed tasks j t db found (i, e, at) = elim (ℕ_discrete j i) [
    | no other ↦ (i, e, get_elem?-set_ne tasks j i (task_step W t db).1 other ∙ at)
    | yes same ↦
        let is : t ≡ failed e =
          some-inj t (failed e) (sym found ∙ ap (get_elem? tasks) same ∙ at) in
        (
          j,
          e,
          get_elem?-set_self tasks j (task_step W t db).1 (get_elem?-some-lt tasks j t found)
              ∙ rw (is, task_step) refl,
        )
  ]

  run_tasks-HasFailed :
      (schedule : List ℕ) (tasks : List Task) (db : W.Db) (a : Unit {0})
      → HasFailed tasks
      → (run_tasks W schedule tasks db).2 ≡ ok a
      → ⊥
  unfolding run_tasks run_schedule
  run_tasks-HasFailed [] tasks db a bad h = await_all-HasFailed tasks db a bad h
  run_tasks-HasFailed (j ∷ schedule) tasks db a bad h = elim (Option-cases (get_elem? tasks j)) [
    | inl out ↦ run_tasks-HasFailed schedule tasks db a bad (rw (out, run_tasks, run_schedule) at h)
    | inr (t, found) ↦
        run_tasks-HasFailed schedule (set tasks j (task_step W t db).1) (task_step W t db).0 a
          (step-HasFailed tasks j t db found bad) (rw (found, run_tasks, run_schedule) at h)
  ]

  module _ (wp : PerformsData → ℕ) (wb : BenefitsToData → ℕ) (C : Contract W) where
    open C use {view}

    -- A step that leaves no task failed writes what it takes from the tasks.
    step-Grows :
        (tasks : List Task) (j : ℕ) (t : Task) (db : W.Db) (end : Tables)
        → get_elem? tasks j ≡ some t
        → let tasks1 = set tasks j (task_step W t db).1 in
          (HasFailed tasks1 → ⊥)
          → Grows wp wb (total (task_weight wp wb) tasks1) (view (task_step W t db).0) end
          → Grows wp wb (total (task_weight wp wb) tasks) (view db) end
    unfolding task_step task_weight
    step-Grows tasks j (running []) db end found fine rest =
        let weight = total-set wp wb tasks j (running []) (running []) found in
        Grows-trans wp wb 0 (total (task_weight wp wb) (set tasks j (running [])))
          (total (task_weight wp wb) tasks) (view db) (view db) end (omega (arith, weight))
          (refl, omega arith) rest
    step-Grows tasks j (failed e) db end found fine rest = absurd (
        fine (
          j,
          e,
          get_elem?-set_self tasks j (failed e) (get_elem?-some-lt tasks j (failed e) found),
        ))
    step-Grows tasks j (running (w ∷ todo)) db end found fine rest =
        elim (Result-cases (write_bucket W w db).1) [
          | inr (f, bad) ↦ absurd (
              fine (
                j,
                f,
                get_elem?-set_self tasks j (task_step W (running (w ∷ todo)) db).1
                      (get_elem?-some-lt tasks j (running (w ∷ todo)) found)
                    ∙ rw (bad, task_step) refl,
              ))
          | inl (b, good) ↦
              let weight = total-set wp wb tasks j (running (w ∷ todo)) (running todo) found in
              let now = write_bucket-Grows wp wb W C w db b good in
              let rest' : Grows wp wb (total (task_weight wp wb) (set tasks j (running todo)))
                  (view (write_bucket W w db).0) end =
                rw (good, task_step) at rest in
              Grows-trans wp wb (write_weight wp wb w)
                (total (task_weight wp wb) (set tasks j (running todo)))
                (total (task_weight wp wb) tasks) (view db) (view (write_bucket W w db).0) end
                (omega (arith, weight)) now rest'
        ]

    -- Under any schedule: when all tasks succeed, the rows of all of them have been written, whatever
    -- weight one counts them with, and the other tables are as before.
    pub run_tasks-Grows :
        (schedule : List ℕ) (tasks : List Task) (db : W.Db) (a : Unit {0})
        → (run_tasks W schedule tasks db).2 ≡ ok a
        → Grows wp wb
            (total (task_weight wp wb) tasks)
            (view db)
            (view (run_tasks W schedule tasks db).0)
    unfolding run_tasks run_schedule
    run_tasks-Grows [] tasks db a h = await_all-Grows wp wb W C tasks db a h
    run_tasks-Grows (j ∷ schedule) tasks db a h = elim (Option-cases (get_elem? tasks j)) [
      | inl out ↦
          rw (out, run_tasks, run_schedule)
            (run_tasks-Grows schedule tasks db a (rw (out, run_tasks, run_schedule) at h))
      | inr (t, found) ↦
          let db1 = (task_step W t db).0 in
          let tasks1 = set tasks j (task_step W t db).1 in
          let h' : (run_tasks W schedule tasks1 db1).2 ≡ ok a =
            rw (found, run_tasks, run_schedule) at h in
          rw (found, run_tasks, run_schedule)
            (step-Grows tasks j t db (view (run_tasks W schedule tasks1 db1).0) found
              (λ bad. run_tasks-HasFailed schedule tasks1 db1 a bad h')
              (run_tasks-Grows schedule tasks1 db1 a h'))
    ]
