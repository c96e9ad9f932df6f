-- ===== src/Ingestion/Session/Committed.antt =====
-- The chunks that `ingest_blocks_batch` has committed (src/domain/ingestion.rs).
use bitcoin_chain_graph.Common.{ℕ, ◌≡◌, refl, sym, ap, ◌∙◌, inl, inr, List, [], ◌∷◌, ◌++◌}
use bitcoin_chain_graph.Common.Result.{Result, ok, err, Result-cases, err-ok}
use bitcoin_chain_graph.Common.Exec.{Exec, ◌>>=◌, ◌>>◌, bind-result, bind-failure}
use mathlib.Core.Path.{subst}
use bitcoin_chain_graph.Writer.Error.{WriterError}
use bitcoin_chain_graph.Writer.Mock.{Tables}
use bitcoin_chain_graph.Writer.Graph.{GraphWriter}
use bitcoin_chain_graph.Writer.Contract.{Contract}
use bitcoin_chain_graph.Utxo.Cache.{FoundMap}
use bitcoin_chain_graph.Ingestion.Chunks.{Range}
use bitcoin_chain_graph.Ingestion.Amounts.{slice, collect_input_keys}
use bitcoin_chain_graph.Ingestion.Orchestrator.{Orchestrator, State, on_db}
use bitcoin_chain_graph.Ingestion.Batch.{ChunkItem, totals, process_batch_chunk}
use bitcoin_chain_graph.Ingestion.Batch.Written.{Written, chunk_found, process_batch_chunk-Written}
use bitcoin_chain_graph.Ingestion.Session.{
  BatchStats, add_counts, validate_first, prefetch_keys, settle, transact, end_height, ingest_chunk,
  chunks_loop,
}
use bitcoin_chain_graph.Ingestion.Session.Atomic.{
  tables_in, Undone, ingest_chunk-Undone, validate_first-Reads, prefetch_keys-Reads,
  try_save_snapshot-db,
}

-- The tables after the chunks of some ranges, one after the other.
pub data Committed (O : Orchestrator) (blocks : List (ChunkItem O))
    : List Range → Tables → Tables → Type 0 where
  start : {t : Tables} → Committed O blocks [] t t
  next_chunk :
      {ranges : List Range} {t t1 t2 : Tables} (range : Range) (found : FoundMap)
      → Written O (slice range blocks) found t t1
      → Committed O blocks ranges t1 t2
      → Committed O blocks (range ∷ ranges) t t2

module _ (O : Orchestrator) (W : GraphWriter) (C : Contract W) where
  open C use {view}

  abbrev tables : State O W → Tables
  tables = tables_in O W C

  -- A transaction that succeeds was committed.
  settle-ok :
      {A : Type 0} (height : ℕ) (result : Result WriterError A) (s : State O W) (counts : A)
      → (settle O W height result s).1 ≡ ok counts
      → (result ≡ ok counts) × (tables (settle O W height result s).0 ≡ tables s)
  unfolding settle
  settle-ok height (err x) s counts h = absurd (err-ok x counts h)
  settle-ok height (ok counts') s counts h = elim (Result-cases (W.commit_transaction s.db).1) [
    | inr (f, failed) ↦ absurd (err-ok f counts (rw failed at h))
    | inl (a, committed) ↦ (
      rw committed at h,
      rw committed (
          try_save_snapshot-db O W C height (on_db O W W.commit_transaction s).0
          ∙ C.commit_ok s.db committed),
    )
  ]

  transact-Written :
      (chunk : List (ChunkItem O)) (found : FoundMap) (s : State O W) (counts : ℕ × ℕ × ℕ)
      → (transact O W chunk found s).1 ≡ ok counts
      → (counts ≡ totals O chunk)
        × Written O chunk
            (chunk_found O chunk found s.cache)
            (tables s)
            (tables (transact O W chunk found s).0)
  unfolding transact
  transact-Written chunk found s counts h =
      let (s', result) = process_batch_chunk O W chunk found s in
      let (good, same) = settle-ok (end_height O W chunk) result s' counts h in
      let (totals_, written, cached) =
        process_batch_chunk-Written O W C chunk found s counts good in
      (
        totals_,
        subst (Written O chunk (chunk_found O chunk found s.cache) (tables s)) (sym same) written,
      )

  -- A chunk that succeeds has been written and committed.
  ingest_chunk-Written :
      (chunk : List (ChunkItem O)) (s : State O W) (counts : ℕ × ℕ × ℕ)
      → (ingest_chunk O W chunk s).1 ≡ ok counts
      → (counts ≡ totals O chunk)
        × ((found : FoundMap) × Written O chunk found
              (tables s)
              (tables (ingest_chunk O W chunk s).0))
  unfolding ingest_chunk
  ingest_chunk-Written chunk s counts h =
      let m = validate_first O W chunk in
      let keys = collect_input_keys O.bitcoin chunk in
      let p = prefetch_keys O W keys in
      let b = on_db O W W.begin_transaction in
      let f : FoundMap → Exec (State O W) WriterError (ℕ × ℕ × ℕ) =
        λ found. b >> transact O W chunk found in
      let (a1, h1, r1, at1) = bind-result m (λ a. p >>= f) s counts h in
      let (found, h2, r2, at2) = bind-result p f (m s).0 counts r1 in
      let s2 = (p (m s).0).0 in
      let (a3, h3, r3, at3) = bind-result b (λ a. transact O W chunk found) s2 counts r2 in
      let s3 = (b s2).0 in
      let same : tables s3 ≡ tables s =
        C.begin_view s2.db
        ∙ prefetch_keys-Reads O W C keys (m s).0
        ∙ validate_first-Reads O W C chunk s in
      let (totals_, written) = transact-Written chunk found s3 counts r3 in
      let found' = chunk_found O chunk found s3.cache in
      (
        totals_,
        (
          found',
          subst (Written O chunk found' (tables s)) (ap tables (sym (at1 ∙ at2 ∙ at3))) (
              subst (λ t. Written O chunk found' t (tables (transact O W chunk found s3).0)) same
                written),
        ),
      )

  -- The chunks of a loop that succeeds are committed, all of them and in order.
  pub chunks_loop-Committed :
      (blocks : List (ChunkItem O)) (ranges : List Range) (stats stats' : BatchStats)
      (s : State O W)
      → (chunks_loop O W blocks ranges stats s).1 ≡ ok stats'
      → Committed O blocks ranges (tables s) (tables (chunks_loop O W blocks ranges stats s).0)
  unfolding chunks_loop
  chunks_loop-Committed blocks [] stats stats' s h = start
  chunks_loop-Committed blocks (range ∷ ranges) stats stats' s h =
      let m = ingest_chunk O W (slice range blocks) in
      let rest = λ (counts : ℕ × ℕ × ℕ). chunks_loop O W blocks ranges (add_counts counts stats) in
      let (counts, h1, r1, at) = bind-result m rest s stats' h in
      let (n, (found, written)) = ingest_chunk-Written (slice range blocks) s counts h1 in
      subst (Committed O blocks (range ∷ ranges) (tables s)) (ap tables (sym at)) (
        next_chunk range found written
          (chunks_loop-Committed blocks ranges (add_counts counts stats) stats' (m s).0 r1))

  -- A loop that fails has committed its first chunks, and has undone the one that failed.
  pub chunks_loop-failure :
      (blocks : List (ChunkItem O)) (ranges : List Range) (stats : BatchStats) (s : State O W)
      (e : WriterError)
      → (chunks_loop O W blocks ranges stats s).1 ≡ err e
      → (before : List Range) × (failing : Range) × (after : List Range) × (ranges
          ≡ before ++ failing ∷ after)
        × ((t : Tables) × Committed O blocks before (tables s) t
            × Undone O W C t (chunks_loop O W blocks ranges stats s).0)
  unfolding chunks_loop
  chunks_loop-failure blocks [] stats s e h = absurd (err-ok e stats (sym h))
  chunks_loop-failure blocks (range ∷ ranges) stats s e h =
      let m = ingest_chunk O W (slice range blocks) in
      let rest = λ (counts : ℕ × ℕ × ℕ). chunks_loop O W blocks ranges (add_counts counts stats) in
      elim (bind-failure m rest s e h) [
        | inl (failed, at) ↦ (
          [],
          range,
          ranges,
          refl,
          (
            tables s,
            start,
            subst (Undone O W C (tables s)) (sym at)
                (ingest_chunk-Undone O W C (slice range blocks) s e failed),
          ),
        )
        | inr (counts, good, failed, at) ↦
            let (before, failing, after, split, (t, committed, undone)) =
              chunks_loop-failure blocks ranges (add_counts counts stats) (m s).0 e failed in
            let (n, (found, written)) = ingest_chunk-Written (slice range blocks) s counts good in
            (
              range ∷ before,
              failing,
              after,
              ap (◌∷◌ range) split,
              (t, next_chunk range found written committed, subst (Undone O W C t) (sym at) undone),
            )
      ]
