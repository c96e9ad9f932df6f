-- ===== src/Ingestion/Session/Atomic.antt =====
-- The transaction of a chunk (src/domain/ingestion.rs, `ingest_blocks_batch`), over any database that
-- fulfils the contract of the writer.
use bitcoin_chain_graph.Common.{
  ℕ, ◌≡◌, refl, sym, ◌∙◌, ◌⊎◌, inl, inr, List, [], ◌∷◌, map, Bool-cases,
}
use bitcoin_chain_graph.Common.Result.{Result, ok, err, Result-cases, err-ok}
use bitcoin_chain_graph.Common.Exec.{Exec, ◌>>=◌, ◌>>◌, bind-state, bind-failure}
use mathlib.Core.Path.{subst}
use bitcoin_chain_graph.Writer.Error.{WriterError}
use bitcoin_chain_graph.Writer.Mock.{Tables}
use bitcoin_chain_graph.Writer.Graph.{GraphWriter}
use bitcoin_chain_graph.Writer.Contract.{Contract}
use bitcoin_chain_graph.Utxo.Key.{UtxoKey}
use bitcoin_chain_graph.Utxo.OutputId.{to_output_id_string}
use bitcoin_chain_graph.Utxo.Cache.{FoundMap, get_many}
use bitcoin_chain_graph.Ingestion.Resume.{parent_matches, validate_parent_hash}
use bitcoin_chain_graph.Ingestion.Amounts.{collect_input_keys}
use bitcoin_chain_graph.Ingestion.Orchestrator.{Orchestrator, State, on_db, try_save_snapshot}
use bitcoin_chain_graph.Ingestion.Batch.{ChunkItem, process_batch_chunk}
use bitcoin_chain_graph.Ingestion.Batch.Kept.{process_batch_chunk-InTxn}
use bitcoin_chain_graph.Ingestion.Session.{
  validate_first, prefetch_rows, prefetch_misses, prefetch_keys, settle, transact, end_height,
  ingest_chunk,
}

module _ (O : Orchestrator) (W : GraphWriter) (C : Contract W) where
  open C use {view, InTxn}

  -- The tables of the database of a state.
  abbrev pub tables_in : State O W → Tables
  tables_in s = view s.db

  -- The database was left by a rollback that failed, of a transaction begun on the tables `t0`.
  abbrev pub RollbackFailed : Tables → State O W → Type 0
  RollbackFailed t0 s =
      (db : W.Db) × (e : WriterError) × InTxn t0 db × (W.rollback_transaction db ≡ (s.db, err e))

  -- A computation that only reads the database.
  abbrev Reads : {A : Type 0} → Exec (State O W) WriterError A → Type 0
  Reads m = (s : State O W) → tables_in (m s).0 ≡ tables_in s

  pub validate_first-Reads : (chunk : List (ChunkItem O)) → Reads (validate_first O W chunk)
  unfolding validate_first validate_parent_hash
  validate_first-Reads [] s = refl
  validate_first-Reads ((ℕ.zero, block, file_name) ∷ chunk) s = refl
  validate_first-Reads ((ℕ.suc height, block, file_name) ∷ chunk) s =
      bind-state (λ db. view db ≡ tables_in s) (W.lookup_block_hash height)
        (λ hash db. (db, parent_matches (O.bitcoin.prev_blockhash block) (ℕ.suc height) hash)) s.db
        (C.block_hash height s.db) (λ a e. C.block_hash height s.db)

  prefetch_misses-Reads :
      (misses : List UtxoKey) (found : FoundMap) → Reads (prefetch_misses O W misses found)
  unfolding prefetch_misses prefetch_rows
  prefetch_misses-Reads [] found s = refl
  prefetch_misses-Reads (miss ∷ misses) found s =
      let ids = map (to_output_id_string O.bitcoin.txid_text) (miss ∷ misses) in
      bind-state (λ s'. tables_in s' ≡ tables_in s) (on_db O W (W.lookup_outputs_batch ids))
        (λ rows s'.
          let (s1, found') = prefetch_rows O W (miss ∷ misses) found rows s' in (s1, ok found'))
        s (C.look_up ids s.db) (λ a e. C.look_up ids s.db)

  pub prefetch_keys-Reads : (keys : List UtxoKey) → Reads (prefetch_keys O W keys)
  unfolding prefetch_keys
  prefetch_keys-Reads [] s = refl
  prefetch_keys-Reads (key ∷ keys) s =
      let (cache', found, misses) = get_many O.lru (key ∷ keys) s.cache in
      prefetch_misses-Reads misses found (record s { cache = cache' })

  pub try_save_snapshot-db :
      (height : ℕ) (s : State O W) → tables_in (try_save_snapshot O W height s) ≡ tables_in s
  unfolding try_save_snapshot
  try_save_snapshot-db height s = elim (Bool-cases O.cache_snapshot_path) [
    | inl e ↦ rw (e, try_save_snapshot) refl
    | inr e ↦ rw (e, try_save_snapshot) refl
  ]

  -- How the transaction of a chunk ends when it fails.
  settle-failure :
      {A : Type 0} (t0 : Tables) (height : ℕ) (result : Result WriterError A) (s : State O W)
      (e : WriterError)
      → InTxn t0 s.db
      → (settle O W height result s).1 ≡ err e
      → let s' = (settle O W height result s).0 in (tables_in s' ≡ t0) ⊎ RollbackFailed t0 s'
  unfolding settle
  settle-failure t0 height (ok counts) s e open_ h =
      elim (Result-cases (W.commit_transaction s.db).1) [
        | inl (a, committed) ↦ absurd (err-ok e counts (sym h ∙ rw committed refl))
        | inr (f, failed) ↦ inl (rw failed (C.commit_err t0 s.db f open_ failed))
      ]
  settle-failure t0 height (err x) s e open_ h =
      elim (Result-cases (W.rollback_transaction s.db).1) [
        | inl (a, undone) ↦ inl (C.rollback_ok t0 s.db open_ undone)
        | inr (f, failed) ↦ inr (s.db, f, open_, λ i. ((W.rollback_transaction s.db).0, failed i))
      ]

  -- The tables `t0` are back, unless the rollback itself failed.
  abbrev pub Undone : Tables → State O W → Type 0
  Undone t0 s = (tables_in s ≡ t0) ⊎ RollbackFailed t0 s

  transact-failure :
      (t0 : Tables) (chunk : List (ChunkItem O)) (found : FoundMap) (s : State O W)
      (e : WriterError)
      → InTxn t0 s.db
      → (transact O W chunk found s).1 ≡ err e
      → Undone t0 (transact O W chunk found s).0
  unfolding transact
  transact-failure t0 chunk found s e open_ h =
      let (s', result) = process_batch_chunk O W chunk found s in
      settle-failure t0 (end_height O W chunk) result s' e
        (process_batch_chunk-InTxn O W C chunk found t0 s open_) h

  begin-failure :
      (t0 : Tables) (chunk : List (ChunkItem O)) (found : FoundMap) (s : State O W)
      (e : WriterError)
      → tables_in s ≡ t0
      → let m = on_db O W W.begin_transaction >> transact O W chunk found in
        (m s).1 ≡ err e → Undone t0 (m s).0
  begin-failure t0 chunk found s e same h =
      let m = on_db O W W.begin_transaction in
      elim (bind-failure m (λ a. transact O W chunk found) s e h) [
        | inl (failed, at) ↦ subst (Undone t0) (sym at) (inl (C.begin_view s.db ∙ same))
        | inr (a, began, failed, at) ↦ subst (Undone t0) (sym at) (
            transact-failure t0 chunk found (m s).0 e
              (subst (λ t. InTxn t (m s).0.db) same (C.begin_ok s.db began)) failed)
      ]

  -- A chunk that fails, at whichever of its calls, leaves the tables as they were before it, unless
  -- the rollback itself fails.
  pub ingest_chunk-Undone :
      (chunk : List (ChunkItem O)) (s : State O W) (e : WriterError)
      → (ingest_chunk O W chunk s).1 ≡ err e
      → Undone (tables_in s) (ingest_chunk O W chunk s).0
  unfolding ingest_chunk
  ingest_chunk-Undone chunk s e h =
      let t0 = tables_in s in
      let m = validate_first O W chunk in
      let p = prefetch_keys O W (collect_input_keys O.bitcoin chunk) in
      let f : FoundMap → Exec (State O W) WriterError (ℕ × ℕ × ℕ) =
        λ found. on_db O W W.begin_transaction >> transact O W chunk found in
      let read = validate_first-Reads chunk s in
      elim (bind-failure m (λ a. p >>= f) s e h) [
        | inl (failed, at) ↦ subst (Undone t0) (sym at) (inl read)
        | inr (a, validated, failed, at) ↦
            subst (Undone t0) (sym at) (elim (bind-failure p f (m s).0 e failed) [
              | inl (failed', at') ↦
                  subst (Undone t0) (sym at')
                    (inl (prefetch_keys-Reads (collect_input_keys O.bitcoin chunk) (m s).0 ∙ read))
              | inr (found, fetched, failed', at') ↦ subst (Undone t0) (sym at') (
                  begin-failure t0 chunk found (p (m s).0).0 e
                    (prefetch_keys-Reads (collect_input_keys O.bitcoin chunk) (m s).0 ∙ read)
                    failed')
            ])
      ]
