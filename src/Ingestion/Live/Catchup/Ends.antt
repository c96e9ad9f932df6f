-- ===== src/Ingestion/Live/Catchup/Ends.antt =====
-- About the catch-up of `run_live_ingestion` (src/main.rs): its loop ends.
use mathlib.Core.Path.{subst}
use bitcoin_chain_graph.Common.{
  ℕ, zero, suc, ◌+◌, ◌-◌, ◌%◌, ◌^◌, ◌≤◌, ◌<◌, ◌≡◌, refl, sym, ap, ◌∙◌, ◌⊎◌, inl, inr, List, [], ◌∷◌,
  All, arith, ltb, ltb-false→ge, min, Bool-cases,
}
use bitcoin_chain_graph.Common.Exec.{bind-result, bind_of_ok, bind_of_err}
use bitcoin_chain_graph.Common.Result.{Result, Result-cases, ok, err, ok-inj, err-ok}
use bitcoin_chain_graph.Writer.Error.{WriterError}
use bitcoin_chain_graph.Writer.Graph.{GraphWriter}
use bitcoin_chain_graph.Ingestion.Orchestrator.{Orchestrator}
use bitcoin_chain_graph.Ingestion.Batch.{ChunkItem}
use bitcoin_chain_graph.Ingestion.Session.{BatchStats}
use bitcoin_chain_graph.Ingestion.Fork.{LiveError, tip_failed, batch_fetch_failed, with_context}
use bitcoin_chain_graph.Parser.Rpc.{get_tip_height}
use bitcoin_chain_graph.Parser.Rpc.Batch.{get_block_batch}
use bitcoin_chain_graph.Parser.Rpc.Bounds.{Between, get_block_batch-Between}
use bitcoin_chain_graph.Ingestion.Live.Catchup.{
  Setting, Flow, stop, again, last_height, Live, Pass, call, unless_cancelled, batch_end, advance,
  after_ingest, ingest, after_fetch, fetch_count, fetch_batch, after_tip, look_up_tip, catchup_pass,
  catchup_loop, go_on,
}

pub stop-again : {E : Type 0} → Path (Result E Flow) (ok stop) (ok again) → ⊥
stop-again h = cc

Flow-cases : (flow : Flow) → (flow ≡ stop) ⊎ (flow ≡ again)
Flow-cases stop = inl refl
Flow-cases again = inr refl

with_context-ok :
    {E A : Type 0} (f : E → LiveError) (r : Result E A) (a : A) → with_context f r ≡ ok a → r ≡ ok a
with_context-ok f (ok b) a h = ap ok (ok-inj b a h)
with_context-ok f (err e) a h = absurd (err-ok _ a h)

pub last_height-All {κ} :
    {A : Type 0} (key : A → ℕ) (P : ℕ → Type κ) (d : ℕ) (bs : List A)
    → P d
    → All (λ b. P (key b)) bs
    → P (last_height key d bs)
unfolding last_height
last_height-All key P d [] h all = h
last_height-All key P d (b ∷ bs) h all = last_height-All key P (key b) bs all.0 all.1

module _ (O : Orchestrator) (W : GraphWriter) (L : Setting O) where
  open L use {crates, provider, is_cancelled, max_height}

  pub unless_cancelled-again :
      (rest : Pass O W L Flow) (s : Live O W L)
      → (unless_cancelled O W L rest s).1 ≡ ok again
      → unless_cancelled O W L rest s ≡ rest (record s { node = (is_cancelled s.node).0 })
  unfolding unless_cancelled
  unless_cancelled-again rest s h = elim (Bool-cases (is_cancelled s.node).1) [
    | inl e ↦ absurd (stop-again (rw e at h))
    | inr e ↦ rw e refl
  ]

  after_ingest-again :
      (blocks : List (ChunkItem O)) (x : Live O W L × Result WriterError BatchStats)
      → (after_ingest O W L blocks x).1 ≡ ok again
      → (after_ingest O W L blocks x).0.current_height ≡ (batch_end O W L blocks x.0 + 1) % 2 ^ 32
  unfolding after_ingest advance batch_end
  after_ingest-again blocks (s, ok stats) h =
      ap (λ q. q.0.current_height) (unless_cancelled-again (advance O W L blocks) _ h)
  after_ingest-again blocks (s, err e) h = absurd (err-ok _ again h)

  -- The height goes up, and to where the next batch starts.
  Advances : ℕ → ℕ → ℕ → Type 0
  Advances current count next = (current < next) × (next ≤ current + count)

  after_fetch-again :
      (count : ℕ) (blocks : List (ChunkItem O)) (s : Live O W L)
      → s.current_height + count < 2 ^ 32
      → All (Between crates provider s.current_height count) blocks
      → (after_fetch O W L blocks s).1 ≡ ok again
      → Advances s.current_height count (after_fetch O W L blocks s).0.current_height
  unfolding after_fetch ingest Advances last_height
  after_fetch-again count [] s fits all h = absurd (stop-again h)
  after_fetch-again count (block ∷ blocks) s fits all h =
      let same = unless_cancelled-again (ingest O W L (block ∷ blocks)) s h in
      let next = after_ingest-again (block ∷ blocks) _ (sym (ap (λ q. q.1) same) ∙ h) in
      let low_high =
        last_height-All (λ (b : ChunkItem O). b.0)
          (λ n. (s.current_height ≤ n) × (n < s.current_height + count)) block.0 blocks all.0
          all.1 in
      let next' = ap (λ q. q.0.current_height) same ∙ next in
      rw next' (omega (arith, low_high.0, low_high.1), omega (arith, low_high.0, low_high.1))

  fetch_batch-again :
      (target : ℕ) (s : Live O W L)
      → 0 < provider.max_concurrent
      → s.current_height ≤ target
      → target + 1 < 2 ^ 32
      → (fetch_batch O W L target s).1 ≡ ok again
      → Advances s.current_height
          (target - s.current_height + 1)
          (fetch_batch O W L target s).0.current_height
  unfolding fetch_batch fetch_count Advances
  fetch_batch-again target s some_calls low fits h =
      let count = fetch_count O W L target s in
      let small : count ≤ target - s.current_height + 1 = omega arith in
      let get = get_block_batch crates provider s.current_height count in
      let (blocks, got, rest, same) =
        bind-result (call O W L (batch_fetch_failed s.current_height) get) (after_fetch O W L) s
          again h in
      let between =
        get_block_batch-Between crates provider s.current_height count s.node blocks some_calls
          (omega arith) (omega arith) (with_context-ok _ _ blocks got) in
      let up = after_fetch-again count blocks _ (omega arith) between rest in
      rw same (up.0, omega (arith, up.1))

  pub catchup_pass-again :
      (top : ℕ) (s : Live O W L)
      → 0 < provider.max_concurrent
      → top + 1 < 2 ^ 32
      → ((net : crates.Net) (tip : ℕ)
          → (get_tip_height crates provider net).1 ≡ ok tip
          → min tip max_height ≤ top)
      → (catchup_pass O W L s).1 ≡ ok again
      → (s.current_height ≤ top) × (s.current_height < (catchup_pass O W L s).0.current_height)
  unfolding catchup_pass look_up_tip after_tip Advances
  catchup_pass-again top s some_calls fits tips h =
      let s1 = record s { node = (is_cancelled s.node).0 } in
      let same = unless_cancelled-again (look_up_tip O W L) s h in
      let again1 = sym (ap (λ q. q.1) same) ∙ h in
      let (tip, got, rest, same') =
        bind-result (call O W L tip_failed (get_tip_height crates provider)) (after_tip O W L) s1
          again again1 in
      let bound = tips s1.node tip (with_context-ok tip_failed _ tip got) in
      let s2 : Live O W L = record s { node = (get_tip_height crates provider s1.node).0 } in
      elim (Bool-cases (ltb (min tip max_height) s.current_height)) [
        | inl past ↦ absurd (stop-again (rw past at rest))
        | inr not_past ↦
            let rest' : (fetch_batch O W L (min tip max_height) s2).1 ≡ ok again =
              rw not_past at rest in
            let up =
              fetch_batch-again (min tip max_height) s2 some_calls (ltb-false→ge _ _ not_past)
                (omega arith) rest' in
            let ended : (after_tip O W L tip s2).0 ≡ (fetch_batch O W L (min tip max_height) s2).0 =
              rw not_past refl in
            let next : (catchup_pass O W L s).0.current_height
                ≡ (fetch_batch O W L (min tip max_height) s2).0.current_height =
              ap (λ q. q.0.current_height) same ∙ ap (λ q. q.current_height) (same' ∙ ended) in
            (omega (arith, bound, ltb-false→ge _ _ not_past), rw next up.0)
      ]

  -- If the tip, cut off at `max_height`, is never above a height that is no u32::MAX - which a
  -- `max_height` below it gives, whatever the node answers - and at least one call runs at a time,
  -- then the catch-up ends: in at most as many passes as there are heights left up to there, and one
  -- more, it stops or fails.
  pub catchup_loop-ends :
      (top n : ℕ) (s : Live O W L)
      → 0 < provider.max_concurrent
      → top + 1 < 2 ^ 32
      → ((net : crates.Net) (tip : ℕ)
          → (get_tip_height crates provider net).1 ≡ ok tip
          → min tip max_height ≤ top)
      → suc top - s.current_height < n
      → ((catchup_loop O W L n s).1 ≡ ok stop)
        ⊎ ((e : LiveError) × ((catchup_loop O W L n s).1 ≡ err e))
  unfolding catchup_loop
  catchup_loop-ends top zero s some_calls fits tips enough = absurd (omega arith)
  catchup_loop-ends top (suc n) s some_calls fits tips enough =
      let rest = go_on O W L (catchup_loop O W L n) in
      elim (Result-cases (catchup_pass O W L s).1) [
        | inr (e, failed) ↦
            inr (e, ap (λ q. q.1) (bind_of_err (catchup_pass O W L) rest s e failed))
        | inl (flow, passed) ↦
            let next = ap (λ q. q.1) (bind_of_ok (catchup_pass O W L) rest s flow passed) in
            elim (Flow-cases flow) [
              | inl stopped ↦ inl (rw stopped at next)
              | inr more ↦
                  let up = catchup_pass-again top s some_calls fits tips (passed ∙ ap ok more) in
                  let later =
                    catchup_loop-ends top n (catchup_pass O W L s).0 some_calls fits tips
                      (omega (arith, up.0, up.1)) in
                  let same : (catchup_loop O W L (suc n) s).1
                      ≡ (catchup_loop O W L n (catchup_pass O W L s).0).1 =
                    rw more at next in
                  subst (λ r. (r ≡ ok stop) ⊎ ((e : LiveError) × (r ≡ err e))) (sym same) later
            ]
      ]
