-- ===== src/Ingestion/Live/Catchup/Heights.antt =====
-- About the catch-up of `run_live_ingestion` (src/main.rs): the blocks of a run of heights.
use mathlib.Core.Path.{subst}
use mathlib.Core.List.{map}
use bitcoin_chain_graph.Common.{
  ℕ, zero, suc, ◌+◌, ◌-◌, ◌≤◌, ◌≡◌, refl, sym, ap, ◌∙◌, ◌⊎◌, List, [], ◌∷◌, ◌++◌, arith, Option,
  some,
}
use bitcoin_chain_graph.Common.Context.{AnyError}
use bitcoin_chain_graph.Common.Result.{Result, ok}
use bitcoin_chain_graph.Writer.Graph.{GraphWriter}
use bitcoin_chain_graph.Ingestion.Orchestrator.{Orchestrator, State}
use bitcoin_chain_graph.Ingestion.Batch.{ChunkItem}
use bitcoin_chain_graph.Ingestion.Session.{BatchStats, ingest_blocks_batch}
use bitcoin_chain_graph.Parser.Rpc.Batch.{numbers_from}
use bitcoin_chain_graph.Parser.Rpc.Order.{Full}
use bitcoin_chain_graph.Ingestion.Live.{record_batch_commit}
use bitcoin_chain_graph.Ingestion.Live.Catchup.{Setting, last_height, Live}

pub cons-inj :
    {A : Type 0} (x y : A) (xs ys : List A) → Path (List A) (x ∷ xs) (y ∷ ys) → (x ≡ y) × (xs ≡ ys)
cons-inj x y xs ys h = (cc, cc)

pub cons-nil : {A : Type 0} (x : A) (xs : List A) → Path (List A) (x ∷ xs) [] → ⊥
cons-nil x xs h = cc

module _ (O : Orchestrator) (W : GraphWriter) where
  -- One batch after the other that is ingested without an error, with all their blocks.
  pub data Ingested : State O W → State O W → List (ChunkItem O) → Type 0 where
    nothing : (s : State O W) → Ingested s s []
    batch :
        (s t u : State O W) (stats : BatchStats) (blocks rest : List (ChunkItem O))
        → ingest_blocks_batch O W blocks s ≡ (t, ok stats)
        → Ingested t u rest
        → Ingested s u (blocks ++ rest)

module _ (O : Orchestrator) (W : GraphWriter) (L : Setting O)
    (answer : ℕ → Result AnyError (Option (ChunkItem O))) where
  open L use {crates, provider, is_cancelled, max_height}

  abbrev pub found : ChunkItem O → Result AnyError (Option (ChunkItem O))
  found block = ok (some block)

  -- The blocks of a number of heights from one on.
  abbrev pub BlocksFrom : ℕ → ℕ → List (ChunkItem O) → Type 0
  BlocksFrom height n blocks = map answer (numbers_from height n) ≡ map found blocks

  pub BlocksFrom-cons :
      (height n : ℕ) (block : ChunkItem O) (blocks : List (ChunkItem O))
      → BlocksFrom height (suc n) (block ∷ blocks)
      → (answer height ≡ found block) × BlocksFrom (suc height) n blocks
  unfolding numbers_from
  BlocksFrom-cons height n block blocks h = cons-inj _ _ _ _ h

  pub BlocksFrom-nil : (height n : ℕ) → BlocksFrom height (suc n) [] → ⊥
  unfolding numbers_from
  BlocksFrom-nil height n h = cons-nil _ _ h

  -- `get_block` gives a block of the height that was asked for.
  pub height_of-found :
      (height : ℕ) (block : ChunkItem O)
      → Full (λ (b : ChunkItem O). b.0) answer
      → answer height ≡ found block
      → block.0 ≡ height
  height_of-found height block full h =
      let (b, same, at) = full height (some block) h in
      let block_b : block ≡ b = cc in ap (λ (c : ChunkItem O). c.0) block_b ∙ at

  pub last_height-BlocksFrom :
      (d n : ℕ) (blocks : List (ChunkItem O))
      → Full (λ (block : ChunkItem O). block.0) answer
      → BlocksFrom (suc d) n blocks
      → last_height (λ (block : ChunkItem O). block.0) d blocks ≡ d + n
  unfolding last_height numbers_from
  last_height-BlocksFrom d zero [] full h = omega arith
  last_height-BlocksFrom d (suc n) (block ∷ blocks) full h =
      let (first, rest) = cons-inj _ _ _ _ h in
      let height = height_of-found (suc d) block full first in
      let later = last_height-BlocksFrom (suc d) n blocks full rest in
      rw height (omega (arith, later))
  last_height-BlocksFrom d zero (block ∷ blocks) full h = absurd (cons-nil _ _ (sym h))
  last_height-BlocksFrom d (suc n) [] full h = absurd (cons-nil _ _ h)

  pub moved :
      (height height' n n' : ℕ) (blocks : List (ChunkItem O))
      → height ≡ height'
      → n ≡ n'
      → BlocksFrom height n blocks
      → BlocksFrom height' n' blocks
  moved height height' n n' blocks e f h =
      subst (λ c. BlocksFrom c n' blocks) e (subst (λ m. BlocksFrom height m blocks) f h)

  pub numbers_from-append :
      (height n m : ℕ) (xs ys : List (ChunkItem O))
      → BlocksFrom height n xs
      → BlocksFrom (height + n) m ys
      → BlocksFrom height (n + m) (xs ++ ys)
  unfolding numbers_from
  numbers_from-append height zero m [] ys h k =
      moved (height + 0) height m (0 + m) ys (omega arith) (omega arith) k
  numbers_from-append height (suc n) m (x ∷ xs) ys h k =
      let (first, rest) = cons-inj _ _ _ _ h in
      let later =
        numbers_from-append (suc height) n m xs ys rest
          (moved (height + suc n) (suc height + n) m m ys (omega arith) refl k) in
      let all : BlocksFrom height (suc (n + m)) (x ∷ xs ++ ys) =
        ap (λ l. answer height ∷ l) later ∙ ap (λ r. r ∷ map found (xs ++ ys)) first in
      moved height height (suc (n + m)) (suc n + m) (x ∷ xs ++ ys) refl (omega arith) all
  numbers_from-append height zero m (block ∷ blocks) ys h k = absurd (cons-nil _ _ (sym h))
  numbers_from-append height (suc n) m [] ys h k = absurd (cons-nil _ _ h)

  -- What was done from the current height up to the top.
  abbrev pub CaughtUp : ℕ → Live O W L → Live O W L → Type 0
  CaughtUp top s s' =
      (s'.current_height ≡ top + 1)
      × ((blocks : List (ChunkItem O)) × BlocksFrom s.current_height (top + 1 - s.current_height)
            blocks
          × Ingested O W s.orchestrator s'.orchestrator blocks)
      × (((s.current_height ≡ top + 1) × (s'.shutdown_tracker ≡ s.shutdown_tracker))
          ⊎ ((s.current_height ≤ top)
              × (s'.shutdown_tracker ≡ record_batch_commit top s.shutdown_tracker)))
