-- ===== src/Ingestion/Resume/Reorg.antt =====
-- A reorganisation: `validate_parent_hash` on any database, and `rollback_to_height` on the
-- in-memory one.
use mathlib.Core.Logic.{◌≢◌}
use mathlib.Core.Path.{ap₂}
use bitcoin_chain_graph.Common.{
  ℕ, zero, suc, ◌+◌, ◌-◌, ◌<◌, ◌≡◌, refl, sym, ap, ◌∙◌, ◌⊎◌, inl, inr, Bool, true, false, ◌&&◌, [],
  ◌∷◌, Option, none, some, arith, ℕ_discrete, Bool-cases, Option-cases, if◌then◌else◌, ltb, leb,
  ◌==◌, ==_iff,
}
use bitcoin_chain_graph.Common.Int.{ℤ}
use bitcoin_chain_graph.Common.Exec.{and_then, return}
use bitcoin_chain_graph.Common.Result.{Result, ok, err, Result-cases, err-ok, ok-inj}
use bitcoin_chain_graph.Writer.Error.{WriterError, reorg_detected}
use bitcoin_chain_graph.Writer.Data.{Text, CheckpointData}
use bitcoin_chain_graph.Writer.Graph.{GraphWriter}
use bitcoin_chain_graph.Writer.Mock.{Method, MockStorage}
use bitcoin_chain_graph.Writer.Mock.Writes.{check_failure, guarded}
use bitcoin_chain_graph.Writer.Mock.Queries.{
  text_eq, update_checkpoint, store_checkpoint, lookup_block_hash, rollback_block,
}
use bitcoin_chain_graph.Writer.Mock.Rollback.{rollback_block_lem}
use bitcoin_chain_graph.Writer.Mock.Instance.{mock_writer}
use bitcoin_chain_graph.Ingestion.Resume.{
  parent_matches, validate_parent_hash, rollback_range, reset_checkpoint, rolled_back_checkpoint,
  rollback_to_height,
}
use bitcoin_chain_graph.Ingestion.Resume.Synced.{update_checkpoint-SameRows, SameRows-lookup}

pub text_eq_refl : (a : Text) → text_eq a a ≡ true
unfolding text_eq
text_eq_refl [] = refl
text_eq_refl (x ∷ a) = rw ((==_iff x x).1 refl) (text_eq_refl a)

pub text_eq→≡ : (a b : Text) → text_eq a b ≡ true → a ≡ b
unfolding text_eq
text_eq→≡ [] [] e = refl
text_eq→≡ [] (y ∷ b) e = cc
text_eq→≡ (x ∷ a) [] e = cc
text_eq→≡ (x ∷ a) (y ∷ b) e = elim (Bool-cases (x == y)) [
  | inl same ↦ ap₂ ◌∷◌ ((==_iff x y).0 same) (text_eq→≡ a b (rw same at e))
  | inr diff ↦ cc (rw diff at e)
]

module _ (W : GraphWriter) (prev_hash : Text) (parent : ℕ) (db : W.Db) where
  validate_suc :
      (hash : Option Text)
      → (W.lookup_block_hash parent db).1 ≡ ok hash
      → (validate_parent_hash W prev_hash (suc parent) db).1
        ≡ parent_matches prev_hash (suc parent) hash
  unfolding validate_parent_hash
  validate_suc hash e = rw (validate_parent_hash, e) refl

  -- When the database answers the look-up of the parent, a block above the genesis is accepted
  -- exactly when its parent height is not stored or stored with its previous hash; with another
  -- stored hash the answer is the reorganisation error, with both hashes.
  validate_parent_hash_lem :
      (hash : Option Text)
      → (W.lookup_block_hash parent db).1 ≡ ok hash
      → (((validate_parent_hash W prev_hash (suc parent) db).1 ≡ ok tt)
          × ((hash ≡ none) ⊎ (hash ≡ some prev_hash)))
        ⊎ ((stored : Text) × (hash ≡ some stored)
            × (stored ≢ prev_hash)
            × ((validate_parent_hash W prev_hash (suc parent) db).1
                ≡ err (reorg_detected (suc parent) prev_hash stored)))
  unfolding parent_matches
  validate_parent_hash_lem none e = inl (validate_suc none e, inl refl)
  validate_parent_hash_lem (some stored) e = elim (Bool-cases (text_eq stored prev_hash)) [
    | inl same ↦ inl (
      validate_suc (some stored) e ∙ rw same refl,
      inr (ap some (text_eq→≡ stored prev_hash same)),
    )
    | inr diff ↦ inr (
      stored,
      refl,
      (λ at. true-false (sym (text_eq_refl stored) ∙ ap (text_eq stored) at ∙ diff)),
      validate_suc (some stored) e ∙ rw diff refl,
    )
  ]
    where
      true-false : Path Bool true false → ⊥
      true-false h = cc

abbrev choose : Bool → Result WriterError (Option Text) → Result WriterError (Option Text)
choose b other = if b then ok none else other

-- The range of heights that is rolled back.
abbrev pub in_range : ℕ → ℕ → ℕ → Bool
in_range fork_point tip g = ltb fork_point g && leb g tip

update_checkpoint-stored :
    (c : CheckpointData) (s : MockStorage)
    → (update_checkpoint c s).1 ≡ ok tt
    → (update_checkpoint c s).0.tables.checkpoint ≡ some c
unfolding update_checkpoint guarded store_checkpoint
update_checkpoint-stored c s e = elim (Option-cases (check_failure Method.update_checkpoint s).1) [
  | inl none_ ↦ rw (none_, guarded) refl
  | inr (f, failed) ↦ absurd (err-ok f tt (rw (update_checkpoint, guarded, failed) at e))
]

lookup_block_hash-state :
    (h : ℕ) (s : MockStorage) → (hash : Option Text) × (lookup_block_hash h s ≡ (s, ok hash))
unfolding lookup_block_hash
lookup_block_hash-state h s = (_, refl)

module _ (now : ℤ) (fork_point : ℕ) where
  -- The state after the loop.
  rolled : ℕ → MockStorage → MockStorage
  rolled zero s = s
  rolled (suc n) s = rolled n (rollback_block (suc (fork_point + n)) s).0

  rollback_range-rolled :
      (n : ℕ) (s : MockStorage)
      → rollback_range (mock_writer now) n fork_point s ≡ (rolled n s, ok tt)
  unfolding rollback_range rolled rollback_block
  rollback_range-rolled zero s = refl
  rollback_range-rolled (suc n) s =
      rollback_range-rolled n (rollback_block (suc (fork_point + n)) s).0

  rolled-lookup :
      (n g : ℕ) (s : MockStorage)
      → (lookup_block_hash g (rolled n s)).1
        ≡ (if in_range fork_point (fork_point + n) g then ok none else (lookup_block_hash g s).1)
  unfolding rolled
  rolled-lookup zero g s =
      let out : in_range fork_point (fork_point + 0) g ≡ false = ground arith in
      sym (ap (λ b. if b then ok none else (lookup_block_hash g s).1) out)
  rolled-lookup (suc n) g s =
      let top = suc (fork_point + n) in
      let s1 = (rollback_block top s).0 in
      let rest = rolled-lookup n g s1 in
      elim (ℕ_discrete top g) [
        | yes e ↦
            let inside : in_range fork_point (fork_point + suc n) g ≡ true = ground arith in
            let out : in_range fork_point (fork_point + n) g ≡ false = ground arith in
            let gone : (lookup_block_hash g s1).1 ≡ ok none =
              rw (← e) (rollback_block_lem s top (suc top) (λ same. omega arith)).0 in
            rest
            ∙ ap (λ b. choose b (lookup_block_hash g s1).1) out
            ∙ gone
            ∙ sym (ap (λ b. choose b (lookup_block_hash g s).1) inside)
        | no ne ↦
            let same : in_range fork_point (fork_point + n) g
                ≡ in_range fork_point (fork_point + suc n) g =
              ground arith in
            rest ∙ ap₂ choose same (rollback_block_lem s top g ne).2
      ]

  reset-lookup :
      (hash : Option Text) (g : ℕ) (s : MockStorage)
      → (reset_checkpoint (mock_writer now) now fork_point hash s).1 ≡ ok tt
      → ((lookup_block_hash g (reset_checkpoint (mock_writer now) now fork_point hash s).0).1
          ≡ (lookup_block_hash g s).1)
        × ((reset_checkpoint (mock_writer now) now fork_point hash s).0.tables.checkpoint
            ≡ elim hash [
              | none ↦ s.tables.checkpoint
              | some h ↦ some (rolled_back_checkpoint now fork_point h)
            ])
  unfolding reset_checkpoint
  reset-lookup none g s e = (refl, refl)
  reset-lookup (some h) g s e =
      let c = rolled_back_checkpoint now fork_point h in
      (
        SameRows-lookup g s (update_checkpoint c s).0 (update_checkpoint-SameRows c s),
        update_checkpoint-stored c s e,
      )

  finish : ℕ → MockStorage × Result WriterError (Unit {0}) → MockStorage × Result WriterError ℕ
  finish n = and_then (λ a. return n)

  -- The loop, then the checkpoint.
  rollback_to_height-run :
      (tip : ℕ) (s : MockStorage) (hash : Option Text)
      → fork_point < tip
      → lookup_block_hash fork_point (rolled (tip - fork_point) s)
        ≡ (rolled (tip - fork_point) s, ok hash)
      → rollback_to_height (mock_writer now) now tip fork_point s
        ≡ finish
            (tip - fork_point)
            (reset_checkpoint (mock_writer now) now fork_point hash (rolled (tip - fork_point) s))
  unfolding rollback_to_height finish
  rollback_to_height-run tip s hash above found =
      let more : leb tip fork_point ≡ false = ground arith in
      rw (rollback_to_height, more, rollback_range-rolled (tip - fork_point) s, found) refl

  -- On the in-memory database, with a fork point below the tip: a rollback that succeeds returns
  -- the number of blocks between the two; afterwards no block above the fork point up to the tip
  -- is stored, every other height has the hash that it had, and the checkpoint is the fork point,
  -- if that is stored.
  pub rollback_to_height_lem :
      (tip g r : ℕ) (s : MockStorage)
      → fork_point < tip
      → (rollback_to_height (mock_writer now) now tip fork_point s).1 ≡ ok r
      → let s' = (rollback_to_height (mock_writer now) now tip fork_point s).0 in
        (r ≡ tip - fork_point)
        × ((lookup_block_hash g s').1
            ≡ (if in_range fork_point tip g then ok none else (lookup_block_hash g s).1))
        × (((lookup_block_hash fork_point s).1 ≡ ok none)
            ⊎ ((h : Text) × ((lookup_block_hash fork_point s).1 ≡ ok (some h))
                × (s'.tables.checkpoint ≡ some (rolled_back_checkpoint now fork_point h))))
  unfolding finish
  rollback_to_height_lem tip g r s above e =
      let n = tip - fork_point in
      let t = rolled n s in
      let (hash, found) = lookup_block_hash-state fork_point t in
      let run = reset_checkpoint (mock_writer now) now fork_point hash t in
      let all = rollback_to_height-run tip s hash above found in
      let top : fork_point + n ≡ tip = omega arith in
      let out : in_range fork_point (fork_point + n) fork_point ≡ false = ground arith in
      let stored : (lookup_block_hash fork_point s).1 ≡ ok hash =
        sym (ap (λ b. choose b (lookup_block_hash fork_point s).1) out)
        ∙ sym (rolled-lookup n fork_point s)
        ∙ ap (λ p. p.1) found in
      elim (Result-cases run.1) [
        | inr (f, failed) ↦
            absurd
              (err-ok f r (sym (ap (λ p. p.1) (all ∙ ap (λ a. finish n (run.0, a)) failed)) ∙ e))
        | inl (a, done) ↦
            let last = all ∙ ap (λ x. finish n (run.0, x)) done in
            let (looked, checkpoint) = reset-lookup hash g t done in
            rw last (
              sym (ok-inj _ _ (sym (ap (λ p. p.1) last) ∙ e)),
              looked
                  ∙ rolled-lookup n g s
                  ∙ ap (λ m. choose (in_range fork_point m g) (lookup_block_hash g s).1) top,
              by_hash hash stored checkpoint,
            )
      ]
    where
      by_hash :
          (hash : Option Text) {q : Option CheckpointData}
          → (lookup_block_hash fork_point s).1 ≡ ok hash
          → q ≡ elim hash [
            | none ↦ (rolled (tip - fork_point) s).tables.checkpoint
            | some h ↦ some (rolled_back_checkpoint now fork_point h)
          ]
          → ((lookup_block_hash fork_point s).1 ≡ ok none)
            ⊎ ((h : Text) × ((lookup_block_hash fork_point s).1 ≡ ok (some h))
                × (q ≡ some (rolled_back_checkpoint now fork_point h)))
      by_hash none e c = inl e
      by_hash (some h) e c = inr (h, e, c)
