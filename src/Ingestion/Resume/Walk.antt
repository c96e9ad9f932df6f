-- ===== src/Ingestion/Resume/Walk.antt =====
-- The walk of `sync_checkpoint_with_db` on the in-memory database: what it removes and where it
-- stops.
use mathlib.Core.Path.{subst}
use bitcoin_chain_graph.Common.{
  ℕ, zero, suc, ◌+◌, ◌≤◌, ◌<◌, ◌≡◌, refl, sym, ap, ◌∙◌, inl, inr, true, false, Option, none, some,
  arith, ℕ_discrete, Bool-cases, if◌then◌else◌,
}
use bitcoin_chain_graph.Common.Int.{ℤ}
use bitcoin_chain_graph.Common.Result.{Result, ok, err, Result-cases, err-ok, ok-inj}
use bitcoin_chain_graph.Writer.Error.{WriterError}
use bitcoin_chain_graph.Writer.Mock.{MockStorage}
use bitcoin_chain_graph.Writer.Mock.Queries.{
  rollback_block, lookup_block_hash, check_block_complete,
}
use bitcoin_chain_graph.Writer.Mock.Rollback.{rollback_block_lem}
use bitcoin_chain_graph.Writer.Mock.Instance.{mock_writer}
use bitcoin_chain_graph.Ingestion.Resume.{is_complete, walk_back}

-- No block of the height is stored.
abbrev pub Gone : ℕ → MockStorage → Type 0
Gone g s = (lookup_block_hash g s).1 ≡ ok none

rollback-Gone : (g h : ℕ) (s : MockStorage) → Gone g s → Gone g (rollback_block h s).0
rollback-Gone g h s gone = elim (ℕ_discrete h g) [
  | yes e ↦ rw (← e) (rollback_block_lem s h (suc h) (λ same. omega arith)).0
  | no ne ↦ (rollback_block_lem s h g ne).2 ∙ gone
]

rollback-Gone_self : (h : ℕ) (s : MockStorage) → Gone h (rollback_block h s).0
rollback-Gone_self h s = (rollback_block_lem s h (suc h) (λ same. omega arith)).0

check_block_complete-state :
    (h : ℕ) (s : MockStorage) → check_block_complete h s ≡ (s, (check_block_complete h s).1)
unfolding check_block_complete
check_block_complete-state h s = refl

rollback_block-state :
    (h : ℕ) (s : MockStorage) → rollback_block h s ≡ ((rollback_block h s).0, ok tt)
unfolding rollback_block
rollback_block-state h s = refl

-- The walk back goes on from above the block that it stopped at.
abbrev pub resumes_at : ℕ → Option ℕ → ℕ
resumes_at low none = low
resumes_at low (some h) = suc h

-- A block that was not complete was removed.
abbrev pub Removed : ℕ → MockStorage → MockStorage → Type 0
Removed g s s' =
    Gone g s'
    × ((counts : ℕ × ℕ) × ((check_block_complete g s).1 ≡ ok counts) × (is_complete counts ≡ false))

-- Both queries answer for the height as before.
abbrev pub Kept : ℕ → MockStorage → MockStorage → Type 0
Kept g s s' =
    ((lookup_block_hash g s').1 ≡ (lookup_block_hash g s).1)
    × ((check_block_complete g s').1 ≡ (check_block_complete g s).1)

-- The heights from `low` to below `top` were walked, from the state `s` to `s'`.
pub record Walked (low top : ℕ) (s s' : MockStorage) (found : Option ℕ) : Type 0 where
  pub stopped :
      (h : ℕ)
      → found ≡ some h
      → (low ≤ h)
        × (h < top)
        × ((counts : ℕ × ℕ) × ((check_block_complete h s').1 ≡ ok counts)
            × (is_complete counts ≡ true))
  pub bounded : resumes_at low found ≤ top
  pub removed : (g : ℕ) → resumes_at low found ≤ g → g < top → Removed g s s'
  pub kept : (g : ℕ) → g < resumes_at low found → Kept g s s'

module _ (now : ℤ) where
  -- One round of the walk, by the answer of the completeness check.
  walk_back_after :
      ℕ → ℕ → MockStorage → Result WriterError (ℕ × ℕ) → MockStorage × Result WriterError (Option ℕ)
  walk_back_after n low s (err e) = (s, err e)
  walk_back_after n low s (ok counts) =
      let rest = walk_back (mock_writer now) n low (rollback_block (low + n) s).0 in
      if is_complete counts then (s, ok (some (low + n))) else rest

  walk_back-suc :
      (n low : ℕ) (s : MockStorage)
      → walk_back (mock_writer now) (suc n) low s
        ≡ walk_back_after n low s (check_block_complete (low + n) s).1
  unfolding walk_back walk_back_after
  walk_back-suc n low s = elim (Result-cases (check_block_complete (low + n) s).1) [
    | inr (f, e) ↦
        let at : check_block_complete (low + n) s ≡ (s, err f) =
          check_block_complete-state (low + n) s ∙ ap (λ r. (s, r)) e in
        rw (e, at) refl
    | inl (counts, e) ↦
        let at : check_block_complete (low + n) s ≡ (s, ok counts) =
          check_block_complete-state (low + n) s ∙ ap (λ r. (s, r)) e in
        elim (Bool-cases (is_complete counts)) [
          | inl yes_ ↦ rw (e, at, yes_) refl
          | inr no_ ↦ rw (e, at, no_, rollback_block-state (low + n) s) refl
        ]
  ]

  walk_back-Gone :
      (n low g : ℕ) (s : MockStorage) → Gone g s → Gone g (walk_back (mock_writer now) n low s).0
  unfolding walk_back_after
  walk_back-Gone zero low g s gone = unfold walk_back in gone
  walk_back-Gone (suc n) low g s gone =
      rw (walk_back-suc n low s) (elim (Result-cases (check_block_complete (low + n) s).1) [
        | inr (f, e) ↦ rw e gone
        | inl (counts, e) ↦ elim (Bool-cases (is_complete counts)) [
          | inl done ↦ rw (e, done) gone
          | inr more ↦
              rw (e, more)
                (walk_back-Gone n low g (rollback_block (low + n) s).0
                  (rollback-Gone g (low + n) s gone))
        ]
      ])

  none-some : (h : ℕ) → Path (Option ℕ) none (some h) → ⊥
  none-some h e = cc

  some-inj : (h k : ℕ) → Path (Option ℕ) (some h) (some k) → h ≡ k
  some-inj h k e = cc

  -- One round that removes a block, before the others.
  Walked-suc :
      (n low : ℕ) (s s' : MockStorage) (found : Option ℕ) (counts : ℕ × ℕ)
      → (check_block_complete (low + n) s).1 ≡ ok counts
      → is_complete counts ≡ false
      → Gone (low + n) s'
      → Walked low (low + n) (rollback_block (low + n) s).0 s' found
      → Walked low (low + suc n) s s' found
  Walked-suc n low s s' found counts got more top ih =
      let others = λ (g : ℕ) (lt : g < low + n).
        rollback_block_lem s (low + n) g (λ same. omega (arith, same)) in
      record {
        stopped =
            λ h at. ((ih.stopped h at).0, omega (arith, (ih.stopped h at).1), (ih.stopped h at).2);
        bounded = omega (arith, ih.bounded);
        removed = λ g ge lt. elim (ℕ_discrete (low + n) g) [
          | yes e ↦ subst (λ k. Removed k s s') e (top, (counts, got, more))
          | no ne ↦
              let under : g < low + n = omega arith in
              let (gone, (c, partly, open_)) = ih.removed g ge under in
              (gone, (c, sym (others g under).3 ∙ partly, open_))
        ];
        kept = λ g lt.
            let under : g < low + n = omega (arith, ih.bounded) in
            let (hash, answer) = ih.kept g lt in
            (hash ∙ (others g under).2, answer ∙ (others g under).3);
      }

  walk_back_zero : (low : ℕ) (s : MockStorage) → walk_back (mock_writer now) 0 low s ≡ (s, ok none)
  unfolding walk_back
  walk_back_zero low s = refl

  -- Everything that is walked past was not complete and is gone, the walk stops at a complete block,
  -- and the heights below are as they were.
  pub walk_back-Walked :
      (n low : ℕ) (s : MockStorage) (found : Option ℕ)
      → (walk_back (mock_writer now) n low s).1 ≡ ok found
      → Walked low (low + n) s (walk_back (mock_writer now) n low s).0 found
  unfolding walk_back_after
  walk_back-Walked zero low s found e =
      let empty : none ≡ found = ok-inj _ _ (sym (ap (λ p. p.1) (walk_back_zero low s)) ∙ e) in
      subst (λ f. Walked low (low + 0) s (walk_back (mock_writer now) 0 low s).0 f) empty
        (rw (walk_back_zero low s) (record {
          stopped = λ h at. absurd (none-some h at);
          bounded = omega arith;
          removed = λ g ge lt. absurd (omega arith);
          kept = λ g lt. (refl, refl);
        }))
  walk_back-Walked (suc n) low s found e =
      let step : (walk_back_after n low s (check_block_complete (low + n) s).1).1 ≡ ok found =
        sym (ap (λ p. p.1) (walk_back-suc n low s)) ∙ e in
      rw (walk_back-suc n low s) (elim (Result-cases (check_block_complete (low + n) s).1) [
        | inr (f, failed) ↦ absurd (err-ok f found (rw failed at step))
        | inl (counts, got) ↦ elim (Bool-cases (is_complete counts)) [
          | inl done ↦
              let here : some (low + n) ≡ found = ok-inj _ _ (rw (got, done) at step) in
              rw (got, done)
                (subst (Walked low (low + suc n) s s) here (record {
                  stopped = λ h at. (
                    omega (arith, some-inj _ _ at),
                    omega (arith, some-inj _ _ at),
                    (counts, rw (← some-inj (low + n) h at) got, done),
                  );
                  bounded = omega arith;
                  removed = λ g ge lt. absurd (omega arith);
                  kept = λ g lt. (refl, refl);
                }))
          | inr more ↦
              let s1 = (rollback_block (low + n) s).0 in
              let ih = walk_back-Walked n low s1 found (rw (got, more) at step) in
              let top = walk_back-Gone n low (low + n) s1 (rollback-Gone_self (low + n) s) in
              rw (got, more)
                (Walked-suc n low s (walk_back (mock_writer now) n low s1).0 found counts got more
                  top ih)
        ]
      ])
