-- ===== src/Writer/Mock/Rollback.antt =====
-- `rollback_block` of `MockWriter` (src/writer/mock.rs).
use mathlib.Core.Logic.{◌≢◌}
use bitcoin_chain_graph.Common.{
  ℕ, ◌≡◌, refl, sym, ap, ◌∙◌, inl, inr, Bool, true, not, List, [], ◌∷◌, none, ◌==◌, ==_iff,
  Bool-cases,
}
use bitcoin_chain_graph.Common.Result.{ok, err}
use bitcoin_chain_graph.Writer.Error.{query_failed, block_not_found}
use bitcoin_chain_graph.Writer.Data.{BlockData, TransactionData}
use bitcoin_chain_graph.Writer.Mock.{MockStorage}
use bitcoin_chain_graph.Writer.Mock.Queries.{
  retain, find, rollback_tables, rollback_block, lookup_block_hash, check_block_complete,
}

-- Looking for what was removed, and for what was kept.
find-retain-not {ℓ} :
    {A : Type ℓ} (test : A → Bool) (xs : List A) → find test (retain (λ x. not (test x)) xs) ≡ none
unfolding find retain
find-retain-not test [] = refl
find-retain-not test (x ∷ xs) = elim (Bool-cases (test x)) [
  | inl e ↦ rw e (find-retain-not test xs)
  | inr e ↦ rw (e, e) (find-retain-not test xs)
]

find-retain_kept {ℓ} :
    {A : Type ℓ} (test keep : A → Bool) (xs : List A)
    → ((x : A) → test x ≡ true → keep x ≡ true)
    → find test (retain keep xs) ≡ find test xs
unfolding find retain
find-retain_kept test keep [] h = refl
find-retain_kept test keep (x ∷ xs) h = elim (Bool-cases (test x)) [
  | inl e ↦ rw (h x e, e) refl
  | inr e ↦ elim (Bool-cases (keep x)) [
    | inl k ↦ rw (k, e) (find-retain_kept test keep xs h)
    | inr k ↦ rw (k, e) (find-retain_kept test keep xs h)
  ]
]

retain-retain_kept {ℓ} :
    {A : Type ℓ} (test keep : A → Bool) (xs : List A)
    → ((x : A) → test x ≡ true → keep x ≡ true)
    → retain test (retain keep xs) ≡ retain test xs
unfolding retain
retain-retain_kept test keep [] h = refl
retain-retain_kept test keep (x ∷ xs) h = elim (Bool-cases (test x)) [
  | inl e ↦ rw (h x e, e) (ap (◌∷◌ x) (retain-retain_kept test keep xs h))
  | inr e ↦ elim (Bool-cases (keep x)) [
    | inl k ↦ rw (k, e) (retain-retain_kept test keep xs h)
    | inr k ↦ rw (k, e) (retain-retain_kept test keep xs h)
  ]
]

other_height : (h k n : ℕ) → h ≢ k → (n == k) ≡ true → not (n == h) ≡ true
other_height h k n ne e =
    let at : n ≡ k = (==_iff n k).0 e in
    elim (Bool-cases (n == h)) [
      | inl same ↦ absurd (ne (sym ((==_iff n h).0 same) ∙ at))
      | inr diff ↦ rw diff refl
    ]

-- After a block is rolled back in the in-memory database, no block of its height is found, by its
-- hash or by the completeness check. Blocks of other heights keep their hashes and the answers of
-- the completeness check.
pub rollback_block_lem :
    (s : MockStorage) (height other : ℕ)
    → height ≢ other
    → let s' = (rollback_block height s).0 in
      ((lookup_block_hash height s').1 ≡ ok none)
      × ((check_block_complete height s').1 ≡ err (query_failed (block_not_found height)))
      × ((lookup_block_hash other s').1 ≡ (lookup_block_hash other s).1)
      × ((check_block_complete other s').1 ≡ (check_block_complete other s).1)
unfolding rollback_block rollback_tables lookup_block_hash check_block_complete
rollback_block_lem s height other ne =
    let is_at = λ (b : BlockData). b.height == height in
    let gone = find-retain-not is_at s.tables.blocks in
    let kept =
      find-retain_kept (λ (b : BlockData). b.height == other) (λ b. not (b.height == height))
        s.tables.blocks (λ b. other_height height other b.height ne) in
    let counted =
      retain-retain_kept (λ (x : TransactionData). x.block_height == other)
        (λ x. not (x.block_height == height)) s.tables.transactions
        (λ x. other_height height other x.block_height ne) in
    (rw gone refl, rw gone refl, rw kept refl, rw (kept, counted) refl)
