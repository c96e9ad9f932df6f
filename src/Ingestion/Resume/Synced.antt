-- ===== src/Ingestion/Resume/Synced.antt =====
-- `sync_checkpoint_with_db` on the in-memory database: the height to resume from, and what is
-- stored above it.
use mathlib.Core.Path.{subst}
use bitcoin_chain_graph.Common.{
  ℕ, suc, ◌+◌, ◌-◌, ◌^◌, ◌≤◌, ◌<◌, ◌≡◌, refl, sym, ap, ◌∙◌, ◌⊎◌, inl, inr, true, Option, none, some,
  arith, Bool-cases, Option-cases, if◌then◌else◌, ltb→lt, lt→ltb,
}
use native.Mathlib.Nat.{mod-eq_of_lt}
use bitcoin_chain_graph.Common.Int.{ℤ, pos, negsuc, as_i32, as_u32, ltz, sucz}
use bitcoin_chain_graph.Common.Exec.{and_then}
use bitcoin_chain_graph.Common.Result.{Result, ok, Result-cases, err-ok, ok-inj}
use bitcoin_chain_graph.Writer.Error.{WriterError}
use bitcoin_chain_graph.Writer.Data.{Text, CheckpointData}
use bitcoin_chain_graph.Writer.Graph.{GraphWriter}
use bitcoin_chain_graph.Writer.Mock.{Method, MockStorage}
use bitcoin_chain_graph.Writer.Mock.Writes.{check_failure, guarded}
use bitcoin_chain_graph.Writer.Mock.Queries.{
  update_checkpoint, store_checkpoint, lookup_block_hash, check_block_complete, get_checkpoint,
  get_max_block_height, max_height,
}
use bitcoin_chain_graph.Writer.Mock.Open.{check_failure-Same}
use bitcoin_chain_graph.Writer.Mock.Instance.{mock_writer}
use bitcoin_chain_graph.Ingestion.Resume.{
  checkpoint_height, resume_of, is_complete, walk_back, move_checkpoint, synced_checkpoint,
  first_above, sync_above, sync_checkpoint_with_db,
}
use bitcoin_chain_graph.Ingestion.Resume.Walk.{
  Gone, Removed, Kept, Walked, resumes_at, walk_back-Walked,
}

-- The checkpoint is at -1, or at a height.
abbrev pub IsHeight : ℤ → Type 0
IsHeight h = (h ≡ negsuc 0) ⊎ ((c : ℕ) × (h ≡ pos c))

-- A change of the checkpoint is no change of the blocks and transactions.
abbrev pub SameRows : MockStorage → MockStorage → Type 0
SameRows s s' =
    (s'.tables.blocks ≡ s.tables.blocks) × (s'.tables.transactions ≡ s.tables.transactions)

pub update_checkpoint-SameRows :
    (c : CheckpointData) (s : MockStorage) → SameRows s (update_checkpoint c s).0
unfolding update_checkpoint guarded store_checkpoint
update_checkpoint-SameRows c s =
    let same = (check_failure-Same Method.update_checkpoint s).0 in
    elim (Option-cases (check_failure Method.update_checkpoint s).1) [
      | inl e ↦ rw (e, guarded) (ap (λ t. t.blocks) same, ap (λ t. t.transactions) same)
      | inr (f, e) ↦ rw (e, guarded) (ap (λ t. t.blocks) same, ap (λ t. t.transactions) same)
    ]

SameRows-Gone : (g : ℕ) (s s' : MockStorage) → SameRows s s' → Gone g s → Gone g s'
unfolding lookup_block_hash
SameRows-Gone g s s' same gone = rw same.0 gone

pub SameRows-lookup :
    (g : ℕ) (s s' : MockStorage)
    → SameRows s s'
    → (lookup_block_hash g s').1 ≡ (lookup_block_hash g s).1
unfolding lookup_block_hash
SameRows-lookup g s s' same = rw same.0 refl

SameRows-complete :
    (h : ℕ) (s s' : MockStorage)
    → SameRows s s'
    → (check_block_complete h s').1 ≡ (check_block_complete h s).1
unfolding check_block_complete
SameRows-complete h s s' same = rw (same.0, same.1) refl

SameRows-Removed :
    (g : ℕ) (s0 s s' : MockStorage) → SameRows s s' → Removed g s0 s → Removed g s0 s'
SameRows-Removed g s0 s s' same (gone, partly) = (SameRows-Gone g s s' same gone, partly)

SameRows-Kept : (g : ℕ) (s0 s s' : MockStorage) → SameRows s s' → Kept g s0 s → Kept g s0 s'
SameRows-Kept g s0 s s' same (hash, answer) =
    (SameRows-lookup g s s' same ∙ hash, SameRows-complete g s s' same ∙ answer)

module _ (now : ℤ) (cp : Option CheckpointData) where
  -- The end of the synchronisation: the rows stay, and the result follows the block that was found.
  move_checkpoint-none :
      (s : MockStorage)
      → move_checkpoint (mock_writer now) now cp none s
        ≡ (s, ok (as_u32 (sucz (checkpoint_height cp))))
  unfolding move_checkpoint
  move_checkpoint-none s = refl

  lookup_block_hash-state :
      (h : ℕ) (s : MockStorage) → (hash : Option Text) × (lookup_block_hash h s ≡ (s, ok hash))
  unfolding lookup_block_hash
  lookup_block_hash-state h s = (_, refl)

  move_checkpoint-some :
      (h r : ℕ) (s : MockStorage)
      → (move_checkpoint (mock_writer now) now cp (some h) s).1 ≡ ok r
      → (r ≡ as_u32 (sucz (as_i32 h)))
        × SameRows s (move_checkpoint (mock_writer now) now cp (some h) s).0
  unfolding move_checkpoint
  move_checkpoint-some h r s e = elim (Bool-cases (ltz (checkpoint_height cp) (as_i32 h))) [
    | inr same ↦ (
      sym (ok-inj _ _ (rw (move_checkpoint, same) at e)),
      rw (move_checkpoint, same) (refl, refl),
    )
    | inl higher ↦
        let (hash, found) = lookup_block_hash-state h s in
        let c = synced_checkpoint now cp h hash in
        let rows = update_checkpoint-SameRows c s in
        elim (Result-cases (update_checkpoint c s).1) [
          | inl (a, done) ↦ (
            sym (ok-inj _ _ (rw (move_checkpoint, higher, found, done) at e)),
            rw (move_checkpoint, higher, found, done) rows,
          )
          | inr (f, failed) ↦ absurd (err-ok f r (rw (move_checkpoint, higher, found, failed) at e))
        ]
  ]

below_pos : (k m : ℕ) → m + 1 < 2 ^ 31 → ltz (pos k) (as_i32 m) ≡ true → k < m
unfolding ltz as_i32
below_pos k m small below = ltb→lt k m (
    sym (
      ap (λ b. ltz (pos k) (if b then pos m else negsuc (2 ^ 32 - m - 1)))
        (lt→ltb m (2 ^ 31) (omega arith)))
    ∙ below)

resume_pos : (k : ℕ) → (if ltz (pos k) (pos 0) then 0 else as_u32 (sucz (pos k))) ≡ suc k
unfolding ltz as_u32 sucz
resume_pos k = ground arith

as_i32-suc : (h m : ℕ) → m + 1 < 2 ^ 31 → h ≤ m → as_u32 (sucz (as_i32 h)) ≡ suc h
unfolding as_i32 as_u32 sucz
as_i32-suc h m small le =
    ap (λ b. as_u32 (sucz (if b then pos h else negsuc (2 ^ 32 - h - 1))))
      (lt→ltb h (2 ^ 31) (omega arith))

-- The first height above a checkpoint is the height to resume from.
first_above-resume_of :
    (cp : Option CheckpointData) (m : ℕ)
    → IsHeight (checkpoint_height cp)
    → m + 1 < 2 ^ 31
    → ltz (checkpoint_height cp) (as_i32 m) ≡ true
    → (first_above (checkpoint_height cp) ≡ resume_of cp)
      × (as_u32 (sucz (checkpoint_height cp)) ≡ resume_of cp)
      × (resume_of cp ≤ m)
unfolding resume_of as_u32 sucz ltz as_i32
first_above-resume_of none m height small below = (refl, refl, omega arith)
first_above-resume_of (some c) m (inl e) small below = rw e (refl, refl, omega arith)
first_above-resume_of (some c) m (inr (k, e)) small below =
    let under : k < m = below_pos k m small (rw e at below) in
    rw (e, resume_pos k) (mod-eq_of_lt (omega arith) ∙ omega arith, refl, omega arith)

module _ (now : ℤ) (s : MockStorage) (m : ℕ) (highest : max_height s.tables.blocks ≡ some m)
    (height : IsHeight (checkpoint_height s.tables.checkpoint)) (small : m + 1 < 2 ^ 31)
    (beyond : ltz (checkpoint_height s.tables.checkpoint) (as_i32 m) ≡ true) where
  abbrev W : GraphWriter
  W = mock_writer now

  abbrev low : ℕ
  low = resume_of s.tables.checkpoint

  abbrev walked : MockStorage × Result WriterError (Option ℕ)
  walked = walk_back W (suc m - low) low s

  sync_walk :
      sync_checkpoint_with_db W now s
      ≡ and_then (λ found. move_checkpoint W now s.tables.checkpoint found) walked
  unfolding sync_checkpoint_with_db sync_above get_checkpoint get_max_block_height
  sync_walk =
      rw (highest, beyond, (first_above-resume_of s.tables.checkpoint m height small beyond).0) refl

  -- What was done when the height `r` is returned, in the state `s'`.
  abbrev SyncedTo : ℕ → MockStorage → Type 0
  SyncedTo r s' =
      ((r ≡ low)
        ⊎ ((h : ℕ) × (r ≡ suc h)
            × (low ≤ h)
            × (h ≤ m)
            × ((counts : ℕ × ℕ) × ((check_block_complete h s').1 ≡ ok counts)
                × (is_complete counts ≡ true))))
      × ((g : ℕ) → r ≤ g → g ≤ m → Removed g s s')
      × ((g : ℕ) → g < r → Kept g s s')

  -- From the walk, by a change of the checkpoint alone.
  Walked-SyncedTo :
      (found : Option ℕ) (r : ℕ) (t s' : MockStorage)
      → Walked low (suc m) s t found
      → SameRows t s'
      → r ≡ resumes_at low found
      → ((g : ℕ) → r ≤ g → g ≤ m → Removed g s s') × ((g : ℕ) → g < r → Kept g s s')
  Walked-SyncedTo found r t s' h rows at = (
    λ g ge le. SameRows-Removed g s t s' rows (h.removed g (omega (arith, at)) (omega arith)),
    λ g lt. SameRows-Kept g s t s' rows (h.kept g (omega (arith, at))),
  )

  sync_end :
      (found : Option ℕ) (r : ℕ) (t : MockStorage)
      → Walked low (suc m) s t found
      → (move_checkpoint W now s.tables.checkpoint found t).1 ≡ ok r
      → SyncedTo r (move_checkpoint W now s.tables.checkpoint found t).0
  sync_end none r t h e =
      let cp = s.tables.checkpoint in
      let at = move_checkpoint-none now cp t in
      let start = (first_above-resume_of cp m height small beyond).1 in
      let same : r ≡ low = sym (ok-inj _ _ (sym (ap (λ p. p.1) at) ∙ e)) ∙ start in
      let (gone, kept) = Walked-SyncedTo none r t t h (refl, refl) same in
      rw at (inl same, gone, kept)
  sync_end (some k) r t h e =
      let (same, rows) = move_checkpoint-some now s.tables.checkpoint k r t e in
      let (above, below, (counts, complete, full)) = h.stopped k refl in
      let next : r ≡ suc k = same ∙ as_i32-suc k m small (omega arith) in
      let (gone, kept) = Walked-SyncedTo (some k) r t _ h rows next in
      (
        inr (k, next, above, omega arith, (counts, SameRows-complete k t _ rows ∙ complete, full)),
        gone,
        kept,
      )

  -- On the in-memory database, with a highest block `m` below 2^31 - 1 that is beyond the
  -- checkpoint (a height, -1, or none). When the synchronisation succeeds, it returns the height
  -- after a complete block beyond the checkpoint, or the height to resume from by the checkpoint.
  -- Every block from the returned height up to `m` was not complete and is gone, and the blocks below
  -- the returned height are as they were, for both queries.
  pub sync_checkpoint_with_db_lem :
      (r : ℕ)
      → (sync_checkpoint_with_db W now s).1 ≡ ok r
      → let s' = (sync_checkpoint_with_db W now s).0 in
        ((r ≡ resume_of s.tables.checkpoint)
          ⊎ ((h : ℕ) × (r ≡ suc h)
              × (resume_of s.tables.checkpoint ≤ h)
              × (h ≤ m)
              × ((counts : ℕ × ℕ) × ((check_block_complete h s').1 ≡ ok counts)
                  × (is_complete counts ≡ true))))
        × ((g : ℕ) → r ≤ g → g ≤ m → Removed g s s')
        × ((g : ℕ) → g < r → Kept g s s')
  sync_checkpoint_with_db_lem r e =
      let finish = λ (found : Option ℕ). move_checkpoint W now s.tables.checkpoint found in
      let step : (and_then finish walked).1 ≡ ok r = sym (ap (λ p. p.1) sync_walk) ∙ e in
      rw sync_walk (elim (Result-cases walked.1) [
        | inr (f, failed) ↦
            absurd (err-ok f r (sym (ap (λ a. (and_then finish (walked.0, a)).1) failed) ∙ step))
        | inl (found, got) ↦
            let last : and_then finish walked ≡ finish found walked.0 =
              ap (λ a. and_then finish (walked.0, a)) got in
            let fits = (first_above-resume_of s.tables.checkpoint m height small beyond).2 in
            let top : low + (suc m - low) ≡ suc m = omega (arith, fits) in
            rw last (
              sync_end found r walked.0
                (subst (λ n. Walked low n s walked.0 found) top
                  (walk_back-Walked now (suc m - low) low s found got))
                (sym (ap (λ p. p.1) last) ∙ step))
      ])
