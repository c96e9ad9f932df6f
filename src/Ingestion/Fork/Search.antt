-- ===== src/Ingestion/Fork/Search.antt =====
-- About `find_fork_point` (src/main.rs), on the in-memory database and a node that answers with the
-- hashes of some chain.
use mathlib.Core.Path.{subst}
use bitcoin_chain_graph.Common.Context.{AnyError}
use bitcoin_chain_graph.Common.{
  ℕ, zero, suc, ◌<◌, ◌≡◌, ◌≢◌, ◌⊎◌, inl, inr, refl, sym, ap, ◌∙◌, Option, none, some, arith, Bool,
  true, false, Bool-cases, if◌then◌else◌, ℕ_discrete,
}
use bitcoin_chain_graph.Common.Result.{Result, ok, err, ok-inj, err-ok}
use bitcoin_chain_graph.Common.Int.{ℤ}
use bitcoin_chain_graph.Common.Exec.{Exec, return}
use bitcoin_chain_graph.Writer.Data.{Text}
use bitcoin_chain_graph.Writer.Mock.{MockStorage}
use bitcoin_chain_graph.Writer.Mock.Queries.{text_eq, lookup_block_hash}
use bitcoin_chain_graph.Writer.Mock.Instance.{mock_writer}
use bitcoin_chain_graph.Ingestion.Resume.Reorg.{text_eq→≡, text_eq_refl}
use bitcoin_chain_graph.Ingestion.Fork.{
  LiveError, no_fork_point, agrees, fork_loop, find_fork_point,
}

agrees_yes : (o : Option Text) (t : Text) → agrees o t ≡ true → o ≡ some t
unfolding agrees
agrees_yes none t e = absurd (cc)
agrees_yes (some u) t e = ap some (text_eq→≡ u t e)

agrees_no : (o : Option Text) (t : Text) → agrees o t ≡ false → o ≢ some t
unfolding agrees
agrees_no none t e same = cc
agrees_no (some u) t e same =
    let at : u ≡ t = cc in
    let yes : agrees (some u) t ≡ true =
      subst (λ x. text_eq x t ≡ true) (sym at) (text_eq_refl t) in
    true-false (sym yes ∙ e)
  where
    true-false : Path Bool true false → ⊥
    true-false h = cc

module _ (now : ℤ) {Node : Type 0} (get_block_hash : ℕ → Exec Node AnyError Text) (chain : ℕ → Text)
    (answers : (height : ℕ) (node : Node)
      → (get_block_hash height node).1 ≡ ok (chain height)) where
  -- The database has the block of the chain at this height.
  abbrev pub Agrees : MockStorage → ℕ → Type 0
  Agrees s height = (lookup_block_hash height s).1 ≡ ok (some (chain height))

  choose :
      (height : ℕ) (o : Option Text) (t : MockStorage × Node)
      → (MockStorage × Node) × Result LiveError ℕ
  unfolding fork_loop
  choose height o t =
      (if agrees o (chain height)
          then return height
          else fork_loop (mock_writer now) get_block_hash height)
        t

  fork_loop-choose :
      (height : ℕ) (s : MockStorage) (node : Node)
      → (o : Option Text) × ((lookup_block_hash height s).1 ≡ ok o)
        × (fork_loop (mock_writer now) get_block_hash (suc height) (s, node)
            ≡ choose height o (s, (get_block_hash height node).0))
  unfolding fork_loop choose lookup_block_hash
  fork_loop-choose height s node = (_, refl, rw (fork_loop, answers height node) refl)

  -- The highest agreeing height below `n`, or none.
  Found : ℕ → MockStorage → (MockStorage × Node) × Result LiveError ℕ → Type 0
  Found n s r =
      (r.0.0 ≡ s)
      × (((fork : ℕ) × (r.1 ≡ ok fork)
            × (fork < n)
            × Agrees s fork
            × ((h : ℕ) → fork < h → h < n → ¬ (Agrees s h)))
          ⊎ ((r.1 ≡ err no_fork_point) × ((h : ℕ) → h < n → ¬ (Agrees s h))))

  differs :
      (height : ℕ) (s : MockStorage) (o : Option Text)
      → (lookup_block_hash height s).1 ≡ ok o
      → agrees o (chain height) ≡ false
      → (h : ℕ) → h ≡ height
      → ¬ (Agrees s h)
  differs height s o e other h same there =
      agrees_no o (chain height) other (ok-inj _ _ (sym e ∙ subst (λ m. Agrees s m) same there))

  extend :
      (P : ℕ → Type 0) (n : ℕ) (Q : ℕ → Type 0)
      → ((h : ℕ) → h ≡ n → Q h)
      → ((h : ℕ) → P h → h < n → Q h)
      → (h : ℕ) → P h
      → h < suc n
      → Q h
  extend P n Q top below h p low = elim (ℕ_discrete h n) [
    | yes e ↦ top h e
    | no ne ↦ below h p (omega arith)
  ]

  Found-suc :
      (n : ℕ) (s : MockStorage) (r : (MockStorage × Node) × Result LiveError ℕ)
      → ((h : ℕ) → h ≡ n → ¬ (Agrees s h))
      → Found n s r
      → Found (suc n) s r
  unfolding Found
  Found-suc n s r top (same, inl (fork, result, low, at, none_above)) = (
    same,
    inl (
      fork,
      result,
      omega arith,
      at,
      extend (λ h. fork < h) n (λ h. ¬ (Agrees s h)) top none_above,
    ),
  )
  Found-suc n s r top (same, inr (result, none_below)) = (
    same,
    inr (
      result,
      λ h low.
          extend (λ k. Unit {0}) n (λ k. ¬ (Agrees s k)) top (λ k u lt. none_below k lt) h tt low,
    ),
  )

  fork_loop-Found :
      (n : ℕ) (s : MockStorage) (node : Node)
      → Found n s (fork_loop (mock_writer now) get_block_hash n (s, node))
  unfolding fork_loop choose Found
  fork_loop-Found zero s node = (refl, inr (refl, λ h low. absurd (omega arith)))
  fork_loop-Found (suc height) s node =
      let (o, e, step) = fork_loop-choose height s node in
      let node1 = (get_block_hash height node).0 in
      elim (Bool-cases (agrees o (chain height))) [
        | inl same ↦
            let done : choose height o (s, node1) ≡ ((s, node1), ok height) =
              rw (choose, same) refl in
            let at : Agrees s height = e ∙ ap ok (agrees_yes o (chain height) same) in
            subst (Found (suc height) s) (sym (step ∙ done))
              (refl, inl (height, refl, omega arith, at, λ h above low. absurd (omega arith)))
        | inr other ↦
            let more : choose height o (s, node1)
                ≡ fork_loop (mock_writer now) get_block_hash height (s, node1) =
              rw (choose, other) refl in
            let rest = fork_loop-Found height s node1 in
            subst (Found (suc height) s) (sym (step ∙ more)) (
              Found-suc height s (fork_loop (mock_writer now) get_block_hash height (s, node1))
                (differs height s o e other) rest)
      ]

  -- On the in-memory database, with a node that answers with the hashes of one chain,
  -- `find_fork_point` leaves the database as it is and returns the highest height up to the given one
  -- at which the database has the block of the chain; if there is none, it returns an error.
  find_fork_point_lem :
      (start_height : ℕ) (s : MockStorage) (node : Node)
      → let r = find_fork_point (mock_writer now) get_block_hash start_height (s, node) in
        (r.0.0 ≡ s)
        × (((fork : ℕ) × (r.1 ≡ ok fork)
              × (fork < suc start_height)
              × Agrees s fork
              × ((h : ℕ) → fork < h → h < suc start_height → ¬ (Agrees s h)))
            ⊎ ((r.1 ≡ err no_fork_point) × ((h : ℕ) → h < suc start_height → ¬ (Agrees s h))))
  unfolding find_fork_point Found
  find_fork_point_lem start_height s node = fork_loop-Found (suc start_height) s node

  the_fork :
      (n fork : ℕ) (s : MockStorage) (r : (MockStorage × Node) × Result LiveError ℕ)
      → r.1 ≡ ok fork
      → Found n s r
      → (r.0.0 ≡ s) × (fork < n) × Agrees s fork × ((h : ℕ) → fork < h → h < n → ¬ (Agrees s h))
  unfolding Found
  the_fork n fork s r e (same, inl (k, result, low, at, none_above)) =
      let here : k ≡ fork = ok-inj _ _ (sym result ∙ e) in
      subst (λ f. (r.0.0 ≡ s) × (f < n) × Agrees s f × ((h : ℕ) → f < h → h < n → ¬ (Agrees s h)))
        here (same, low, at, none_above)
  the_fork n fork s r e (same, inr (result, none_below)) =
      absurd (err-ok no_fork_point fork (sym result ∙ e))

  pub find_fork_point-ok :
      (tip fork : ℕ) (s : MockStorage) (node : Node)
      → (find_fork_point (mock_writer now) get_block_hash tip (s, node)).1 ≡ ok fork
      → ((find_fork_point (mock_writer now) get_block_hash tip (s, node)).0.0 ≡ s)
        × (fork < suc tip)
        × Agrees s fork
        × ((h : ℕ) → fork < h → h < suc tip → ¬ (Agrees s h))
  unfolding find_fork_point
  find_fork_point-ok tip fork s node e =
      the_fork (suc tip) fork s (fork_loop (mock_writer now) get_block_hash (suc tip) (s, node)) e
        (fork_loop-Found (suc tip) s node)
