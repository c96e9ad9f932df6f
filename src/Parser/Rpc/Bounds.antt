-- ===== src/Parser/Rpc/Bounds.antt =====
-- About `get_block_batch` (src/parser/rpc_provider.rs): the heights of the blocks it gives, whatever
-- the node answers.
use mathlib.Core.Path.{subst}
use bitcoin_chain_graph.Common.{
  ℕ, ◌+◌, ◌%◌, ◌^◌, ◌≤◌, ◌<◌, ◌≡◌, refl, sym, ◌∙◌, true, List, [], ◌∷◌, All, Option, none, some,
  arith, ltb, ltb→lt, and-true, inl, inr,
}
use bitcoin_chain_graph.Common.Context.{AnyError, codes}
use bitcoin_chain_graph.Common.Result.{Result, Result-cases, ok, err, ok-inj, err-ok}
use bitcoin_chain_graph.Common.Sort.{sort_by_key, sort_by_key-All}
use bitcoin_chain_graph.Parser.Bitcoin.{BitcoinCrate}
use bitcoin_chain_graph.Ingestion.Amounts.{Item}
use bitcoin_chain_graph.Parser.Rpc.{RpcCrates, RpcBlockProvider, get_block}
use bitcoin_chain_graph.Parser.Rpc.Batch.{fetch_all, collect_blocks, numbers_from, get_block_batch}
use bitcoin_chain_graph.Parser.Rpc.Missing.{get_block-some}
use bitcoin_chain_graph.Parser.Rpc.Order.{all_below, all_below-perm, all_below-numbers_from}

module _ {I : Type 0} (InBatch : I → Type 0) where
  -- A call that succeeds gives such a block.
  abbrev Good : Result AnyError (Option I) → Type 0
  Good r = (o : Option I) → r ≡ ok o → (b : I) × (o ≡ some b) × InBatch b

  collect_blocks-All :
      (results : List (Result AnyError (Option I))) (bs : List I)
      → All Good results
      → collect_blocks results ≡ ok bs
      → All InBatch bs
  unfolding collect_blocks
  collect_blocks-All [] bs good h = subst (All InBatch) (ok-inj _ _ h) tt
  collect_blocks-All (ok none ∷ results) bs good h =
      let (b, there, fine) = good.0 none refl in absurd (cc)
  collect_blocks-All (ok (some block) ∷ results) bs good h =
      elim (Result-cases (collect_blocks results)) [
        | inl (rest, e) ↦
            let (b, there, fine) = good.0 (some block) refl in
            let all : bs ≡ block ∷ rest = sym (ok-inj _ _ (rw e at h)) in
            let same : b ≡ block = cc in
            rw all (subst InBatch same fine, collect_blocks-All results rest good.1 e)
        | inr (x, e) ↦ absurd (err-ok x bs (rw e at h))
      ]
  collect_blocks-All (err e ∷ results) bs good h = absurd (err-ok e bs h)

module _ {B : BitcoinCrate} (R : RpcCrates B) (P : RpcBlockProvider) where
  -- Of the heights that were asked for.
  abbrev pub Between : ℕ → ℕ → Item B → Type 0
  Between start count b = (start ≤ b.0) × (b.0 < start + count)

  fetch_all-Good :
      (start count : ℕ) (os : List ℕ) (net : R.Net)
      → start + count ≤ 2 ^ 32
      → all_below count os ≡ true
      → All (Good (Between start count)) (fetch_all R P start os net).1
  unfolding fetch_all all_below
  fetch_all-Good start count [] net fits below = tt
  fetch_all-Good start count (o ∷ os) net fits below =
      let (low, rest) = and-true (ltb o count) (all_below count os) below in
      let small : o < count = ltb→lt o count low in
      let h = (start + o) % 2 ^ 32 in
      let plain : h ≡ start + o = omega arith in
      (
        λ found e.
            let (block, there) = get_block-some R P h net found e in
            ((h, block, codes "rpc"), there, (omega arith, omega arith)),
        fetch_all-Good start count os (get_block R P h net).0 fits rest,
      )

  -- The heights of the blocks are those that were asked for, whatever the node answers.
  pub get_block_batch-Between :
      (start count : ℕ) (net : R.Net) (blocks : List (Item B))
      → 0 < P.max_concurrent
      → start + count ≤ 2 ^ 32
      → count < 2 ^ 32
      → (get_block_batch R P start count net).1 ≡ ok blocks
      → All (Between start count) blocks
  unfolding get_block_batch
  get_block_batch-Between start count net blocks some_calls fits small e =
      let plain : count % 2 ^ 32 ≡ count = omega arith in
      let os = R.buffer_unordered P.max_concurrent (numbers_from 0 (count % 2 ^ 32)) in
      let perm =
        R.buffer_unordered-perm P.max_concurrent (numbers_from 0 (count % 2 ^ 32)) some_calls in
      let below =
        all_below-perm count perm ∙ all_below-numbers_from count 0 (count % 2 ^ 32) (omega arith) in
      let good = fetch_all-Good start count os net fits below in
      let results = (fetch_all R P start os net).1 in
      elim (Result-cases (collect_blocks results)) [
        | inl (found, got) ↦
            let sorted : sort_by_key (λ (b : Item B). b.0) found ≡ blocks =
              ok-inj _ _ (rw got at e) in
            subst (All (Between start count)) sorted (
              sort_by_key-All (λ (b : Item B). b.0) (Between start count) found
                (collect_blocks-All (Between start count) results found good got))
        | inr (x, got) ↦ absurd (err-ok x blocks (rw got at e))
      ]
