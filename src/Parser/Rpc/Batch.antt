-- ===== src/Parser/Rpc/Batch.antt =====
-- `get_block_batch` of `RpcBlockProvider` (src/parser/rpc_provider.rs).
use bitcoin_chain_graph.Common.{ℕ, zero, suc, ◌+◌, ◌%◌, ◌^◌, List, [], ◌∷◌, Option, none, some}
use bitcoin_chain_graph.Common.Context.{AnyError}
use bitcoin_chain_graph.Common.Exec.{Exec}
use bitcoin_chain_graph.Common.Result.{Result, ok, err}
use bitcoin_chain_graph.Common.Sort.{sort_by_key}
use bitcoin_chain_graph.Parser.Bitcoin.{BitcoinCrate}
use bitcoin_chain_graph.Ingestion.Amounts.{Item}
use bitcoin_chain_graph.Parser.Rpc.{RpcCrates, RpcBlockProvider, get_block}

-- `for result in results`: the first error ends it, and a block that is missing is passed over.
unfoldable pub collect_blocks {ℓ} :
    {A : Type ℓ} → List (Result AnyError (Option A)) → Result AnyError (List A)
collect_blocks [] = ok []
collect_blocks (ok none ∷ results) = collect_blocks results
collect_blocks (ok (some block) ∷ results) = elim (collect_blocks results) [
  | ok blocks ↦ ok (block ∷ blocks)
  | err e ↦ err e
]
collect_blocks (err e ∷ results) = err e

-- `0..count`, from a first number.
unfoldable pub numbers_from : ℕ → ℕ → List ℕ
numbers_from first zero = []
numbers_from first (suc n) = first ∷ numbers_from (suc first) n

module _ {B : BitcoinCrate} (R : RpcCrates B) (P : RpcBlockProvider) where
  open R use {Net}

  -- The offsets, in the order of completion.
  unfoldable pub fetch_all : ℕ → List ℕ → Net → Net × List (Result AnyError (Option (Item B)))
  unfolding get_block
  fetch_all start_height [] net = (net, [])
  fetch_all start_height (offset ∷ offsets) net =
      let result = get_block R P ((start_height + offset) % 2 ^ 32) net in
      let rest = fetch_all start_height offsets result.0 in (rest.0, result.1 ∷ rest.1)

  abbrev pub sorted_blocks : Result AnyError (List (Item B)) → Result AnyError (List (Item B))
  unfolding sort_by_key
  sorted_blocks (ok blocks) = ok (sort_by_key (λ (b : Item B). b.0) blocks)
  sorted_blocks (err e) = err e

  -- A block is fetched as a whole when it completes. With `max_concurrent` 0 nothing ever completes.
  unfoldable pub get_block_batch : ℕ → ℕ → Exec R.Net AnyError (List (Item B))
  unfolding fetch_all collect_blocks numbers_from sorted_blocks
  get_block_batch start_height count net =
      let offsets = R.buffer_unordered P.max_concurrent (numbers_from 0 (count % 2 ^ 32)) in
      let results = fetch_all start_height offsets net in
      (results.0, sorted_blocks (collect_blocks results.1))
