-- ===== src/Tests/Writer.antt =====
-- The theorems on the in-memory database and on the look-ups that fall back to it at concrete
-- inputs.
use bitcoin_chain_graph.Common.{
  ℕ, ◌≡◌, ◌≢◌, ◌⊎◌, refl, true, List, [], ◌∷◌, map, none, some, arith, ℕ_discrete,
}
use bitcoin_chain_graph.Common.Assoc
use bitcoin_chain_graph.Common.Int.{pos}
use bitcoin_chain_graph.Common.Result.{ok, err}
use bitcoin_chain_graph.Writer.Error.{query_failed, block_not_found, text}
use bitcoin_chain_graph.Writer.Data.{OutputLookupResult}
use bitcoin_chain_graph.Writer.Mock.{
  Method, MockStorage, method_insert, set_failure_on, set_lookup_outputs_response,
}
use bitcoin_chain_graph.Writer.Mock.Writes.{
  check_after, check_transient, check_failure, guarded, write_blocks, write_transactions,
}
use bitcoin_chain_graph.Writer.Mock.Queries.{
  lookup_outputs_batch, lookup_block_hash, check_block_complete, rollback_block,
}
use bitcoin_chain_graph.Writer.Mock.Session.{begin_transaction, rollback_transaction}
use bitcoin_chain_graph.Writer.Mock.Calls.{Call, blocks, transactions_fast, call, calls}
use bitcoin_chain_graph.Writer.Mock.Instance.{mock_writer}
use bitcoin_chain_graph.Writer.Mock.Rollback.{rollback_block_lem}
use bitcoin_chain_graph.Utxo.Key.{UtxoKey, UtxoKey-discrete as dec, shard_index}
use bitcoin_chain_graph.Utxo.Output.{CachedOutput}
use bitcoin_chain_graph.Utxo.OutputId.{to_output_id_string}
use bitcoin_chain_graph.Utxo.Stats.{StatsOk, record_insert}
use bitcoin_chain_graph.Utxo.Cache.{FoundMap, found_get, get_many, insert, shard}
use bitcoin_chain_graph.Utxo.Cache.Shards.{find}
use bitcoin_chain_graph.Utxo.Cache.Groups.{member}
use bitcoin_chain_graph.Utxo.Fallback.{result_get, cached_of, fallback, get_many_with_fallback}
use bitcoin_chain_graph.Utxo.Fallback.Sources.{get_many_with_fallback-ok}
use bitcoin_chain_graph.Tests.Database.{block, coinbase, stored}
use bitcoin_chain_graph.Tests.Instances.{
  list_lru, twice, twice_text, key, coin, cache1, cache1-ShardsOk,
}

-- A write and a failing one.
abbrev written : List Call
written = blocks (block 3 1 ∷ []) ∷ transactions_fast (coinbase 3 ∷ []) ∷ []

abbrev refusing : MockStorage
refusing = set_failure_on Method.write_transactions_fast (query_failed (text [])) stored

began : (begin_transaction refusing).1 ≡ ok tt
unfolding begin_transaction guarded check_failure check_transient check_after set_failure_on
    method_insert
began = refl

undone : (rollback_transaction (calls written (begin_transaction refusing).0)).1 ≡ ok tt
unfolding rollback_transaction guarded check_failure check_transient check_after set_failure_on
    method_insert calls call begin_transaction write_blocks write_transactions
undone = refl

one_two : ◌≢◌ {A = ℕ} 2 1
one_two e = absurd (distinct e)
  where
    distinct : Path ℕ 2 1 → ⊥
    distinct h = omega arith

rollback_block_lem_example :
    ((lookup_block_hash 2 (rollback_block 2 stored).0).1 ≡ ok none)
    × ((check_block_complete 2 (rollback_block 2 stored).0).1
        ≡ err (query_failed (block_not_found 2)))
    × ((lookup_block_hash 1 (rollback_block 2 stored).0).1 ≡ (lookup_block_hash 1 stored).1)
    × ((check_block_complete 1 (rollback_block 2 stored).0).1 ≡ (check_block_complete 1 stored).1)
rollback_block_lem_example = rollback_block_lem stored 2 1 one_two

-- A cached key, and one that only the database has.
abbrev asked : List UtxoKey
asked = key 1 ∷ key 2 ∷ []

abbrev row : OutputLookupResult
row = record {
  output_id = to_output_id_string twice_text (key 2);
  output_index = 2;
  amount = 900;
  script_type = "P2WPKH";
  address = none;
}

abbrev answering : MockStorage
answering = set_lookup_outputs_response (row ∷ []) stored

cache1-StatsOk : StatsOk cache1.stats
unfolding insert record_insert
cache1-StatsOk = record {
  hits_u64 = omega arith;
  misses_u64 = omega arith;
  inserts_u64 = omega arith;
  removals_u64 = omega arith;
  neo4j_fallbacks_u64 = omega arith;
}

abbrev both : FoundMap
both = (key 1, coin 5) ∷ (key 2, cached_of row) ∷ []

fallback-run :
    (get_many_with_fallback list_lru twice_text (mock_writer (pos 0)) asked (answering, cache1)).1
    ≡ ok both
unfolding get_many_with_fallback fallback shard_index Assoc.lookup shard dec ℕ_discrete
    lookup_outputs_batch check_failure set_lookup_outputs_response to_output_id_string twice
    Assoc.insert
fallback-run = refl

two-asked : member (key 2) asked ≡ true
unfolding member dec ℕ_discrete
two-asked = refl

get_many_with_fallback-ok_example :
    (v : CachedOutput) × (found_get (key 2) both ≡ some v)
    × ((find list_lru cache1.shards (key 2) ≡ some v)
        ⊎ ((find list_lru cache1.shards (key 2) ≡ none)
            × ((rows : List OutputLookupResult) × ((lookup_outputs_batch
                    (map (to_output_id_string twice_text) (get_many list_lru asked cache1).2)
                    answering).1
                  ≡ ok rows)
                × ((r : OutputLookupResult) × (result_get rows
                        (to_output_id_string twice_text (key 2))
                      ≡ some r)
                    × (v ≡ cached_of r)))))
get_many_with_fallback-ok_example =
    get_many_with_fallback-ok list_lru twice_text (mock_writer (pos 0)) asked cache1 answering
      cache1-ShardsOk cache1-StatsOk both (key 2) fallback-run two-asked
