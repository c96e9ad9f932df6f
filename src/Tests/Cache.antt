-- ===== src/Tests/Cache.antt =====
-- The theorems on the cache at concrete inputs.
use mathlib.Core.Logic.{if_neg}
use bitcoin_chain_graph.Common.{
  ℕ, zero, suc, ◌<◌, ◌≡◌, ◌≢◌, refl, sym, ap, ◌∙◌, Bool, true, false, ◌&&◌, not, List, [], ◌∷◌,
  none, some, length, arith, ite, ltb, if◌then◌else◌, All, replicate, ℕ_discrete,
}
use bitcoin_chain_graph.Common.Assoc
use bitcoin_chain_graph.Common.Result.{ok, err}
use bitcoin_chain_graph.Writer.Error.{query_failed, cache_miss}
use bitcoin_chain_graph.Utxo.Key.{UtxoKey, UtxoKey-discrete as dec, IsKey, shard_index}
use bitcoin_chain_graph.Utxo.OutputId.{to_output_id_string, to_output_id_string-injective}
use bitcoin_chain_graph.Utxo.Stats.{StatsOk, record_hit, record_miss, record_insert}
use bitcoin_chain_graph.Utxo.Cache.{
  found_get, is_some, insert, insert_prewarm, get, shard, get_many, remove_many,
}
use bitcoin_chain_graph.Utxo.Cache.Shards.{ShardsOk, find}
use bitcoin_chain_graph.Utxo.Cache.Single.{insert-ShardsOk, insert_prewarm_lem, get-find}
use bitcoin_chain_graph.Utxo.Cache.Groups.{member}
use bitcoin_chain_graph.Utxo.Cache.Batch.{get_many-find}
use bitcoin_chain_graph.Utxo.Cache.Removal.{remove_many-find}
use bitcoin_chain_graph.Tests.Instances.{
  list_lru, twice_text, key, coin, cache1, cache2, cache2-ShardsOk,
}

-- The third entry of a shard with room for two.
insert-ShardsOk_example : ShardsOk list_lru (insert list_lru (key 33) (coin 9) cache2).shards
insert-ShardsOk_example = insert-ShardsOk list_lru cache2 (key 33) cache2-ShardsOk (coin 9)

other_key : key 17 ≢ key 33
other_key e = absurd (distinct (ap (λ k. k.vout) e))
  where
    distinct : Path ℕ 17 33 → ⊥
    distinct h = omega arith

kept : find list_lru (insert list_lru (key 33) (coin 9) cache2).shards (key 17) ≡ some (coin 7)
unfolding find insert shard shard_index Assoc.lookup Assoc.remove dec ℕ_discrete
kept = refl

room :
    length ((shard list_lru cache1 (shard_index (key 17))).entries)
    < (shard list_lru cache1 (shard_index (key 17))).room
unfolding shard shard_index insert Assoc.remove
room = omega arith

insert_prewarm_lem_example :
    ShardsOk list_lru (insert_prewarm list_lru (key 33) (coin 9) cache2).0.shards
    × ((insert_prewarm list_lru (key 33) (coin 9) cache2).1
        ≡ ltb
            (length (shard list_lru cache2 (shard_index (key 33))).entries)
            (shard list_lru cache2 (shard_index (key 33))).room)
    × (find list_lru (insert_prewarm list_lru (key 33) (coin 9) cache2).0.shards (key 1) ≡ (
        if (insert_prewarm list_lru (key 33) (coin 9) cache2).1
        then ite (dec (key 1) (key 33)) (some (coin 9)) (find list_lru cache2.shards (key 1))
        else find list_lru cache2.shards (key 1)))
insert_prewarm_lem_example =
    insert_prewarm_lem list_lru cache2 (key 33) cache2-ShardsOk (coin 9) (key 1)

get-find_example :
    ShardsOk list_lru (get list_lru twice_text (key 1) cache2).0.shards
    × (find list_lru (get list_lru twice_text (key 1) cache2).0.shards (key 17)
        ≡ find list_lru cache2.shards (key 17))
    × ((get list_lru twice_text (key 1) cache2).1 ≡ elim (find list_lru cache2.shards (key 1)) [
      | some output ↦ ok output
      | none ↦ err (query_failed (cache_miss (to_output_id_string twice_text (key 1))))
    ])
    × ((get list_lru twice_text (key 1) cache2).0.stats ≡ (
        if is_some (find list_lru cache2.shards (key 1))
        then record_hit cache2.stats
        else record_miss cache2.stats))
get-find_example = get-find list_lru twice_text cache2 (key 1) (key 17) cache2-ShardsOk

cache2-StatsOk : StatsOk cache2.stats
unfolding insert record_insert
cache2-StatsOk = record {
  hits_u64 = omega arith;
  misses_u64 = omega arith;
  inserts_u64 = omega arith;
  removals_u64 = omega arith;
  neo4j_fallbacks_u64 = omega arith;
}

-- Two keys of one shard, one of another, and one that is absent.
abbrev asked : List UtxoKey
asked = key 1 ∷ key 2 ∷ key 17 ∷ []

get_many-find_example :
    ShardsOk list_lru (get_many list_lru asked cache2).0.shards
    × (find list_lru (get_many list_lru asked cache2).0.shards (key 17)
        ≡ find list_lru cache2.shards (key 17))
    × (found_get (key 17) (get_many list_lru asked cache2).1
        ≡ (if member (key 17) asked then find list_lru cache2.shards (key 17) else none))
    × (member (key 17) (get_many list_lru asked cache2).2
        ≡ (member (key 17) asked && not (is_some (find list_lru cache2.shards (key 17)))))
get_many-find_example = get_many-find list_lru asked cache2 cache2-ShardsOk cache2-StatsOk (key 17)

there : find list_lru cache2.shards (key 17) ≡ some (coin 7)
unfolding find insert shard shard_index Assoc.lookup Assoc.remove dec ℕ_discrete
there = refl

all_there :
    (q : UtxoKey) → member q (key 17 ∷ []) ≡ true → is_some (find list_lru cache2.shards q) ≡ true
unfolding member
all_there q asked_for = elim (dec q (key 17)) [
  | yes e ↦ rw (e, there) refl
  | no ne ↦ absurd (false-true (sym (if_neg (dec q (key 17)) ne true false) ∙ asked_for))
]
  where
    false-true : Path Bool false true → ⊥
    false-true h = cc

key-IsKey : IsKey (key 17)
key-IsKey = record { txid_length = refl; txid_bytes = zeros 32; vout_u32 = omega arith }
  where
    zeros : (n : ℕ) → All (λ (b : ℕ). b < 256) (replicate n 0)
    zeros zero = tt
    zeros (suc n) = (omega arith, zeros n)

to_output_id_string-injective_example : key 17 ≡ key 17
to_output_id_string-injective_example =
    to_output_id_string-injective twice_text (key 17) (key 17) key-IsKey key-IsKey refl

remove_many-find_example :
    ShardsOk list_lru (remove_many list_lru asked cache2).shards
    × (find list_lru (remove_many list_lru asked cache2).shards (key 17)
        ≡ (if member (key 17) asked then none else find list_lru cache2.shards (key 17)))
remove_many-find_example = remove_many-find list_lru asked cache2 (key 17) cache2-ShardsOk
