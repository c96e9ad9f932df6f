-- ===== src/Tests/Instances.antt =====
-- Concrete functions for the crates that the code calls: a list of entries with its capacity, a
-- checksum that adds, and a text that writes each byte twice.
use bitcoin_chain_graph.Common.{
  ℕ, ◌+◌, ◌%◌, ◌^◌, ◌≡◌, refl, ap, List, [], ◌∷◌, some, length, take, replicate, false, arith,
}
use bitcoin_chain_graph.Common.Assoc.{lookup, remove}
use bitcoin_chain_graph.Utxo.Key.{Bytes, UtxoKey, UtxoKey-discrete as dec, num_shards}
use bitcoin_chain_graph.Utxo.Output.{CachedOutput, p2pkh}
use bitcoin_chain_graph.Utxo.OutputId.{TxidText}
use bitcoin_chain_graph.Utxo.Lru.{LruCrate}
use bitcoin_chain_graph.Utxo.Lru.Entries.{Entry, promote}
use bitcoin_chain_graph.Utxo.File.{Crc32}
use bitcoin_chain_graph.Utxo.Stats.{new_stats}
use bitcoin_chain_graph.Utxo.Cache.{UtxoCache, insert}
use bitcoin_chain_graph.Utxo.Cache.Shards.{ShardsOk}
use bitcoin_chain_graph.Utxo.Cache.Single.{insert-ShardsOk}
use bitcoin_chain_graph.Utxo.Cache.Bounds.{replicate-ShardsOk}

-- Entries, the most recent first, and the capacity.
pub record ListCache : Type 0 where
  pub entries : List Entry
  pub room : ℕ

abbrev pub list_lru : LruCrate
list_lru = record {
  LruCache = ListCache;
  new = λ n. record { entries = []; room = n };
  put = λ k v c. record c { entries = take c.room ((k, v) ∷ remove dec k c.entries) };
  get = λ k c. (record c { entries = promote k c.entries }, lookup dec k c.entries);
  peek = λ k c. lookup dec k c.entries;
  pop = λ k c. (record c { entries = remove dec k c.entries }, lookup dec k c.entries);
  len = λ c. length c.entries;
  cap = λ c. c.room;
  iter = λ c. c.entries;
  iter-new = λ n. refl;
  cap-new = λ n. refl;
  iter-put = λ k v c. refl;
  cap-put = λ k v c. refl;
  get_lem = λ k c. refl;
  iter-get = λ k c. refl;
  cap-get = λ k c. refl;
  peek_lem = λ k c. refl;
  pop_lem = λ k c. refl;
  iter-pop = λ k c. refl;
  cap-pop = λ k c. refl;
  len_lem = λ c. refl;
}

unfoldable pub twice : Bytes → Bytes
twice [] = []
twice (b ∷ bs) = b ∷ b ∷ twice bs

unfoldable pub halve : Bytes → Bytes
halve [] = []
halve (b ∷ []) = []
halve (b ∷ c ∷ bs) = b ∷ halve bs

pub halve-twice : (bs : Bytes) → halve (twice bs) ≡ bs
unfolding twice halve
halve-twice [] = refl
halve-twice (b ∷ bs) = ap (◌∷◌ b) (halve-twice bs)

pub length-twice : (bs : Bytes) → length (twice bs) ≡ length bs + length bs
unfolding twice
length-twice [] = omega arith
length-twice (b ∷ bs) = omega (arith, length-twice bs)

abbrev pub twice_text : TxidText
twice_text = record {
  to_hex = twice;
  from_hex = λ t. some (halve t);
  from_hex-to_hex = λ t size. ap some (halve-twice t);
  length-to_hex = λ t size. omega (arith, length-twice t, size);
}

unfoldable pub sum : Bytes → ℕ
sum [] = 0
sum (b ∷ bs) = b + sum bs

abbrev pub sum_crc : Crc32
sum_crc = record {
  Hasher = ℕ;
  new = 0;
  update = λ h bs. h + sum bs;
  finalize = λ h. h % 2 ^ 32;
  finalize-u32 = λ h. omega arith;
}

-- A key of the shard of its number.
abbrev pub key : ℕ → UtxoKey
key n = record { txid = replicate 32 0; vout = n }

abbrev pub coin : ℕ → CachedOutput
coin amount = record {
  output_index = 0;
  amount = amount;
  script_type = p2pkh;
  address = some (b'a' ∷ b'b' ∷ []);
}

-- Sixteen empty shards with room for two entries each.
abbrev pub cache0 : UtxoCache ListCache
cache0 = record {
  shards = replicate num_shards (record { entries = []; room = 2 });
  stats = new_stats;
  prewarm_mode = false;
}

pub cache0-ShardsOk : ShardsOk list_lru cache0.shards
cache0-ShardsOk = replicate-ShardsOk list_lru 2 (omega arith)

-- One entry.
abbrev pub cache1 : UtxoCache ListCache
cache1 = insert list_lru (key 1) (coin 5) cache0

pub cache1-ShardsOk : ShardsOk list_lru cache1.shards
cache1-ShardsOk = insert-ShardsOk list_lru cache0 (key 1) cache0-ShardsOk (coin 5)

-- Two entries of one shard, which is full.
abbrev pub cache2 : UtxoCache ListCache
cache2 = insert list_lru (key 17) (coin 7) cache1

pub cache2-ShardsOk : ShardsOk list_lru cache2.shards
cache2-ShardsOk = insert-ShardsOk list_lru cache1 (key 17) cache1-ShardsOk (coin 7)
