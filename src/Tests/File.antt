-- ===== src/Tests/File.antt =====
-- The theorems on the cache file at concrete inputs.
use bitcoin_chain_graph.Common.{
  ℕ, zero, suc, ◌^◌, ◌≤◌, ◌<◌, ◌≡◌, refl, sym, ap, ◌∙◌, true, List, [], ◌∷◌, none, some, length,
  get_or, take, drop, replicate, All, arith, ℕ_discrete, get_or-replicate_lt, get_or-set_ne,
}
use bitcoin_chain_graph.Common.Assoc
use bitcoin_chain_graph.Common.Result.{Result, ok, err}
use bitcoin_chain_graph.Utxo.Key.{UtxoKey-discrete, num_shards, shard_index}
use bitcoin_chain_graph.Utxo.Cache.{UtxoCache, insert, shard, cache_len}
use bitcoin_chain_graph.Utxo.Cache.Shards.{ShardsOk, find}
use bitcoin_chain_graph.Utxo.File.{
  IoError, unexpected_eof, all_entries, file_contents, Disk, save_ops, write_ops, save_to_file,
  cache_file_magic, cache_file_version,
}
use bitcoin_chain_graph.Utxo.File.LittleEndian.{from_le_bytes, is_utf8}
use bitcoin_chain_graph.Utxo.File.Load.{bytes_eq, read_exact, read_file, load_from_file}
use bitcoin_chain_graph.Utxo.File.EntryTrip.{EntryOk}
use bitcoin_chain_graph.Utxo.File.Atomic.{save_to_file-fault, save_to_file-done}
use bitcoin_chain_graph.Utxo.File.Reload.{load_from_file-file_contents}
use bitcoin_chain_graph.Utxo.File.LittleEndian.{to_le_bytes}
use bitcoin_chain_graph.Utxo.File.Errors.{load_from_file-ok}
use bitcoin_chain_graph.Utxo.File.CutOff.{load_from_file-cut_off}
use bitcoin_chain_graph.Tests.Instances.{
  ListCache, list_lru, sum_crc, key, coin, cache0, cache0-ShardsOk, cache1, cache2, cache2-ShardsOk,
}

entry-EntryOk : (n a : ℕ) → n < 2 ^ 32 → a < 2 ^ 64 → EntryOk (key n, coin a)
unfolding is_utf8
entry-EntryOk n a hn ha = record {
  key = record { txid_length = refl; txid_bytes = zeros 32; vout_u32 = hn };
  output_index_u32 = omega arith;
  amount_u64 = ha;
  address = record { utf8 = refl; short = omega arith };
}
  where
    zeros : (m : ℕ) → All (λ (b : ℕ). b < 256) (replicate m 0)
    zeros zero = tt
    zeros (suc m) = (omega arith, zeros m)

typed : All EntryOk (all_entries list_lru cache2.shards)
unfolding all_entries insert shard shard_index Assoc.remove UtxoKey-discrete ℕ_discrete
typed = (
  entry-EntryOk 17 7 (omega arith) (omega arith),
  (entry-EntryOk 1 5 (omega arith) (omega arith), tt),
)

small : cache_len list_lru cache2 < 2 ^ 64
unfolding cache_len insert shard shard_index Assoc.remove UtxoKey-discrete ℕ_discrete
small = omega arith

two :
    ((get_or cache0.shards 1 (list_lru.new 1)).entries ≡ [])
    × (length (get_or cache2.shards 1 (list_lru.new 1)).entries
        ≤ (get_or cache0.shards 1 (list_lru.new 1)).room)
unfolding insert shard shard_index Assoc.remove UtxoKey-discrete ℕ_discrete
two = (refl, omega arith)

-- Every shard of the empty cache has room for what the other cache has there.
clear :
    (i : ℕ)
    → i < num_shards
    → ((get_or cache0.shards i (list_lru.new 1)).entries ≡ [])
      × (length (get_or cache2.shards i (list_lru.new 1)).entries
          ≤ (get_or cache0.shards i (list_lru.new 1)).room)
unfolding insert shard shard_index
clear i lt = elim (ℕ_discrete i 1) [
  | yes e ↦ rw e two
  | no ne ↦
      let at0 =
        get_or-replicate_lt num_shards i (record { entries = []; room = 2 }) (list_lru.new 1) lt in
      let away = λ (h : 1 ≡ i). ne (sym h) in
      let at2 =
        get_or-set_ne cache1.shards 1 i
          (list_lru.put (key 17) (coin 7) (get_or cache1.shards 1 (list_lru.new 1)))
          (list_lru.new 1) away
        ∙ get_or-set_ne cache0.shards 1 i
            (list_lru.put (key 1) (coin 5) (get_or cache0.shards 1 (list_lru.new 1)))
            (list_lru.new 1) away
        ∙ at0 in
      (ap (λ s. s.entries) at0, omega (arith, ap (λ s. length s.entries) at2))
]

abbrev reloaded : UtxoCache ListCache × Result IoError ℕ
reloaded = load_from_file sum_crc list_lru (some (file_contents sum_crc list_lru cache2 800)) cache0

load_from_file-file_contents_example :
    (reloaded.1 ≡ ok (cache_len list_lru cache2))
    × ShardsOk list_lru reloaded.0.shards
    × ((get_or reloaded.0.shards 1 (list_lru.new 1)).entries
        ≡ (get_or cache2.shards 1 (list_lru.new 1)).entries)
    × (find list_lru reloaded.0.shards (key 17) ≡ find list_lru cache2.shards (key 17))
load_from_file-file_contents_example =
    load_from_file-file_contents sum_crc list_lru cache2 cache0 800 cache2-ShardsOk cache0-ShardsOk
      typed small clear 1 (key 17) (omega arith)

-- The file of an earlier save.
abbrev earlier : Disk
earlier = record { final = some (file_contents sum_crc list_lru cache1 700); tmp = none }

long : 3 < length (save_ops sum_crc list_lru cache2 800)
unfolding save_ops write_ops
long = omega arith

save_to_file-fault_example :
    ((save_to_file sum_crc list_lru 3 cache2 800 earlier).0.final ≡ earlier.final)
    × ((save_to_file sum_crc list_lru 3 cache2 800 earlier).1 ≡ none)
save_to_file-fault_example = save_to_file-fault sum_crc list_lru cache2 800 earlier 3 long

save_to_file-done_example :
    save_to_file sum_crc list_lru (length (save_ops sum_crc list_lru cache2 800)) cache2 800 earlier
    ≡ (
      record { final = some (file_contents sum_crc list_lru cache2 800); tmp = none },
      some (cache_len list_lru cache2),
    )
save_to_file-done_example =
    save_to_file-done sum_crc list_lru cache2 800 earlier
      (length (save_ops sum_crc list_lru cache2 800)) (omega arith)

-- A file of one byte.
cut_off : (load_from_file sum_crc list_lru (some (1 ∷ [])) cache2).1 ≡ err unexpected_eof
unfolding load_from_file read_file read_exact
cut_off = refl

shorter : 30 < length (file_contents sum_crc list_lru cache2 800)
unfolding file_contents to_le_bytes insert shard_index shard
shorter = omega arith

load_from_file-cut_off_example :
    (e : IoError) × (load_from_file sum_crc list_lru
        (some (take 30 (file_contents sum_crc list_lru cache2 800)))
        cache1
      ≡ (cache1, err e))
load_from_file-cut_off_example =
    load_from_file-cut_off sum_crc list_lru cache2 cache1 800 30 typed small shorter

abbrev saved_file : List ℕ
saved_file = file_contents sum_crc list_lru cache2 800

load_from_file-ok_example :
    (bytes_eq (take 4 saved_file) cache_file_magic ≡ true)
    × (from_le_bytes (take 4 (drop 4 saved_file)) ≡ cache_file_version)
    × (cache_len list_lru cache2 ≡ from_le_bytes (take 8 (drop 4 (drop 4 saved_file))))
load_from_file-ok_example =
    load_from_file-ok sum_crc list_lru cache0 saved_file (cache_len list_lru cache2)
      load_from_file-file_contents_example.0
