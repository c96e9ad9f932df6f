-- ===== src/Utxo/File/Reading.antt =====
-- The first half of `load_from_file`: what the reader makes of the file of a saved cache.
use bitcoin_chain_graph.Common.{
  ℕ, ◌<◌, ◌^◌, ◌≡◌, refl, sym, ap, ◌∙◌, List, [], ◌++◌, map, length, replicate, All, arith,
  append_assoc, append-nil, ==_iff,
}
use bitcoin_chain_graph.Common.Result.{ok}
use bitcoin_chain_graph.Utxo.Key.{Bytes, num_shards}
use bitcoin_chain_graph.Utxo.Lru.{LruCrate}
use bitcoin_chain_graph.Utxo.Lru.Entries.{Entry}
use bitcoin_chain_graph.Utxo.Cache.{UtxoCache, sum_shards, cache_len}
use bitcoin_chain_graph.Utxo.Cache.Shards.{ShardsOk}
use bitcoin_chain_graph.Utxo.File.{
  Crc32, body, header, all_entries, file_contents, hash_entries, cache_file_magic,
  cache_file_version,
}
use bitcoin_chain_graph.Utxo.File.LittleEndian.{
  to_le_bytes, length-to_le_bytes, from_le_bytes-to_le_bytes,
}
use bitcoin_chain_graph.Utxo.File.Load.{read_entries, read_body, read_version, read_file, bytes_eq}
use bitcoin_chain_graph.Utxo.File.EntryTrip.{
  EntryOk, read_exact-append, push_entries, read_entries_lem,
}
use bitcoin_chain_graph.Utxo.File.Placement.{push_entries-all_entries}
use bitcoin_chain_graph.Utxo.File.Atomic.{all_entries-length}

module _ (C : Crc32) (L : LruCrate) where
  open C use {new as new_hasher, finalize, finalize-u32}
  open L use {LruCache, new, cap, iter, len}

  pub read_entries-body :
      (entries : List Entry) (per_shard : List (List Entry))
      → All EntryOk entries
      → read_entries C (length entries) (body entries, new_hasher) per_shard
        ≡ ok (push_entries entries per_shard, ([], hash_entries C new_hasher entries))
  read_entries-body entries per_shard typed =
      ap (λ bs. read_entries C (length entries) (bs, new_hasher) per_shard)
        (sym (append-nil (body entries)))
      ∙ read_entries_lem C entries [] new_hasher per_shard typed

  read_body_lem :
      (entries : List Entry) (height : ℕ)
      → All EntryOk entries
      → length entries < 2 ^ 64
      → let crc = finalize (hash_entries C new_hasher entries) in
        read_body C (
          to_le_bytes 8 (length entries)
          ++ (to_le_bytes 4 height ++ (to_le_bytes 4 crc ++ body entries)))
        ≡ ok (push_entries entries (replicate num_shards []))
  unfolding read_body
  read_body_lem entries height typed small =
      let count = to_le_bytes 8 (length entries) in
      let at = to_le_bytes 4 height in
      let sum = finalize (hash_entries C new_hasher entries) in
      let crc = to_le_bytes 4 sum in
      rw (
        read_exact-append 8 count (at ++ (crc ++ body entries)) (length-to_le_bytes 8 _),
        read_exact-append 4 at (crc ++ body entries) (length-to_le_bytes 4 _),
        read_exact-append 4 crc (body entries) (length-to_le_bytes 4 _),
        from_le_bytes-to_le_bytes 8 (length entries) small,
        read_entries-body entries (replicate num_shards []) typed,
        from_le_bytes-to_le_bytes 4 sum (finalize-u32 _),
        (==_iff sum sum).1 refl,
      )

  read_version_lem :
      (rest : Bytes) → read_version C (to_le_bytes 4 cache_file_version ++ rest) ≡ read_body C rest
  unfolding read_version
  read_version_lem rest = rw (
    read_exact-append 4 (to_le_bytes 4 cache_file_version) rest (length-to_le_bytes 4 _),
    from_le_bytes-to_le_bytes 4 cache_file_version (omega arith),
  )

  read_file_lem : (rest : Bytes) → read_file C (cache_file_magic ++ rest) ≡ read_version C rest
  unfolding read_file bytes_eq
  read_file_lem rest = rw (read_exact-append 4 cache_file_magic rest refl)

  -- What the reader makes of the file of a valid cache: the entries of each shard.
  pub read_file-file_contents :
      (c : UtxoCache LruCache) (height : ℕ)
      → ShardsOk L c.shards
      → All EntryOk (all_entries L c.shards)
      → cache_len L c < 2 ^ 64
      → read_file C (file_contents C L c height) ≡ ok (map iter c.shards)
  unfolding file_contents header
  read_file-file_contents c height valid typed small =
      let entries = all_entries L c.shards in
      let n : length entries ≡ sum_shards L len c.shards = all_entries-length L c.shards in
      let count = to_le_bytes 8 (sum_shards L len c.shards) in
      let version = to_le_bytes 4 cache_file_version in
      let at = to_le_bytes 4 height in
      let crc = to_le_bytes 4 (finalize (hash_entries C new_hasher entries)) in
      ap (read_file C) (assoc cache_file_magic version count at crc (body entries))
      ∙ read_file_lem (version ++ (count ++ (at ++ (crc ++ body entries))))
      ∙ read_version_lem (count ++ (at ++ (crc ++ body entries)))
      ∙ ap (λ m. read_body C (to_le_bytes 8 m ++ (at ++ (crc ++ body entries)))) (sym n)
      ∙ read_body_lem entries height typed (rw n (unfold cache_len in small))
      ∙ ap ok (push_entries-all_entries L c.shards valid)
    where
      assoc :
          (a b c h z rest : Bytes)
          → (a ++ (b ++ (c ++ (h ++ z)))) ++ rest ≡ a ++ (b ++ (c ++ (h ++ (z ++ rest))))
      assoc a b c h z rest = simp append_assoc
