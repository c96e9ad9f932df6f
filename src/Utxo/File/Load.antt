-- ===== src/Utxo/File/Load.antt =====
-- `load_from_file` (src/domain/utxo/cache.rs): every entry is read and the checksum compared before
-- the cache is touched.
use bitcoin_chain_graph.Common.{
  ℕ, zero, suc, ◌+◌, Bool, true, false, List, [], ◌∷◌, ◌++◌, reverse, Option, none, some, length,
  get_or, set, take, drop, replicate, ltb, ◌==◌, if◌then◌else◌,
}
use bitcoin_chain_graph.Common.Result.{Result, ok, err, ◌>>=◌}
use bitcoin_chain_graph.Utxo.Key.{Bytes, num_shards, shard_index}
use bitcoin_chain_graph.Utxo.Lru.{LruCrate}
use bitcoin_chain_graph.Utxo.Lru.Entries.{Entry}
use bitcoin_chain_graph.Utxo.Cache.{UtxoCache}
use bitcoin_chain_graph.Utxo.File.{
  Crc32, IoError, unexpected_eof, invalid_magic, invalid_version, invalid_utf8, crc_mismatch,
  cache_file_magic, cache_file_version, byte_tag,
}
use bitcoin_chain_graph.Utxo.File.LittleEndian.{from_le_bytes, is_utf8}

-- `==` of two byte arrays.
unfoldable pub bytes_eq : Bytes → Bytes → Bool
bytes_eq [] [] = true
bytes_eq (a ∷ xs) (b ∷ ys) = if a == b then bytes_eq xs ys else false
bytes_eq _ _ = false

-- `read_exact`.
unfoldable pub read_exact : ℕ → Bytes → Result IoError (Bytes × Bytes)
read_exact n bs = if ltb (length bs) n then err unexpected_eof else ok (take n bs, drop n bs)

-- `per_shard[shard_idx].push((key, value))`.
unfoldable pub push_entry : Entry → List (List Entry) → List (List Entry)
push_entry e per_shard =
    let idx = shard_index e.0 in set per_shard idx (get_or per_shard idx [] ++ e ∷ [])

unfoldable pub count_entries : List (List Entry) → ℕ
count_entries [] = 0
count_entries (entries ∷ per_shard) = length entries + count_entries per_shard

module _ (L : LruCrate) where
  open L use {LruCache, new, put}

  -- `for (key, value) in entries.into_iter().rev()`.
  unfoldable pub put_all : List Entry → LruCache → LruCache
  put_all [] s = s
  put_all ((key, value) ∷ entries) s = put_all entries (put key value s)

  -- `for (shard_idx, entries) in per_shard.into_iter().enumerate()`.
  unfoldable pub load_shards : ℕ → List (List Entry) → List LruCache → List LruCache
  unfolding put_all
  load_shards idx [] shards = shards
  load_shards idx (entries ∷ per_shard) shards =
      load_shards (suc idx) per_shard
        (set shards idx (put_all (reverse entries) (get_or shards idx (new 1))))

module _ (C : Crc32) where
  open C use {Hasher, new as new_hasher, update, finalize}

  -- A reader: the bytes that are left, and the checksum so far.
  abbrev pub Reader : Type 0
  Reader = Bytes × Hasher

  -- `read_exact`, then `hasher.update`.
  unfoldable pub read_hashed : ℕ → Reader → Result IoError (Bytes × Reader)
  unfolding read_exact
  read_hashed n (bs, h) = do (chunk, rest) ← read_exact n bs; ok (chunk, (rest, update h chunk))

  unfoldable pub read_text : Reader → Result IoError (Option Bytes × Reader)
  unfolding read_hashed
  read_text r = do
    (len, r1) ← read_hashed 2 r
    (addr, r2) ← read_hashed (from_le_bytes len) r1
    if is_utf8 addr then ok (some addr, r2) else err invalid_utf8

  unfoldable pub read_address : Reader → Result IoError (Option Bytes × Reader)
  unfolding read_text
  read_address r = do
    (has_address, r1) ← read_hashed 1 r
    if get_or has_address 0 0 == 1 then read_text r1 else ok (none, r1)

  unfoldable pub read_entry : Reader → Result IoError (Entry × Reader)
  unfolding read_address
  read_entry r = do
    (txid, r1) ← read_hashed 32 r
    (vout, r2) ← read_hashed 4 r1
    (output_index, r3) ← read_hashed 4 r2
    (amount, r4) ← read_hashed 8 r3
    (script_type, r5) ← read_hashed 1 r4
    (address, r6) ← read_address r5
    ok (
      (
        record { txid = txid; vout = from_le_bytes vout },
        record {
          output_index = from_le_bytes output_index;
          amount = from_le_bytes amount;
          script_type = byte_tag (get_or script_type 0 0);
          address = address;
        },
      ),
      r6,
    )

  -- `for _ in 0..entry_count`.
  unfoldable pub read_entries :
      ℕ → Reader → List (List Entry) → Result IoError (List (List Entry) × Reader)
  unfolding read_entry push_entry
  read_entries zero r per_shard = ok (per_shard, r)
  read_entries (suc n) r per_shard = elim (read_entry r) [
    | err e ↦ err e
    | ok (e, r') ↦ read_entries n r' (push_entry e per_shard)
  ]

  -- After the version: count, height, checksum, the entries, and the comparison of the checksum.
  unfoldable pub read_body : Bytes → Result IoError (List (List Entry))
  unfolding read_entries read_exact
  read_body file = do
    (count, f1) ← read_exact 8 file
    (height, f2) ← read_exact 4 f1
    (expected_crc, f3) ← read_exact 4 f2
    (per_shard, r) ← read_entries (from_le_bytes count) (f3, new_hasher) (replicate num_shards [])
    if finalize r.1 == from_le_bytes expected_crc then ok per_shard else err crc_mismatch

  unfoldable pub read_version : Bytes → Result IoError (List (List Entry))
  unfolding read_body
  read_version file = do
    (version, f1) ← read_exact 4 file
    if from_le_bytes version == cache_file_version then read_body f1 else err invalid_version

  -- Everything that is read and checked before the cache is touched.
  unfoldable pub read_file : Bytes → Result IoError (List (List Entry))
  unfolding read_version
  read_file file = do
    (magic, f1) ← read_exact 4 file
    if bytes_eq magic cache_file_magic then read_version f1 else err invalid_magic

  module _ (L : LruCrate) where
    open L use {LruCache}

    -- `none` for a file that does not exist.
    unfoldable pub load_from_file :
        Option Bytes → UtxoCache LruCache → UtxoCache LruCache × Result IoError ℕ
    unfolding read_file load_shards count_entries
    load_from_file none c = (c, ok 0)
    load_from_file (some file) c = elim (read_file file) [
      | err e ↦ (c, err e)
      | ok per_shard ↦
          (record c { shards = load_shards L 0 per_shard c.shards }, ok (count_entries per_shard))
    ]
