-- ===== src/Utxo/File.antt =====
-- The cache file (src/domain/utxo/cache.rs, `save_to_file` and `load_from_file`): the layout of
-- the file, the save through a temporary file and the load. The checksum of the `crc32fast` crate
-- is a parameter.
pub mod LittleEndian
pub mod Load
pub mod EntryTrip
pub mod Placement
pub mod Atomic
pub mod Replay
pub mod Reading
pub mod Reload
pub mod Errors
pub mod Longer
pub mod CutOff
use bitcoin_chain_graph.Common.{
  ℕ, zero, suc, ◌+◌, ◌%◌, ◌<◌, ◌^◌, ◌≡◌, Bool, true, false, not, List, [], ◌∷◌, ◌++◌, reverse,
  Option, none, some, length, get_or, set, take, drop, replicate, ltb, ◌==◌, if◌then◌else◌,
}
use bitcoin_chain_graph.Common.Result.{Result, ok, err, ◌>>=◌}
use bitcoin_chain_graph.Utxo.Key.{Bytes, UtxoKey, num_shards, shard_index}
use bitcoin_chain_graph.Utxo.Output.{
  ScriptTypeTag, p2pkh, p2sh, p2wpkh, p2wsh, p2tr, p2pk, null_data, unknown, CachedOutput,
}
use bitcoin_chain_graph.Utxo.Lru.{LruCrate}
use bitcoin_chain_graph.Utxo.Lru.Entries.{Entry}
use bitcoin_chain_graph.Utxo.Cache.{UtxoCache, sum_shards}
use LittleEndian.{to_le_bytes}

-- `crc32fast::Hasher`: its state, and what it makes of the chunks that it is given.
pub record Crc32 : Type 1 where
  pub Hasher : Type 0
  pub new : Hasher
  pub update : Hasher → Bytes → Hasher
  pub finalize : Hasher → ℕ
  -- The checksum is a `u32`.
  pub finalize-u32 : (h : Hasher) → finalize h < 2 ^ 32

pub data IoError : Type 0 where
  unexpected_eof invalid_magic invalid_version invalid_utf8 crc_mismatch : IoError
  io_failed : IoError

abbrev pub cache_file_magic : Bytes
cache_file_magic = b'U' ∷ b'T' ∷ b'X' ∷ b'O' ∷ []

abbrev pub cache_file_version : ℕ
cache_file_version = 1

-- `script_type as u8`.
unfoldable pub tag_byte : ScriptTypeTag → ℕ
tag_byte p2pkh = 0
tag_byte p2sh = 1
tag_byte p2wpkh = 2
tag_byte p2wsh = 3
tag_byte p2tr = 4
tag_byte p2pk = 5
tag_byte null_data = 6
tag_byte unknown = 7

unfoldable pub byte_tag : ℕ → ScriptTypeTag
byte_tag b =
    if b == 0
    then p2pkh
    else if b == 1
    then p2sh
    else if b == 2
    then p2wpkh
    else if b == 3
    then p2wsh
    else if b == 4
    then p2tr
    else if b == 5
    then p2pk
    else if b == 6
    then null_data
    else unknown

-- The chunks that are written, and hashed, for one entry. The length of an address is cast to `u16`.
unfoldable pub address_chunks : Option Bytes → List Bytes
address_chunks none = (0 ∷ []) ∷ []
address_chunks (some addr) = (1 ∷ []) ∷ to_le_bytes 2 (length addr % 65536) ∷ addr ∷ []

unfoldable pub entry_chunks : Entry → List Bytes
unfolding address_chunks
entry_chunks (key, value) =
    key.txid
    ∷ to_le_bytes 4 key.vout
    ∷ to_le_bytes 4 value.output_index
    ∷ to_le_bytes 8 value.amount
    ∷ (tag_byte value.script_type ∷ [])
    ∷ address_chunks value.address

unfoldable pub write_all : List Bytes → Bytes
write_all [] = []
write_all (chunk ∷ chunks) = chunk ++ write_all chunks

unfoldable pub body : List Entry → Bytes
unfolding entry_chunks write_all
body [] = []
body (e ∷ entries) = write_all (entry_chunks e) ++ body entries

-- Magic, version, count, height and checksum: 24 bytes.
unfoldable pub header : ℕ → ℕ → ℕ → Bytes
header count height crc =
    cache_file_magic
    ++ (to_le_bytes 4 cache_file_version
        ++ (to_le_bytes 8 count ++ (to_le_bytes 4 height ++ to_le_bytes 4 crc)))

module _ (L : LruCrate) where
  open L use {LruCache, iter}

  -- All entries, shard by shard, the most recently used first.
  unfoldable pub all_entries : List LruCache → List Entry
  all_entries [] = []
  all_entries (s ∷ shards) = iter s ++ all_entries shards

module _ (C : Crc32) where
  open C use {Hasher, new as new_hasher, update, finalize}

  unfoldable pub update_all : Hasher → List Bytes → Hasher
  update_all h [] = h
  update_all h (chunk ∷ chunks) = update_all (update h chunk) chunks

  unfoldable pub hash_entries : Hasher → List Entry → Hasher
  unfolding entry_chunks update_all
  hash_entries h [] = h
  hash_entries h (e ∷ entries) = hash_entries (update_all h (entry_chunks e)) entries

  module _ (L : LruCrate) where
    open L use {LruCache, new, put, len, iter}

    -- The finished contents of the file.
    unfoldable pub file_contents : UtxoCache LruCache → ℕ → Bytes
    unfolding header all_entries body hash_entries
    file_contents c height =
        let entries = all_entries L c.shards in
        header (sum_shards L len c.shards) height (finalize (hash_entries new_hasher entries))
        ++ body entries

-- The file system as the save uses it: the cache file, and the temporary file beside it.
pub record Disk : Type 0 where
  pub final : Option Bytes
  pub tmp : Option Bytes

pub data DiskOp : Type 0 where
  create sync_all rename : DiskOp
  write : Bytes → DiskOp
  write_at : ℕ → Bytes → DiskOp

abbrev pub opt_bytes : Option Bytes → Bytes
opt_bytes none = []
opt_bytes (some bs) = bs

unfoldable pub overwrite : ℕ → Bytes → Bytes → Bytes
overwrite offset chunk bs = take offset bs ++ (chunk ++ drop (offset + length chunk) bs)

-- What an operation that succeeds does to the disk. A sync changes no contents.
unfoldable pub disk_op : DiskOp → Disk → Disk
unfolding overwrite
disk_op create d = record d { tmp = some [] }
disk_op (write chunk) d = record d { tmp = some (opt_bytes d.tmp ++ chunk) }
disk_op (write_at offset chunk) d = record d {
  tmp = some (overwrite offset chunk (opt_bytes d.tmp));
}
disk_op sync_all d = d
disk_op rename d = record { final = d.tmp; tmp = none }

-- The operations one after the other, each with its `?`. `budget` of them succeed, then one fails,
-- or the process is killed there.
unfoldable pub run_ops : ℕ → List DiskOp → Disk → Disk × Bool
unfolding disk_op
run_ops budget [] d = (d, true)
run_ops zero (o ∷ ops) d = (d, false)
run_ops (suc budget) (o ∷ ops) d = run_ops budget ops (disk_op o d)

unfoldable pub write_ops : List Bytes → List DiskOp
write_ops [] = []
write_ops (chunk ∷ chunks) = write chunk ∷ write_ops chunks

unfoldable pub entries_ops : List Entry → List DiskOp
unfolding write_ops entry_chunks
entries_ops [] = []
entries_ops (e ∷ entries) = write_ops (entry_chunks e) ++ entries_ops entries

module _ (C : Crc32) (L : LruCrate) where
  open C use {new as new_hasher, finalize}
  open L use {LruCache, len}

  -- The header with a checksum of zero, the entries, then the checksum at offset 20.
  unfoldable pub save_ops : UtxoCache LruCache → ℕ → List DiskOp
  unfolding entries_ops all_entries hash_entries
  save_ops c checkpoint_height =
      let entries = all_entries L c.shards in
      create
      ∷ (write_ops (
            cache_file_magic
            ∷ to_le_bytes 4 cache_file_version
            ∷ to_le_bytes 8 (sum_shards L len c.shards)
            ∷ to_le_bytes 4 checkpoint_height
            ∷ to_le_bytes 4 0
            ∷ [])
          ++ (entries_ops entries
              ++ (write_at 20 (to_le_bytes 4 (finalize (hash_entries C new_hasher entries)))
                  ∷ sync_all
                  ∷ rename
                  ∷ [])))

  -- `none` for an I/O error; else the number of entries written.
  unfoldable pub save_to_file : ℕ → UtxoCache LruCache → ℕ → Disk → Disk × Option ℕ
  unfolding run_ops save_ops
  save_to_file budget c checkpoint_height d =
      let (d', done) = run_ops budget (save_ops c checkpoint_height) d in
      (d', if done then some (length (all_entries L c.shards)) else none)
