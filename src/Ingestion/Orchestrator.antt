-- ===== src/Ingestion/Orchestrator.antt =====
-- `IngestionOrchestrator` (src/domain/ingestion.rs): what it holds and calls, the state that its
-- methods change, and the methods that hand a call on. The clock, the standard library's hash of a
-- text, how many file operations of a snapshot succeed, and the order in which parallel tasks make
-- their calls are fields.
use bitcoin_chain_graph.Common.{ℕ, ◌*◌, ◌%◌, ◌^◌, Bool, List, Option, none, some, if◌then◌else◌}
use bitcoin_chain_graph.Common.Result.{ok}
use bitcoin_chain_graph.Common.Int.{ℤ}
use bitcoin_chain_graph.Common.Exec.{Exec, ◌>>=◌, ◌>>◌, return}
use bitcoin_chain_graph.Writer.Error.{WriterError}
use bitcoin_chain_graph.Writer.Data.{Text, CheckpointData}
use bitcoin_chain_graph.Writer.Graph.{GraphWriter}
use bitcoin_chain_graph.Utxo.Lru.{LruCrate}
use bitcoin_chain_graph.Utxo.Cache.{UtxoCache}
use bitcoin_chain_graph.Utxo.File.{Crc32, Disk, save_to_file}
use bitcoin_chain_graph.Parser.Bitcoin.{BitcoinCrate}
use bitcoin_chain_graph.Ingestion.Buckets.{Task}
use bitcoin_chain_graph.Ingestion.Conversions.{F64}

pub record Orchestrator : Type 1 where
  pub bitcoin : BitcoinCrate
  pub f64 : F64
  pub lru : LruCrate
  pub crc : Crc32
  pub network : bitcoin.Network
  pub max_transaction_memory_bytes : ℕ
  -- Whether a snapshot path is set.
  pub cache_snapshot_path : Bool
  pub string_hash : Text → ℕ
  pub now : ℤ
  -- By the height of a snapshot, how many of its file operations succeed.
  pub saves : ℕ → ℕ
  -- The bucket that makes the next call, while the tasks of a chunk run.
  pub schedule : List ℕ

-- The database, the cache, the disk with the snapshot file, and the tasks that nobody awaits: they
-- were spawned, and the chunk returned an error before their turn.
pub record State (O : Orchestrator) (W : GraphWriter) : Type 0 where
  pub db : W.Db
  pub cache : UtxoCache O.lru.LruCache
  pub disk : Disk
  pub detached : List Task

module _ (O : Orchestrator) (W : GraphWriter) where
  -- A call of the database.
  abbrev pub on_db : {A : Type 0} → Exec W.Db WriterError A → Exec (State O W) WriterError A
  on_db m s = let (db', result) = m s.db in (record s { db = db' }, result)

  -- An operation of the cache that cannot fail.
  abbrev pub on_cache :
      (UtxoCache O.lru.LruCache → UtxoCache O.lru.LruCache) → Exec (State O W) WriterError Unit
  on_cache f s = (record s { cache = f s.cache }, ok tt)

  -- A failed save is only logged.
  unfoldable pub try_save_snapshot : ℕ → State O W → State O W
  unfolding save_to_file
  try_save_snapshot height s =
      if O.cache_snapshot_path
      then (record s { disk = (save_to_file O.crc O.lru (O.saves height) s.cache height s.disk).0 })
      else s

  -- `if self.writer.get_checkpoint().await?.is_none()`.
  unfoldable pub create_missing : Option CheckpointData → Exec W.Db WriterError Unit
  create_missing none = W.create_checkpoint
  create_missing (some c) = return tt

  unfoldable pub init_schema : Exec W.Db WriterError Unit
  unfolding create_missing
  init_schema = W.init_schema >> (W.get_checkpoint >>= create_missing)

  unfoldable pub with_max_transaction_memory_mb : ℕ → Orchestrator
  with_max_transaction_memory_mb mb = record O {
    max_transaction_memory_bytes = (mb * 1024 * 1024) % 2 ^ 64;
  }
