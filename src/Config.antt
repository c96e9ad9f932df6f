-- ===== src/Config.antt =====
-- The configuration and its checks (src/config/mod.rs).
pub mod Capacity
use bitcoin_chain_graph.Common.{
  ℕ, ◌*◌, ◌/◌, ◌%◌, ◌^◌, Bool, Option, none, some, length, ltb, ◌==◌, if◌then◌else◌,
}
use bitcoin_chain_graph.Common.Result.{Result, ok, err}
use bitcoin_chain_graph.Utxo.Key.{Bytes}

-- `ConfigError::ValidationError`, by its message.
pub data ConfigError : Type 0 where
  empty_uri no_max_connections too_many_min_connections no_transaction_memory : ConfigError
  no_cache_memory no_parallel_batches no_rpc_section empty_rpc_url : ConfigError
  empty_zmq_endpoint no_rpc_timeout no_rpc_batch_size : ConfigError

pub record BitcoinConfig : Type 0 where
  pub blocks_dir : Bytes
  pub start_height : ℕ
  pub end_height : Option ℕ

pub record Neo4jConfig : Type 0 where
  pub uri : Bytes
  pub user : Bytes
  pub password : Bytes
  pub database : Bytes
  pub max_connections : ℕ
  pub min_connections : ℕ
  pub connection_timeout_secs : ℕ
  pub fetch_size : ℕ
  pub max_retries : ℕ
  pub write_batch_size : ℕ
  pub query_timeout_secs : ℕ

pub record IngestionConfig : Type 0 where
  pub max_transaction_memory_mb : ℕ
  pub enable_validation : Bool
  pub validate_every_n_blocks : ℕ
  pub auto_resume : Bool
  pub validate_on_resume : Bool

pub record PerformanceConfig : Type 0 where
  pub utxo_cache_memory_mb : ℕ
  pub utxo_prewarm_depth : ℕ
  pub utxo_lookup_batch_size : ℕ
  pub parallel_batches : ℕ
  pub progress_report_interval : ℕ
  pub utxo_cache_file : Bytes

pub record LoggingConfig : Type 0 where
  pub level : Bytes
  pub json_format : Bool

pub record BitcoinRpcConfig : Type 0 where
  pub url : Bytes
  pub user : Bytes
  pub password : Bytes
  pub batch_size : ℕ
  pub timeout_secs : ℕ
  pub zmq_endpoint : Bytes
  pub rpc_max_concurrent : ℕ
  pub zmq_max_reconnect_attempts : ℕ
  pub zmq_reconnect_base_delay_ms : ℕ
  pub zmq_recv_timeout_mins : ℕ
  pub zmq_max_consecutive_failures : ℕ

pub record Config : Type 0 where
  pub bitcoin : BitcoinConfig
  pub neo4j : Neo4jConfig
  pub ingestion : IngestionConfig
  pub performance : PerformanceConfig
  pub logging : LoggingConfig
  pub bitcoin_rpc : Option BitcoinRpcConfig

unfoldable pub validate : Config → Result ConfigError (Unit {0})
validate c =
    if length c.neo4j.uri == 0
    then err empty_uri
    else if c.neo4j.max_connections == 0
    then err no_max_connections
    else if ltb c.neo4j.max_connections c.neo4j.min_connections
    then err too_many_min_connections
    else if c.ingestion.max_transaction_memory_mb == 0
    then err no_transaction_memory
    else if c.performance.utxo_cache_memory_mb == 0
    then err no_cache_memory
    else if c.performance.parallel_batches == 0
    then err no_parallel_batches
    else ok tt

unfoldable pub validate_rpc_section : BitcoinRpcConfig → Result ConfigError (Unit {0})
validate_rpc_section rpc =
    if length rpc.url == 0
    then err empty_rpc_url
    else if length rpc.zmq_endpoint == 0
    then err empty_zmq_endpoint
    else if rpc.timeout_secs == 0
    then err no_rpc_timeout
    else if rpc.batch_size == 0
    then err no_rpc_batch_size
    else ok tt

unfoldable pub validate_rpc : Config → Result ConfigError (Unit {0})
unfolding validate_rpc_section
validate_rpc c = elim c.bitcoin_rpc [
  | none ↦ err no_rpc_section
  | some rpc ↦ validate_rpc_section rpc
]

-- `usize` arithmetic, as release builds have it.
unfoldable pub cache_capacity : PerformanceConfig → ℕ
cache_capacity p = (p.utxo_cache_memory_mb * 1000000) % 2 ^ 64 / 72
