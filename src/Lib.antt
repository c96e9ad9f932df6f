-- ===== src/Lib.antt =====
-- The UTXO cache, the database writer and the ingestion of bitcoin-chain-graph
--
-- The program reads Bitcoin's blocks and writes them to a graph database as nodes and
-- relationships. A transaction's input names an earlier output; its amount and address come from a
-- cache of unspent outputs, and from the database where the cache has lost them. The cache is saved
-- to a file, and a checkpoint in the database says from which block an interrupted run resumes.
--
-- Common holds what the parts share: native numbers, lists, association lists (Assoc), the result
-- type (Result), 32-bit signed heights (Int), fallible computations on a state (Exec), the stable sort
-- of a list by a number (Sort), and errors under contexts as they are printed (Context).
--
-- Utxo models src/domain/utxo/cache.rs.
--   Key, Output, OutputId, Stats: `UtxoKey` with its shard index and its output id, `ScriptTypeTag`,
--     `CachedOutput`, and the counters, which wrap around at 2^64.
--   Lru: the contract of the lru crate, which every definition over the cache takes as an argument:
--     its entries, the most recently used first, after each call. Lru/Entries says what those are.
--   Cache: `UtxoCache`, sixteen shards, with `new`, `insert`, `get`, `get_quiet`, `remove`,
--     `contains`, `get_many`, `get_many_or_fail`, `remove_many`, `insert_prewarm`, the sizes and the
--     counters. Its children are about the parts of the theorems: Shards (validity of a shard and of
--     the sixteen, and `find`, what a look-up without promotion sees), Single (the operations on one
--     key), Bounds (sizes), Groups (the positions of the keys by shard), Collect and Batch
--     (`get_many`), Removal (`remove_many`).
--   File: `save_to_file` as the list of its file operations, of which a given number succeeds, and
--     the bytes that it writes. Children: LittleEndian, Load (`load_from_file` on the bytes),
--     EntryTrip, Placement, Replay, Reading, Reload (reading back what was saved), Atomic (a save
--     that is interrupted), Errors (any file that loads), Longer
--     and CutOff (a file that was cut off). The checksum of the crc32fast crate is an argument.
--   Fallback: `get_many_with_fallback` over any database; Resolve is about its loop, Sources about
--     the outcome.
--
-- Writer models src/domain/models.rs (Data), src/writer/error.rs (Error), src/writer/traits.rs
-- (Graph: the trait as a record of operations) and src/writer/mock.rs (Mock).
--   Mock: `MockStorage` and the configuration of failures. Children: Writes (`check_failure` and the
--     writes), Queries (look-ups, checkpoint, `rollback_block`), Session (`begin_transaction`,
--     `commit_transaction`, `rollback_transaction`), Instance (the implementation of the trait),
--     Calls (any sequence of calls), Open, Grow and Transaction (what a transaction keeps), Rollback,
--     Fulfils (the contract).
--   Contract: what the ingestion relies on in a database: the effect of each write on the tables, and
--     what a transaction undoes. The theorems on batches take it as an argument.
--
-- Parser models src/parser/address.rs (Address: `extract_address`), over an interface of the bitcoin
-- crate (Bitcoin), src/parser/block_index.rs (BlockIndex), src/parser/zmq_listener.rs (Zmq) and
-- src/parser/rpc_provider.rs (Rpc).
--   BlockIndex: `decode_varint` and `parse_block_record`. Children: Varint, Record, and Scan, which has
--     `get_main_chain`, `get_main_chain_up_to`, `load_batch_index`, `get_block_at_height` and
--     `get_block_by_hash` over the list of the keys and values of LevelDB; Scan/Run is about the chain.
--   Zmq: `parse_hashblock_message` and the sequence numbers. Children: Message, and Listener, which has
--     `connect`, `reconnect_with_backoff` and `recv_block_hash` over any network. Listener/Attempts and
--     Listener/Recovery are about reconnecting, Listener/Balance and Listener/Listen about sequences
--     of calls. The loop over the attempts is on the number that is left.
--   Rpc: the calls with their three attempts, and `get_block`, over the crates for HTTP and JSON and
--     a state of the network; the crate that runs the calls of a batch gives them in
--     any order. Children: Missing (a height that the node does not have), Batch (`get_block_batch`),
--     Order and Bounds (about it).
--
-- Ingestion models src/domain/ingestion.rs and src/domain/conversions.rs.
--   Conversions: `from_block`, `from_transaction`, `from_output`, `from_input`; Ids is about the ids.
--   Amounts: what a batch is turned into: `collect_input_keys`, `estimate_block_memory`, the rows of
--     outputs and inputs, and the sums by address; Totals is about the sums.
--   Buckets: the partitions by address and the tasks that write them. A schedule, an argument of the
--     model, says which task makes the next call; the tasks that nobody awaits after an error are
--     kept in the state. Children: Partition, Kept (the transaction), Written and Schedule (what the
--     tasks have written).
--   Orchestrator: the fields of `IngestionOrchestrator`, and the state: database, cache and disk.
--   Batch: `process_batch_chunk`. Children: Kept (the transaction), Written (the tables), Cached.
--   Session: `ingest_blocks_batch`. Children: Atomic (a chunk that fails), Committed (the relation of
--     the chunks that are committed), Prefix and Outcome (in terms of the blocks).
--   Single: `ingest_block`; Agreement compares it to a chunk of one block.
--   Chunks: `compute_adaptive_chunks`; Budget is about its result.
--   Resume: `get_resume_height`, `sync_checkpoint_with_db`, `validate_parent_hash` and
--     `rollback_to_height`, over any database; Walk, Synced and Reorg are about them on MockWriter.
--   Fork: `find_fork_point` and what `run_live_ingestion` does on a reorganisation (src/main.rs), over
--     any database and any node; Search and Recovery are about them on MockWriter. The loop is on the
--     number of heights that are left.
--   Live: the blocks up to a new tip in `run_live_ingestion` (src/main.rs), with the tracker of
--     src/domain/shutdown_height.rs. The loop is on the number of heights that are left; Progress is
--     about it, and Tip about what is done for a tip. Catchup has the loop before it, which ingests
--     batches of the RPC provider, on fuel; Catchup/Ends shows how much is enough, and Heights,
--     Steps and Blocks are about the blocks that are ingested, and Stored about the database.
--
-- Config models src/config/mod.rs: the records, `validate`, `validate_rpc` and `cache_capacity`.
--
-- Tests has a concrete lru list, checksum, text of an id and database, and runs of the theorems.
--
-- A `HashMap` is an association list or a function, a `Vec` a list, and a text its bytes. Machine
-- integers keep their wrap-around as release builds have it. Loops over collections are structural;
-- the walk over heights is on the number of heights that are left, and the encoding of a number takes
-- ten steps, which are enough for 64 bits. A message that the code formats is a constructor with the
-- arguments. Locks are left out: the operations run one after the other. The clock, and how many file
-- operations succeed, are arguments. The sums of amounts wrap around at 2^64 and the counts at 2^32.
--
-- Not modelled: a task that panics, and the loop of the live mode around the notifications; and the
-- code around other systems: the Neo4j queries (src/writer/neo4j), block files, the rest of the
-- command line (src/main.rs), logging and floating-point rates.
pub mod Common
pub mod Writer
pub mod Utxo
pub mod Ingestion
pub mod Parser
pub mod Config
pub mod Tests
