-- ===== src/Tests/Parser.antt =====
-- The theorems on the parsers, the notifications and the configuration at concrete inputs.
use bitcoin_chain_graph.Common.{
  Option, ◌-◌, ℕ, List, get_elem?, total, ◌+◌, ◌^◌, ◌<◌, ◌≡◌, refl, true, false, [], ◌∷◌, ◌++◌,
  reverse, none, some, length, replicate, bit_and, ◌==◌, arith, if◌then◌else◌,
}
use bitcoin_chain_graph.Common.Result.{ok, err}
use bitcoin_chain_graph.Parser.BlockIndex.{
  decode_from, decode_varint, not_on_main_chain, parse_block_record, BlockIndexEntry,
}
use bitcoin_chain_graph.Parser.BlockIndex.Varint.{
  encode_varint, decode_varint-encode_varint, decode_varint-in_u64, decoded, in_u64, wide_varint,
}
use bitcoin_chain_graph.Parser.BlockIndex.Scan.{Entries, scan, get_main_chain, get_block_at_height}
use bitcoin_chain_graph.Parser.BlockIndex.Scan.Run.{Run, get_main_chain-Run}
use bitcoin_chain_graph.Parser.BlockIndex.Record.{encode_record, parse_block_record-encode_record}
use bitcoin_chain_graph.Parser.Zmq.{hashblock, parse_hashblock_message}
use bitcoin_chain_graph.Parser.Zmq.Message.{parse_hashblock_message-message}
use bitcoin_chain_graph.Utxo.File.LittleEndian.{to_le_bytes}
use bitcoin_chain_graph.Config.{Config, validate}
use bitcoin_chain_graph.Tests.Instances.{twice}

decode_varint-encode_varint_example :
    decode_varint (encode_varint 850000 ++ 9 ∷ []) ≡ ok (850000, length (encode_varint 850000))
decode_varint-encode_varint_example = decode_varint-encode_varint 850000 (9 ∷ []) (omega arith)

two_bytes : decode_varint (128 ∷ 5 ∷ 7 ∷ []) ≡ ok (133, 2)
unfolding decode_varint decode_from
two_bytes = refl

-- The index lists the blocks of heights 1 and 0, a key of another kind, and a block without data.
abbrev entry_at : ℕ → BlockIndexEntry
entry_at h = record {
  height = h;
  hash = twice (replicate 32 h);
  prev_hash = [];
  file_number = 0;
  file_offset = 8;
  block_size = 0;
  tx_count = 1;
  status = 29;
}

abbrev key_of : ℕ → List ℕ
key_of n = b'b' ∷ replicate 32 n

abbrev index : Entries
index =
    (key_of 1, 1 ∷ 1 ∷ 29 ∷ 1 ∷ 0 ∷ 8 ∷ [])
    ∷ (key_of 0, 1 ∷ 0 ∷ 29 ∷ 1 ∷ 0 ∷ 8 ∷ [])
    ∷ (b'R' ∷ [], replicate 32 1)
    ∷ (key_of 2, 1 ∷ 2 ∷ 1 ∷ 1 ∷ [])
    ∷ []

index-chain : get_main_chain twice (some index) ≡ ok (entry_at 0 ∷ entry_at 1 ∷ [])
unfolding get_main_chain
index-chain = refl

get_main_chain-Run_example :
    (h : ℕ) × Run h (entry_at 0 ∷ entry_at 1 ∷ [])
    × (Path (List BlockIndexEntry) (entry_at 0 ∷ entry_at 1 ∷ []) [] → ⊥)
    × ((w : BlockIndexEntry → ℕ)
        → total w (entry_at 0 ∷ entry_at 1 ∷ []) ≡ total w (scan twice index))
    × ((i : ℕ)
        → get_block_at_height twice (some index) (h + i)
          ≡ ok (get_elem? (entry_at 0 ∷ entry_at 1 ∷ []) i))
    × ((i : ℕ) → i < h → get_block_at_height twice (some index) i ≡ ok none)
get_main_chain-Run_example =
    get_main_chain-Run twice index (entry_at 0 ∷ entry_at 1 ∷ []) index-chain

-- The largest number that fits.
largest :
    Path
      (Option (ℕ × ℕ))
      (decoded (decode_varint (encode_varint (2 ^ 64 - 1))))
      (some (2 ^ 64 - 1, 10))
unfolding decode_varint encode_varint
largest = refl

decode_varint-in_u64_example :
    decoded (decode_varint (replicate 9 255 ++ 0 ∷ []))
    ≡ in_u64 (wide_varint 0 0 (replicate 9 255 ++ 0 ∷ []))
decode_varint-in_u64_example = decode_varint-in_u64 (replicate 9 255 ++ 0 ∷ [])

parse_block_record-encode_record_example :
    parse_block_record (replicate 32 7) (encode_record 1 850000 29 3000 4000 12345 []) ≡ (
      if bit_and 29 12 == 0
      then err not_on_main_chain
      else ok (record {
        height = 850000;
        hash = replicate 32 7;
        prev_hash = [];
        file_number = 4000;
        file_offset = 12345;
        block_size = 0;
        tx_count = 3000;
        status = 29;
      }))
parse_block_record-encode_record_example =
    parse_block_record-encode_record (replicate 32 7) 1 850000 29 3000 4000 12345 [] (omega arith)
      (omega arith) (omega arith) (omega arith) (omega arith) (omega arith)

parse_hashblock_message-message_example :
    parse_hashblock_message twice (hashblock ∷ replicate 32 171 ∷ to_le_bytes 4 12345 ∷ [])
    ≡ ok (twice (reverse (replicate 32 171)), some 12345)
parse_hashblock_message-message_example =
    parse_hashblock_message-message twice (replicate 32 171) 12345 [] refl (omega arith)

abbrev settings : Config
settings = record {
  bitcoin = record { blocks_dir = b'd' ∷ []; start_height = 0; end_height = none };
  neo4j = record {
    uri = b'b' ∷ b'o' ∷ b'l' ∷ b't' ∷ [];
    user = b'u' ∷ [];
    password = [];
    database = [];
    max_connections = 10;
    min_connections = 2;
    connection_timeout_secs = 30;
    fetch_size = 500;
    max_retries = 3;
    write_batch_size = 1000;
    query_timeout_secs = 120;
  };
  ingestion = record {
    max_transaction_memory_mb = 500;
    enable_validation = true;
    validate_every_n_blocks = 1000;
    auto_resume = true;
    validate_on_resume = true;
  };
  performance = record {
    utxo_cache_memory_mb = 100;
    utxo_prewarm_depth = 0;
    utxo_lookup_batch_size = 1000;
    parallel_batches = 4;
    progress_report_interval = 100;
    utxo_cache_file = b'c' ∷ [];
  };
  logging = record { level = []; json_format = false };
  bitcoin_rpc = none;
}

settings-valid : validate settings ≡ ok tt
unfolding validate
settings-valid = refl
