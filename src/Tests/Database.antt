-- ===== src/Tests/Database.antt =====
-- Small blocks, their transactions, and an in-memory database that holds them.
use bitcoin_chain_graph.Common.{ℕ, true, false, [], ◌∷◌, none}
use bitcoin_chain_graph.Common.Int.{pos}
use bitcoin_chain_graph.Writer.Data.{BlockData, TransactionData}
use bitcoin_chain_graph.Writer.Mock.{MockStorage}

abbrev pub block : ℕ → ℕ → BlockData
block height tx_count = record {
  height = height;
  hash = height ∷ [];
  previous_hash = [];
  merkle_root = [];
  timestamp = pos 0;
  bits = [];
  difficulty = 0;
  nonce = 0;
  version = pos 1;
  tx_count = tx_count;
  size = 0;
  weight = 0;
}

abbrev pub coinbase : ℕ → TransactionData
coinbase height = record {
  txid = height ∷ 0 ∷ [];
  block_height = height;
  block_hash = height ∷ [];
  timestamp = pos 0;
  version = pos 1;
  locktime = 0;
  size = 0;
  vsize = 0;
  weight = 0;
  is_coinbase = true;
  total_input = none;
  total_output = none;
  fee = none;
}

-- Two blocks, the lower one with its transaction.
abbrev pub stored : MockStorage
stored = record {
  tables = record {
    blocks = block 1 1 ∷ block 2 1 ∷ [];
    transactions = coinbase 1 ∷ [];
    outputs = [];
    inputs = [];
    performs = [];
    benefits_to = [];
    checkpoint = none;
  };
  schema_initialized = true;
  transaction_commit_count = 0;
  in_transaction = false;
  checkpoint_written_in_txn = false;
  snapshot = none;
  lookup_outputs_responses = [];
  call_log = [];
  failures = λ m. none;
  transient_failures = λ m. none;
  failure_after_n = λ m. none;
}
