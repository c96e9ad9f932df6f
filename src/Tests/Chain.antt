-- ===== src/Tests/Chain.antt =====
-- A small chain: blocks and transactions for the bitcoin crate, and an orchestrator over them.
use bitcoin_chain_graph.Common.{
  ℕ, ◌-◌, ◌*◌, Bool, true, false, List, [], ◌∷◌, none, some, length, replicate, length-replicate,
}
use bitcoin_chain_graph.Common.Int.{pos}
use bitcoin_chain_graph.Utxo.Key.{Bytes}
use bitcoin_chain_graph.Writer.Data.{Text}
use bitcoin_chain_graph.Writer.Mock
use bitcoin_chain_graph.Writer.Mock.{MockStorage}
use bitcoin_chain_graph.Writer.Mock.Instance.{mock_writer}
use bitcoin_chain_graph.Writer.Graph.{GraphWriter}
use bitcoin_chain_graph.Parser.Bitcoin.{BitcoinCrate}
use bitcoin_chain_graph.Ingestion.Conversions.{F64}
use bitcoin_chain_graph.Ingestion.Orchestrator.{Orchestrator, State}
use bitcoin_chain_graph.Ingestion.Amounts.{Item}
use bitcoin_chain_graph.Tests.Instances.{twice_text, list_lru, sum_crc, cache0}

-- An output is its value and its address, an input the number of a transaction and of an output.
pub record SomeTx : Type 0 where
  pub number : ℕ
  pub coinbase : Bool
  pub ins : List (ℕ × ℕ)
  pub outs : List (ℕ × Text)

pub record SomeBlock : Type 0 where
  pub number : ℕ
  pub txs : List SomeTx

-- A script is the text of its address.
abbrev pub some_bitcoin : BitcoinCrate
some_bitcoin = record {
  Block = SomeBlock;
  Transaction = SomeTx;
  TxIn = ℕ × ℕ;
  TxOut = ℕ × Text;
  Script = Text;
  Network = Unit;
  PublicKey = Bytes;
  txid_text = twice_text;
  block_hash = λ b. b.number ∷ [];
  txdata = λ b. b.txs;
  prev_blockhash = λ b. (b.number - 1) ∷ [];
  merkle_root = λ b. [];
  time = λ b. b.number;
  bits = λ b. 0x1d00ffff;
  nonce = λ b. 0;
  block_version = λ b. pos 1;
  block_size = λ b. 0;
  block_weight = λ b. 0;
  txid = λ t. replicate 32 t.number;
  length-txid = λ t. length-replicate 32 t.number;
  is_coinbase = λ t. t.coinbase;
  inputs = λ t. t.ins;
  outputs = λ t. t.outs;
  version = λ t. pos 1;
  lock_time = λ t. 0;
  total_size = λ t. 0;
  vsize = λ t. 0;
  weight = λ t. 0;
  previous_txid = λ i. replicate 32 i.0;
  previous_vout = λ i. i.1;
  script_sig = λ i. [];
  sequence = λ i. 0;
  witness = λ i. [];
  value = λ o. o.0;
  script_pubkey = λ o. o.1;
  to_hex_string = λ s. s;
  script_len = length;
  is_op_return = λ s. false;
  is_p2pkh = λ s. true;
  is_p2sh = λ s. false;
  is_witness_program = λ s. false;
  witness_version = λ s. none;
  instructions = λ s. [];
  from_script = λ s n. some s;
  from_slice = λ b. none;
  p2pkh = λ k n. [];
  op_checksig = 0xac;
  hex_encode = λ b. b;
}

abbrev pub some_f64 : F64
some_f64 = record { of_u32 = λ n. n; div = λ a b. 1; mul = ◌*◌; two = 2; powi = λ a e. 1 }

-- Two buckets take turns.
abbrev pub some_orchestrator : Orchestrator
some_orchestrator = record {
  bitcoin = some_bitcoin;
  f64 = some_f64;
  lru = list_lru;
  crc = sum_crc;
  network = tt;
  max_transaction_memory_bytes = 20000;
  cache_snapshot_path = false;
  string_hash = length;
  now = pos 9;
  saves = λ height. 0;
  schedule = 2 ∷ 1 ∷ 2 ∷ 1 ∷ [];
}

abbrev pub some_writer : GraphWriter
some_writer = mock_writer (pos 9)

-- 50 to the first address; then 20 of it to the second, the rest back, in one block with its
-- coinbase.
abbrev pub first_tx : SomeTx
first_tx = record { number = 1; coinbase = true; ins = (0, 0) ∷ []; outs = (50, b'a' ∷ []) ∷ [] }

abbrev pub second_tx : SomeTx
second_tx = record {
  number = 2;
  coinbase = false;
  ins = (1, 0) ∷ [];
  outs = (20, b'b' ∷ b'b' ∷ []) ∷ (29, b'a' ∷ []) ∷ [];
}

abbrev pub third_tx : SomeTx
third_tx = record {
  number = 3;
  coinbase = false;
  ins = (2, 0) ∷ (2, 1) ∷ [];
  outs = (48, b'b' ∷ b'b' ∷ []) ∷ [];
}

abbrev pub chain : List (Item some_bitcoin)
chain =
    (0, record { number = 0; txs = first_tx ∷ second_tx ∷ [] }, b'f' ∷ [])
    ∷ (1, record { number = 1; txs = third_tx ∷ [] }, b'f' ∷ [])
    ∷ []

abbrev pub fresh : State some_orchestrator some_writer
fresh = record {
  db = Mock.new;
  cache = cache0;
  disk = record { final = none; tmp = none };
  detached = [];
}
